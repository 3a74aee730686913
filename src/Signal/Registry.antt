-- ===== src/Signal/Registry.antt =====
-- `localCancelRegistry` of pkg/apiserver/workflow/signal/cancel.go, for a process without Redis: the
-- watchers of each task. A watcher is a number, and a set of watchers a list without repetitions.
use kube_min_cli.Base.{
  ℕ, ◌≡◌, refl, sym, ap, ◌∙◌, Bool, not, ◌&&◌, ◌||◌, some, none, List, [], ◌∷◌, Text, text_eq,
  text_eq_iff, Dict, lookup, insert, delete, lookup-insert, lookup-delete, is_nil, any, ◌==◌,
  if◌then◌else◌, arith, Bool-cases, Option-cases, inl, inr,
}

abbrev pub without : ℕ → List ℕ → List ℕ
without w [] = []
without w (v ∷ vs) = let rest = without w vs in if v == w then rest else v ∷ rest

abbrev pub listeners : Text → Dict (List ℕ) → List ℕ
listeners task r = elim (lookup task r) [ none ↦ [] | some ws ↦ ws ]

unfoldable pub registry_add : Text → ℕ → Dict (List ℕ) → Dict (List ℕ)
registry_add task w r = insert task (w ∷ without w (listeners task r)) r

unfoldable pub registry_remove : Text → ℕ → Dict (List ℕ) → Dict (List ℕ)
registry_remove task w r = elim (lookup task r) [
  | none ↦ r
  | some ws ↦ let rest = without w ws in if is_nil rest then delete task r else insert task rest r
]

-- The watchers whose contexts are cancelled, and the registry without the task.
unfoldable pub registry_cancel : Text → Dict (List ℕ) → List ℕ × Dict (List ℕ)
registry_cancel task r = (listeners task r, delete task r)

-- Is this watcher of the task registered?
abbrev pub is_watching : Text → ℕ → Dict (List ℕ) → Bool
is_watching task w r = any (λ v. v == w) (listeners task r)

any-without :
    (w v : ℕ) (ws : List ℕ)
    → any (λ x. x == v) (without w ws) ≡ (any (λ x. x == v) ws && not (w == v))
any-without w v [] = refl
any-without w v (x ∷ ws) = ground (arith, any-without w v ws)

listeners-insert :
    (task t : Text) (ws : List ℕ) (r : Dict (List ℕ))
    → listeners t (insert task ws r) ≡ (if text_eq task t then ws else listeners t r)
listeners-insert task t ws r = ground (arith, lookup-insert task t ws r)

listeners-delete :
    (task t : Text) (r : Dict (List ℕ))
    → listeners t (delete task r) ≡ (if text_eq task t then [] else listeners t r)
listeners-delete task t r = ground (arith, lookup-delete task t r)

add-is_watching :
    (task t : Text) (w v : ℕ) (r : Dict (List ℕ))
    → is_watching t v (registry_add task w r) ≡ ((text_eq task t && (w == v)) || is_watching t v r)
unfolding registry_add
add-is_watching task t w v r = elim (Bool-cases (text_eq task t)) [
  | inl same ↦
      rw (listeners-insert, same, sym ((text_eq_iff task t).0 same))
        (ground (arith, any-without w v (listeners task r)))
  | inr other ↦ rw (listeners-insert, other) refl
]

remove_gone :
    (task t : Text) (w : ℕ) (r : Dict (List ℕ))
    → lookup task r ≡ none
    → listeners t r ≡ (if text_eq task t then without w (listeners task r) else listeners t r)
remove_gone task t w r gone = ground (arith, text_eq_iff task t)

remove_absent :
    (task : Text) (w : ℕ) (r : Dict (List ℕ)) → lookup task r ≡ none → registry_remove task w r ≡ r
unfolding registry_remove
remove_absent task w r gone = ground arith

remove_present :
    (task : Text) (w : ℕ) (ws : List ℕ) (r : Dict (List ℕ))
    → lookup task r ≡ some ws
    → registry_remove task w r
      ≡ (if is_nil (without w ws) then delete task r else insert task (without w ws) r)
unfolding registry_remove
remove_present task w ws r found = ground arith

listeners_present :
    (task : Text) (ws : List ℕ) (r : Dict (List ℕ))
    → lookup task r ≡ some ws
    → ws ≡ listeners task r
listeners_present task ws r found = ground arith

removed_empty :
    (task t : Text) (ws : List ℕ) (r : Dict (List ℕ))
    → listeners t (if is_nil ws then delete task r else insert task ws r)
      ≡ (if text_eq task t then ws else listeners t r)
removed_empty task t [] r = listeners-delete task t r
removed_empty task t (w ∷ ws) r = listeners-insert task t (w ∷ ws) r

-- `remove` leaves the listeners of its task without the watcher, and the others alone.
listeners-remove :
    (task t : Text) (w : ℕ) (r : Dict (List ℕ))
    → listeners t (registry_remove task w r)
      ≡ (if text_eq task t then without w (listeners task r) else listeners t r)
listeners-remove task t w r = elim (Option-cases (lookup task r)) [
  | inl gone ↦ ap (listeners t) (remove_absent task w r gone) ∙ remove_gone task t w r gone
  | inr (ws, found) ↦
      ap (listeners t) (remove_present task w ws r found)
      ∙ removed_empty task t (without w ws) r
      ∙ ap (λ x. if text_eq task t then without w x else listeners t r)
          (listeners_present task ws r found)
]

-- What is done to the registry.
pub data Change : Type 0 where
  adds : Text → ℕ → Change
  removes : Text → ℕ → Change
  cancels : Text → Change

unfoldable pub change : Change → Dict (List ℕ) → Dict (List ℕ)
unfolding registry_add registry_remove registry_cancel
change (adds task w) r = registry_add task w r
change (removes task w) r = registry_remove task w r
change (cancels task) r = (registry_cancel task r).1

-- Whether a watcher is registered after a change, told from before.
abbrev pub watches_after : Change → Text → ℕ → Bool → Bool
watches_after (adds task w) t v before = (text_eq task t && (w == v)) || before
watches_after (removes task w) t v before = before && not (text_eq task t && (w == v))
watches_after (cancels task) t v before = before && not (text_eq task t)

-- The registry is a set of pairs of a task and a watcher: adding and removing change the one pair,
-- and cancelling removes those of its task.
pub is_watching-change :
    (c : Change) (t : Text) (v : ℕ) (r : Dict (List ℕ))
    → is_watching t v (change c r) ≡ watches_after c t v (is_watching t v r)
unfolding change
is_watching-change (adds task w) t v r = add-is_watching task t w v r
is_watching-change (removes task w) t v r = elim (Bool-cases (text_eq task t)) [
  | inl same ↦
      rw (listeners-remove, same, sym ((text_eq_iff task t).0 same))
        (any-without w v (listeners task r))
  | inr other ↦ rw (listeners-remove, other) (ground arith)
]
is_watching-change (cancels task) t v r = ground (arith, listeners-delete task t r)
