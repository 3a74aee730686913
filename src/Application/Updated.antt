-- ===== src/Application/Updated.antt =====
-- What an update of the version does to the components.
use kube_min_cli.Base.{
  ◌≡◌, refl, sym, ap, ◌∙◌, subst, Bool, true, false, not, ◌&&◌, ◌||◌, List, [], ◌∷◌, ◌++◌, Option,
  none, some, Text, Dict, lookup, insert, delete, lookup-insert, lookup-delete, text_eq,
  text_eq_sym, text_eq_iff, member, distinct, arith, Bool-cases, Option-cases, inl, inr,
}
use kube_min_cli.Config.{ComponentAction, update, add, remove, parse_component_action}
use kube_min_cli.Naming.{Unicode}
use kube_min_cli.Application.Components.{Applications, ApplicationComponent}
use kube_min_cli.Application.Release.{Failures}
use kube_min_cli.Application.Version.{
  ComponentUpdateSpec, Progress, component_key, changed_component, step_update, step_remove,
  apply_action, apply_spec, apply_specs, start,
}

module _ (u : Unicode) where
  abbrev pub keys : List Text → List Text
  keys [] = []
  keys (n ∷ ns) = component_key u n ∷ keys ns

  keys-append :
      (k : Text) (ns : List Text) (n : Text)
      → member k (keys (ns ++ (n ∷ []))) ≡ (member k (keys ns) || text_eq (component_key u n) k)
  keys-append k [] n = ground arith
  keys-append k (m ∷ ms) n = ground (arith, keys-append k ms n)

  distinct-keys-append :
      (ns : List Text) (n : Text)
      → distinct (keys (ns ++ (n ∷ [])))
        ≡ (distinct (keys ns) && not (member (component_key u n) (keys ns)))
  distinct-keys-append [] n = refl
  distinct-keys-append (m ∷ ms) n = ground (
    arith,
    distinct-keys-append ms n,
    keys-append (component_key u m) ms n,
    text_eq_sym (component_key u m) (component_key u n),
  )

  abbrev pub has : Text → Dict ApplicationComponent → Bool
  has k m = elim (lookup k m) [ none ↦ false | some c ↦ true ]

  -- The components of the handler against those it began with: a removed one was there at the
  -- beginning, is removed once and is no longer there; any other one is still there.
  pub record IsAccounted (begin : Dict ApplicationComponent) (p : Progress) : Type 0 where
    pub once : distinct (keys p.removed) ≡ true
    pub was_there : (k : Text) → member k (keys p.removed) ≡ true → has k begin ≡ true
    pub is_there :
        (k : Text) → has k p.components ≡ (has k begin && not (member k (keys p.removed)))

  module _ (update_fails create_fails delete_fails : Text → Bool) (app : Applications)
      (begin : Dict ApplicationComponent) where
    has-insert :
        (k j : Text) (c : ApplicationComponent) (m : Dict ApplicationComponent)
        → has j (insert k c m) ≡ (text_eq k j || has j m)
    has-insert k j c m = ground (arith, lookup-insert k j c m)

    has-delete :
        (k j : Text) (m : Dict ApplicationComponent)
        → has j (delete k m) ≡ (not (text_eq k j) && has j m)
    has-delete k j m = ground (arith, lookup-delete k j m)

    has_same : (a b : Text) (m : Dict ApplicationComponent) → text_eq a b ≡ true → has a m ≡ has b m
    has_same a b m h = ap (λ k. has k m) (((text_eq_iff a b).0) h)

    step_update-IsAccounted :
        (s : ComponentUpdateSpec) (c : ApplicationComponent) (p : Progress)
        → has (component_key u s.name) p.components ≡ true
        → IsAccounted begin p
        → IsAccounted begin (step_update u update_fails create_fails delete_fails app s c p)
    step_update-IsAccounted s c p there h =
        let k = component_key u s.name in
        record {
          once = h.once;
          was_there = h.was_there;
          is_there = λ j.
              has-insert k j (changed_component c s).0 p.components
              ∙ ground (arith, has_same k j p.components, h.is_there j);
        }

    step_remove-IsAccounted :
        (s : ComponentUpdateSpec) (c : ApplicationComponent) (p : Progress)
        → has (component_key u s.name) p.components ≡ true
        → IsAccounted begin p
        → IsAccounted begin (step_remove u update_fails create_fails delete_fails app s c p)
    step_remove-IsAccounted s c p there h =
        let k = component_key u s.name in
        let not_yet = sym (h.is_there k) ∙ there in
        record {
          once = distinct-keys-append p.removed s.name ∙ ground (arith, h.once);
          was_there = λ j m.
              ground (arith, keys-append j p.removed s.name, h.was_there j, has_same k j begin);
          is_there = λ j.
              has-delete k j p.components
              ∙ ground (arith, h.is_there j, keys-append j p.removed s.name);
        }

    -- Unless the handler gives up.
    abbrev Continues : Option Progress → Type 0
    Continues none = Unit
    Continues (some q) = IsAccounted begin q

    there_of :
        (k : Text) (c : ApplicationComponent) (m : Dict ApplicationComponent)
        → lookup k m ≡ some c
        → has k m ≡ true
    there_of k c m f = rw (f, has) refl

    apply_action-IsAccounted :
        (a : ComponentAction) (s : ComponentUpdateSpec) (found : Option ApplicationComponent)
        (p : Progress)
        → lookup (component_key u s.name) p.components ≡ found
        → IsAccounted begin p
        → Continues (apply_action u update_fails create_fails delete_fails app a s found p)
    unfolding apply_action
    apply_action-IsAccounted update s none p f h = h
    apply_action-IsAccounted update s (some c) p f h =
        step_update-IsAccounted s c p (there_of (component_key u s.name) c p.components f) h
    apply_action-IsAccounted add s none p f h = elim (Bool-cases (create_fails s.name)) [
      | inl b ↦ rw b tt
      | inr b ↦ rw b (record { once = h.once; was_there = h.was_there; is_there = h.is_there })
    ]
    apply_action-IsAccounted add s (some c) p f h = h
    apply_action-IsAccounted remove s none p f h = h
    apply_action-IsAccounted remove s (some c) p f h = elim (Bool-cases (delete_fails c.name)) [
      | inl b ↦ rw b tt
      | inr b ↦
          rw b
            (step_remove-IsAccounted s c p (there_of (component_key u s.name) c p.components f) h)
    ]

    apply_spec-IsAccounted :
        (s : ComponentUpdateSpec) (p : Progress)
        → IsAccounted begin p
        → Continues (apply_spec u update_fails create_fails delete_fails app s p)
    unfolding apply_spec
    apply_spec-IsAccounted s p h =
        apply_action-IsAccounted (parse_component_action s.action) s
          (lookup (component_key u s.name) p.components) p refl h

    apply_specs-IsAccounted :
        (ss : List ComponentUpdateSpec) (p : Progress)
        → IsAccounted begin p
        → Continues (apply_specs u update_fails create_fails delete_fails app ss p)
    unfolding apply_specs
    apply_specs-IsAccounted [] p h = h
    apply_specs-IsAccounted (s ∷ ss) p h =
        let here = apply_spec-IsAccounted s p h in
        elim (Option-cases (apply_spec u update_fails create_fails delete_fails app s p)) [
          | inl n ↦ rw (n, Continues) tt
          | inr (q, e) ↦ rw (e, Continues) (apply_specs-IsAccounted ss q (subst Continues e here))
        ]

  -- When the handler does not give up, each component that it reports as removed was there at the
  -- beginning, is removed once, and is no longer in its map, where all others still are.
  pub update_version-IsAccounted :
      (f : Failures) (app : Applications) (cs : List ApplicationComponent)
      (ss : List ComponentUpdateSpec) (q : Progress)
      → apply_specs u f.update_fails f.create_fails f.delete_fails app ss (start u cs) ≡ some q
      → IsAccounted (start u cs).components q
  update_version-IsAccounted f app cs ss q e =
      let begin = (start u cs).components in
      subst (Continues f.update_fails f.create_fails f.delete_fails app begin) e (
        apply_specs-IsAccounted f.update_fails f.create_fails f.delete_fails app begin ss
          (start u cs)
          (record {
            once = refl;
            was_there = λ k m. absurd (ground arith);
            is_there = λ k. ground arith;
          }))
