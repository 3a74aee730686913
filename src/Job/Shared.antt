-- ===== src/Job/Shared.antt =====
-- pkg/apiserver/event/workflow/job/shared.go: whether a job creates a resource that components share,
-- and the lock under which it looks for one. What the lock and the list answer are parameters: of
-- the lock whether it fails, of the list the number of resources, or `none` for an error.
use kube_min_cli.Base.{
  ℕ, Bool, true, false, not, ◌&&◌, Option, some, none, List, [], ◌∷◌, Text, text, Dict, lookup,
  is_nil, ltb, if◌then◌else◌,
}
use kube_min_cli.Config.{
  ShareStrategy, no_strategy, share_default, share_ignore, share_force, ResourceKind, any_resource,
}
use kube_min_cli.Naming.{Unicode, trim_space}
use kube_min_cli.Builder.Share.{normalize_share_strategy}

-- A label that is missing reads as the empty text.
abbrev pub label : Text → Dict Text → Text
label k ls = elim (lookup k ls) [ none ↦ [] | some v ↦ v ]

unfoldable pub share_info_from_labels : Unicode → Dict Text → Text × ShareStrategy
share_info_from_labels u ls =
    let name = trim_space u (label (text "kubemin-share-name") ls) in
    let raw = trim_space u (label (text "kubemin-share-strategy") ls) in
    if is_nil name then ([], no_strategy) else (name, (normalize_share_strategy u raw).0)

-- Calls, in their order.
pub data ShareCall : Type 0 where
  locks lists unlocks : ShareCall

-- What `resolveSharedResource` returns: whether there is an `unlock`, `skipped`, and whether there is
-- an error.
pub record Resolved : Type 0 where
  pub calls : List ShareCall
  pub unlock : Bool
  pub skipped : Bool
  pub error : Bool

abbrev pub returned : List ShareCall → Bool → Bool → Bool → Resolved
returned calls unlock skipped error = record {
  calls = calls;
  unlock = unlock;
  skipped = skipped;
  error = error;
}

-- `shareLockKey` is the empty text.
abbrev pub has_no_key : ResourceKind → Text → Bool
has_no_key any_resource name = true
has_no_key _ name = is_nil name

-- What is returned once the list has answered, with or without a key.
abbrev pub after_list : Bool → Option ℕ → Resolved
after_list has_key none =
    returned (if has_key then locks ∷ lists ∷ unlocks ∷ [] else lists ∷ []) false false true
after_list has_key (some n) =
    if ltb 0 n
    then returned (if has_key then locks ∷ lists ∷ unlocks ∷ [] else lists ∷ []) false true false
    else returned (if has_key then locks ∷ lists ∷ [] else lists ∷ []) has_key false false

unfoldable pub resolve_shared_resource :
    (lock_fails : Bool) (counted : Option ℕ) → Text → ShareStrategy → ResourceKind → Resolved
resolve_shared_resource lock_fails counted name strategy kind =
    if is_nil name then returned [] false false false else elim strategy [
      | no_strategy ↦ returned [] false false false
      | share_ignore ↦ returned [] false true false
      | share_force ↦ returned [] false false false
      | share_default ↦
          if not (has_no_key kind name) && lock_fails
          then returned [] false false true
          else after_list (not (has_no_key kind name)) counted
    ]
