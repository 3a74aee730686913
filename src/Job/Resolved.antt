-- ===== src/Job/Resolved.antt =====
-- The lock of a shared resource, and the way of its name from the builder to the job.
use kube_min_cli.Base.{
  ℕ, ◌+◌, ◌≡◌, refl, ap, ◌∙◌, Bool, true, false, not, ◌&&◌, Option, some, none, List, [], ◌∷◌, Text,
  text, Dict, insert, lookup-insert, text_eq, is_nil, all, if◌then◌else◌, arith,
}
use kube_min_cli.Config.{
  ShareStrategy, no_strategy, share_default, share_ignore, share_force, ResourceKind,
}
use kube_min_cli.Naming.{
  Unicode, is_name_char, to_lower, trim_space, trim_space_left, trim_space_right,
}
use kube_min_cli.Builder.Share.{
  ShareConfig, is_enabled, strategy_text, normalize_share_strategy, apply_share_labels,
}
use kube_min_cli.Job.Shared.{
  label, share_info_from_labels, ShareCall, locks, lists, unlocks, returned, has_no_key, after_list,
  resolve_shared_resource,
}

abbrev locks_in : List ShareCall → ℕ
locks_in [] = 0
locks_in (locks ∷ cs) = locks_in cs + 1
locks_in (lists ∷ cs) = locks_in cs
locks_in (unlocks ∷ cs) = locks_in cs

abbrev unlocks_in : List ShareCall → ℕ
unlocks_in [] = 0
unlocks_in (locks ∷ cs) = unlocks_in cs
unlocks_in (lists ∷ cs) = unlocks_in cs
unlocks_in (unlocks ∷ cs) = unlocks_in cs + 1

after_list-locks :
    (b : Bool) (n : Option ℕ)
    → locks_in (after_list b n).calls
      ≡ unlocks_in (after_list b n).calls + (if (after_list b n).unlock then 1 else 0)
after_list-locks true none = refl
after_list-locks false none = refl
after_list-locks true (some n) = ground arith
after_list-locks false (some n) = ground arith

-- The lock is held on return exactly where an `unlock` is returned: every other way out has released
-- what it took.
pub resolve-locks :
    (lock_fails : Bool) (counted : Option ℕ) (name : Text) (strategy : ShareStrategy)
    (kind : ResourceKind)
    → locks_in (resolve_shared_resource lock_fails counted name strategy kind).calls
      ≡ unlocks_in (resolve_shared_resource lock_fails counted name strategy kind).calls
        + (if (resolve_shared_resource lock_fails counted name strategy kind).unlock then 1 else 0)
unfolding resolve_shared_resource
resolve-locks lock_fails counted [] _ kind = refl
resolve-locks lock_fails counted (c ∷ cs) no_strategy kind = refl
resolve-locks lock_fails counted (c ∷ cs) share_ignore kind = refl
resolve-locks lock_fails counted (c ∷ cs) share_force kind = refl
resolve-locks lock_fails counted (c ∷ cs) share_default kind =
    go (not (has_no_key kind (c ∷ cs))) lock_fails
  where
    go :
        (k l : Bool)
        → locks_in (if k && l then returned [] false false true else after_list k counted).calls
          ≡ unlocks_in (if k && l then returned [] false false true else after_list k counted).calls
            + (if (if k && l then returned [] false false true else after_list k counted).unlock
                then 1
                else 0)
    go true true = refl
    go false true = after_list-locks false counted
    go true false = after_list-locks true counted
    go false false = after_list-locks false counted

module _ (u : Unicode) (no_spaces : (c : ℕ) → is_name_char c ≡ true → u.is_space c ≡ false) where
  trim_space_left-plain : (t : Text) → all is_name_char t ≡ true → trim_space_left u t ≡ t
  trim_space_left-plain [] plain = refl
  trim_space_left-plain (c ∷ cs) plain = ground (arith, no_spaces c)

  trim_space_right-plain : (t : Text) → all is_name_char t ≡ true → trim_space_right u t ≡ t
  trim_space_right-plain [] plain = refl
  trim_space_right-plain (c ∷ cs) plain = ground (arith, no_spaces c, trim_space_right-plain cs)

  trim_space-plain : (t : Text) → all is_name_char t ≡ true → trim_space u t ≡ t
  unfolding trim_space
  trim_space-plain t plain = rw (trim_space_left-plain t plain) (trim_space_right-plain t plain)

  normalize-strategy_text :
      (s : ShareStrategy)
      → is_nil (strategy_text s) ≡ false
      → (normalize_share_strategy u (trim_space u (strategy_text s))).0 ≡ s
  unfolding normalize_share_strategy strategy_text to_lower text_eq
  normalize-strategy_text no_strategy given = absurd (ground (arith, given))
  normalize-strategy_text share_default given =
      rw (trim_space-plain (text "default") refl, trim_space-plain (text "default") refl) refl
  normalize-strategy_text share_ignore given =
      rw (trim_space-plain (text "ignore") refl, trim_space-plain (text "ignore") refl) refl
  normalize-strategy_text share_force given =
      rw (trim_space-plain (text "force") refl, trim_space-plain (text "force") refl) refl

  enabled-text : (s : ShareConfig) → is_enabled s ≡ true → is_nil (strategy_text s.strategy) ≡ false
  unfolding is_enabled strategy_text
  enabled-text s on = given s.strategy on
    where
      given :
          (t : ShareStrategy)
          → (elim t as (λ x. Bool) [ no_strategy ↦ false | _ ↦ true ]) ≡ true
          → is_nil (strategy_text t) ≡ false
      given no_strategy h = absurd (ground (arith, h))
      given share_default h = refl
      given share_ignore h = refl
      given share_force h = refl

  label-insert :
      (k j v : Text) (ls : Dict Text)
      → label k (insert j v ls) ≡ (if text_eq j k then v else label k ls)
  label-insert k j v ls = ground (arith, lookup-insert j k v ls)

  apply_share_labels-enabled :
      (ls : Dict Text) (s : ShareConfig)
      → is_enabled s ≡ true
      → apply_share_labels ls s
        ≡ insert
            (text "kubemin-share-strategy")
            (strategy_text s.strategy)
            (insert (text "kubemin-share-name") s.name ls)
  unfolding apply_share_labels
  apply_share_labels-enabled ls s on = rw on refl

  label-name :
      (ls : Dict Text) (s : ShareConfig)
      → is_enabled s ≡ true
      → label (text "kubemin-share-name") (apply_share_labels ls s) ≡ s.name
  unfolding text_eq
  label-name ls s on =
      ap (label (text "kubemin-share-name")) (apply_share_labels-enabled ls s on)
      ∙ label-insert (text "kubemin-share-name") (text "kubemin-share-strategy")
          (strategy_text s.strategy) (insert (text "kubemin-share-name") s.name ls)
      ∙ label-insert (text "kubemin-share-name") (text "kubemin-share-name") s.name ls

  label-strategy :
      (ls : Dict Text) (s : ShareConfig)
      → is_enabled s ≡ true
      → label (text "kubemin-share-strategy") (apply_share_labels ls s) ≡ strategy_text s.strategy
  unfolding text_eq
  label-strategy ls s on =
      ap (label (text "kubemin-share-strategy")) (apply_share_labels-enabled ls s on)
      ∙ label-insert (text "kubemin-share-strategy") (text "kubemin-share-strategy")
          (strategy_text s.strategy) (insert (text "kubemin-share-name") s.name ls)

  -- Where sharing is enabled with a name that is not empty and has no spaces around it, and the
  -- letters, digits and dashes of ASCII are no spaces, a job reads from the labels that the builder
  -- adds the name and the strategy that the builder chose, whatever labels there were.
  pub share_info-apply_share_labels :
      (ls : Dict Text) (s : ShareConfig)
      → is_enabled s ≡ true
      → is_nil s.name ≡ false
      → trim_space u s.name ≡ s.name
      → share_info_from_labels u (apply_share_labels ls s) ≡ (s.name, s.strategy)
  unfolding share_info_from_labels
  share_info-apply_share_labels ls s on named trimmed =
      rw
        (
          label-name ls s on,
          label-strategy ls s on,
          trimmed,
          named,
          normalize-strategy_text s.strategy (enabled-text s on),
        )
        refl
