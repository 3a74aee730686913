-- ===== src/Builder/Share.antt =====
-- The share trait of a component: which strategy, which name, and the labels and the skipping of
-- jobs that follow from it.
use kube_min_cli.Base.{
  Bool, true, false, Option, some, none, [], ◌++◌, Text, text, text_eq, Dict, insert, is_nil,
  if◌then◌else◌,
}
use kube_min_cli.Config.{
  ComponentKind, server_job, store_job, conf_job, secret_job, other_kind, ShareStrategy,
  no_strategy, share_default, share_ignore, share_force, skipped,
}
use kube_min_cli.Model.{JobTask, JobPayload, no_payload, labelled, unlabelled}
use kube_min_cli.Naming.{Unicode, to_lower, to_rfc1123_name, trim_space, truncate}

-- A component as the builder reads it. `share` is the strategy of the share trait, `none` where the
-- traits are absent, do not decode, or have no share trait.
pub record Component (Properties : Type 0) : Type 0 where
  pub app_id : Text
  pub name : Text
  pub namespace : Text
  pub kind : ComponentKind
  -- The decoded properties, zero values where they do not decode.
  pub properties : Properties
  pub share : Option Text

pub record ShareConfig : Type 0 where
  pub strategy : ShareStrategy
  pub name : Text

-- `NormalizeShareStrategy`
unfoldable pub normalize_share_strategy : Unicode → Text → ShareStrategy × Bool
normalize_share_strategy u strategy =
    let normalized = to_lower u (trim_space u strategy) in
    if is_nil normalized
    then (share_default, true)
    else if text_eq normalized (text "default")
    then (share_default, true)
    else if text_eq normalized (text "ignore")
    then (share_ignore, true)
    else if text_eq normalized (text "force")
    then (share_force, true)
    else (share_default, false)

unfoldable pub is_enabled : ShareConfig → Bool
is_enabled s = elim s.strategy [ no_strategy ↦ false | _ ↦ true ]

unfoldable pub is_ignore : ShareConfig → Bool
is_ignore s = elim s.strategy [ share_ignore ↦ true | _ ↦ false ]

abbrev kind_text : ComponentKind → Text
kind_text server_job = text "webservice"
kind_text store_job = text "store"
kind_text conf_job = text "config"
kind_text secret_job = text "secret"
kind_text (other_kind t) = t

abbrev or_else : Text → Text → Text
or_else s fallback = if is_nil s then fallback else s

unfoldable pub strategy_text : ShareStrategy → Text
strategy_text no_strategy = []
strategy_text share_default = text "default"
strategy_text share_ignore = text "ignore"
strategy_text share_force = text "force"

module _ {P : Type 0} (u : Unicode) where
  -- The half of `shareNameForComponent` for a component whose namespace gives no name.
  name_of_component : Component P → Text
  name_of_component c =
      let base = or_else c.name (text "shared") in
      let kind = kind_text c.kind in
      let full = if is_nil kind then base else base ++ text "-" ++ kind in
      or_else (truncate (to_rfc1123_name u full)) (text "shared")

  unfoldable pub share_name_for_component : Component P → Text
  unfolding name_of_component
  share_name_for_component c =
      let base = trim_space u c.namespace in
      let own = name_of_component c in
      if is_nil base
      then own
      else (let name = truncate (to_rfc1123_name u base) in if is_nil name then own else name)

  unfoldable pub share_config_for_component : Component P → ShareConfig
  unfolding share_name_for_component normalize_share_strategy
  share_config_for_component c = elim c.share [
    | none ↦ record { strategy = no_strategy; name = [] }
    | some s ↦ record {
      strategy = (normalize_share_strategy u s).0;
      name = share_name_for_component c;
    }
  ]

unfoldable pub apply_share_labels : Dict Text → ShareConfig → Dict Text
unfolding strategy_text is_enabled
apply_share_labels labels s =
    if is_enabled s
    then insert (text "kubemin-share-strategy") (strategy_text s.strategy)
        (insert (text "kubemin-share-name") s.name labels)
    else labels

unfoldable pub apply_share_labels_to_job_info : JobPayload → ShareConfig → JobPayload
unfolding apply_share_labels
apply_share_labels_to_job_info no_payload s = no_payload
apply_share_labels_to_job_info (labelled labels) s = labelled (apply_share_labels labels s)
apply_share_labels_to_job_info unlabelled s = unlabelled

unfoldable pub mark_job_skipped_if_ignored : ShareConfig → JobTask → JobTask
mark_job_skipped_if_ignored s j =
    if is_ignore s then record j { status = skipped; error = [] } else j
