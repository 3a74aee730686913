-- ===== src/Tracker/Tests.antt =====
-- A deployment that is observed and then marked as created.
use kube_min_cli.Base.{◌≡◌, refl, true, false, some, List, [], ◌∷◌, text, text_eq}
use kube_min_cli.Config.{ResourceKind, ResourceKind-discrete, any_resource, deployment, service}
use kube_min_cli.Tracker.{
  ResourceRef, add, add_all, same_resource, same_kind, resources_for_cleanup, list_kind,
}
use kube_min_cli.Tracker.Record.{find}

abbrev created : ResourceKind → ResourceRef
created k = record { kind = k; namespace = text "default"; name = text "web"; created = true }

abbrev observed : ResourceKind → ResourceRef
observed k = record (created k) { created = false }

abbrev history : List ResourceRef
history = observed deployment ∷ created service ∷ created deployment ∷ []

-- The deployment counts as observed.
kept : find (created deployment) (add_all history []) ≡ some (observed deployment)
unfolding add_all add same_resource same_kind text_eq ResourceKind-discrete
kept = refl

listed :
    resources_for_cleanup any_resource (some (add_all history []))
    ≡ observed deployment ∷ created service ∷ []
unfolding resources_for_cleanup list_kind add_all add same_resource same_kind text_eq
    ResourceKind-discrete
listed = refl
