-- ===== src/Validation/Errors.antt =====
-- pkg/apiserver/interfaces/api/dto/v1/validation.go: the errors that a validation reports, in
-- order. The message of an error is left out.
use kube_min_cli.Base.{ℕ, suc, Bool, true, false, List, [], ◌∷◌, ◌++◌, Text, String, text}

-- `ErrCode…`, those in use.
pub data ErrCode : Type 0 where
  name_too_short name_too_long invalid_name_format invalid_component_type missing_image
        duplicate_component invalid_trait_config missing_required_field invalid_storage_type
        invalid_storage_size invalid_probe_type invalid_probe_config nested_trait_forbidden
        missing_rbac_rules missing_rbac_verbs missing_ingress_routes missing_service_name
        invalid_env_from_type invalid_env_value_source component_not_found invalid_workflow_mode
        duplicate_workflow_step workflow_step_no_component :
      ErrCode

-- The parts of a field's path: `component[0].name` is `named`, `at`, `named`.
pub data Segment : Type 0 where
  named : Text → Segment
  at : ℕ → Segment

abbrev pub Field : Type 0
Field = List Segment

infixl 60 ◌▹◌
abbrev pub ◌▹◌ : Field → String → Field
p ▹ s = p ++ (named (text s) ∷ [])

pub record ValidationError : Type 0 where
  pub field : Field
  pub code : ErrCode

abbrev pub ErrorList : Type 0
ErrorList = List ValidationError

-- The one error of a test that fails.
unfoldable pub report : Bool → Field → ErrCode → ErrorList
report true p c = record { field = p; code = c } ∷ []
report false p c = []

-- The loop of a validator over a list, the index in the path.
unfoldable pub each {ℓ} : {A : Type ℓ} → (A → Field → ErrorList) → ℕ → Field → List A → ErrorList
each f i p [] = []
each f i p (x ∷ xs) = f x (p ++ (at i ∷ [])) ++ each f (suc i) p xs
