-- ===== src/Config.antt =====
-- pkg/apiserver/config/consts.go, share.go and resources.go: the string enumerations of the
-- program. A string type whose values come from the constants alone is a data type here; a parser
-- of outside text takes the text.
use kube_min_cli.Base.{ℕ, Bool, true, false, Text, text, text_eq, if◌then◌else◌}

-- `Status`; `unset` is the empty string.
pub data Status : Type 0 where
  unset completed disabled created running passed skipped failed timeout cancelled pause waiting
        queued blocked pending changed not_run prepare reject distributed waiting_approve
        debug_before debug_after unstable manual_approval :
      Status

unfoldable pub Status-discrete : Discrete Status
Status-discrete = hlevel

-- `WorkflowMode`; `unset_mode` is the empty string.
pub data WorkflowMode : Type 0 where
  unset_mode step_by_step dag : WorkflowMode

unfoldable pub is_parallel : WorkflowMode → Bool
is_parallel dag = true
is_parallel step_by_step = false
is_parallel unset_mode = false

unfoldable pub parse_workflow_mode : Text → WorkflowMode
parse_workflow_mode mode =
    if text_eq mode (text "DAG")
    then dag
    else if text_eq mode (text "StepByStep")
    then step_by_step
    else step_by_step

-- The types of a component; `other_kind` is a text that the builder has no case for.
pub data ComponentKind : Type 0 where
  server_job store_job conf_job secret_job : ComponentKind
  other_kind : Text → ComponentKind

-- The types of a job; `untyped` is the empty string.
pub data JobType : Type 0 where
  untyped deploy deploy_service deploy_store deploy_pvc deploy_config_map deploy_secret
        deploy_ingress deploy_service_account deploy_role deploy_role_binding deploy_cluster_role
        deploy_cluster_role_binding :
      JobType

pub data ShareStrategy : Type 0 where
  no_strategy share_default share_ignore share_force : ShareStrategy

-- Seconds.
abbrev pub deploy_timeout : ℕ
deploy_timeout = 1200

-- `20 * time.Minute`, a number of nanoseconds.
abbrev pub default_job_task_timeout : ℕ
default_job_task_timeout = 1200000000000

abbrev pub priority_max_high : ℕ
priority_max_high = 0

abbrev pub priority_high : ℕ
priority_high = 1

abbrev pub priority_normal : ℕ
priority_normal = 10

abbrev pub priority_low : ℕ
priority_low = 20

pub data UpdateStrategy : Type 0 where
  rolling recreate canary blue_green : UpdateStrategy

unfoldable pub parse_update_strategy : Text → UpdateStrategy
parse_update_strategy s =
    if text_eq s (text "recreate")
    then recreate
    else if text_eq s (text "canary")
    then canary
    else if text_eq s (text "blue-green")
    then blue_green
    else if text_eq s (text "rolling")
    then rolling
    else rolling

pub data ComponentAction : Type 0 where
  update add remove : ComponentAction

unfoldable pub parse_component_action : Text → ComponentAction
parse_component_action s =
    if text_eq s (text "add")
    then add
    else if text_eq s (text "remove")
    then remove
    else if text_eq s (text "update")
    then update
    else update

-- `ResourceKind`; `any_resource` is the empty string.
pub data ResourceKind : Type 0 where
  any_resource deployment stateful_set service pvc config_map secret ingress service_account role
        role_binding cluster_role cluster_role_binding :
      ResourceKind

unfoldable pub ResourceKind-discrete : Discrete ResourceKind
ResourceKind-discrete = hlevel
