-- ===== src/Spec.antt =====
-- pkg/apiserver/domain/spec/traits.go and the requests of
-- pkg/apiserver/interfaces/api/dto/v1/types.go that carry it: what a client asks of an application.
-- A pointer that may be nil is an Option. A port is the 64-bit pattern of its int. Left out are
-- fields that no modelled code reads: the numbers of a probe, hosts and TLS of an ingress, labels
-- and annotations, the command and the environment of a sidecar.
use kube_min_cli.Base.{ℕ, Bool, List, Option, Text, Dict}
use kube_min_cli.Config.{JobType}

pub record Properties : Type 0 where
  pub image : Text
  pub env : Dict Text
  pub secret : Dict Text

pub record StorageTraitSpec : Type 0 where
  pub name : Text
  pub storage_type : Text
  pub mount_path : Text
  pub sub_path : Text
  pub read_only : Bool
  pub source_name : Text
  pub tmp_create : Bool
  pub size : Text
  pub claim_name : Text
  pub storage_class : Text

pub record EnvFromSourceSpec : Type 0 where
  pub source_type : Text
  pub source_name : Text

-- `SecretSelectorSpec` and `ConfigMapSelectorSpec`
pub record SelectorSpec : Type 0 where
  pub name : Text
  pub key : Text

pub record ValueSource : Type 0 where
  pub static : Option Text
  pub secret : Option SelectorSpec
  pub config : Option SelectorSpec
  pub field_path : Option Text

pub record SimplifiedEnvSpec : Type 0 where
  pub name : Text
  pub value_from : ValueSource

-- `exec` holds the command, `http_get` and `tcp_socket` hold the port.
pub record ProbeTraitsSpec : Type 0 where
  pub probe_type : Text
  pub exec : Option (List Text)
  pub http_get : Option ℕ
  pub tcp_socket : Option ℕ

pub record ResourceTraitsSpec : Type 0 where
  pub cpu : Text
  pub memory : Text
  pub gpu : Text

-- A route holds the service name of its backend.
pub record IngressTraitsSpec : Type 0 where
  pub name : Text
  pub namespace : Text
  pub routes : List Text

pub record RbacRuleSpec : Type 0 where
  pub api_groups : List Text
  pub resources : List Text
  pub verbs : List Text

pub record RbacPolicySpec : Type 0 where
  pub service_account : Text
  pub namespace : Text
  pub rules : List RbacRuleSpec

pub record ShareTraitSpec : Type 0 where
  pub strategy : Text

-- The traits that hold no further traits.
pub record PlainTraits : Type 0 where
  pub storage : List StorageTraitSpec
  pub ingress : List IngressTraitsSpec
  pub rbac : List RbacPolicySpec
  pub env_from : List EnvFromSourceSpec
  pub envs : List SimplifiedEnvSpec
  pub probes : List ProbeTraitsSpec
  pub resources : Option ResourceTraitsSpec
  pub share : Option ShareTraitSpec

-- `Traits`, and the lists of `InitTraitSpec` (name, properties, traits) and `SidecarTraitsSpec`
-- (name, image, traits) in it.
mutual
  pub data Traits : Type 0 where
    traits : PlainTraits → Inits → Sidecars → Traits

  pub data Inits : Type 0 where
    no_inits : Inits
    init : Text → Properties → Traits → Inits → Inits

  pub data Sidecars : Type 0 where
    no_sidecars : Sidecars
    sidecar : Text → Text → Traits → Sidecars → Sidecars

pub record TemplateRef : Type 0 where
  pub id : Text
  pub target : Text

pub record CreateComponentRequest : Type 0 where
  pub name : Text
  -- The text of the type.
  pub component_type : Text
  pub image : Text
  pub namespace : Text
  -- The 32-bit pattern of the int32.
  pub replicas : ℕ
  pub properties : Properties
  pub component_traits : Traits
  pub template : Option TemplateRef

-- `policies` is the list in `properties`.
pub record CreateWorkflowSubStepRequest : Type 0 where
  pub name : Text
  pub workflow_type : JobType
  pub policies : List Text
  pub components : List Text

pub record CreateWorkflowStepRequest : Type 0 where
  pub name : Text
  pub workflow_type : JobType
  pub policies : List Text
  pub components : List Text
  pub mode : Text
  pub sub_steps : List CreateWorkflowSubStepRequest

pub record CreateApplicationsRequest : Type 0 where
  pub id : Text
  pub name : Text
  pub namespace : Text
  pub alias : Text
  pub version : Text
  pub project : Text
  pub description : Text
  pub icon : Text
  pub component : List CreateComponentRequest
  pub workflow_steps : List CreateWorkflowStepRequest
  pub tmp_enable : Option Bool

pub record TryWorkflowRequest : Type 0 where
  pub name : Text
  pub workflow : List CreateWorkflowStepRequest
