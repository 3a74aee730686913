-- ===== src/Validation/Tests.antt =====
-- The validation at concrete requests.
use kube_min_cli.Base.{
  ◌≡◌, refl, true, false, ◌&&◌, [], ◌∷◌, none, some, text, is_nil, all, distinct, ◌==◌, byte_length,
  text_eq,
}
use kube_min_cli.Config.{deploy}
use kube_min_cli.Naming.{Unicode, to_lower}
use kube_min_cli.Naming.Label.{IsDnsLabel}
use kube_min_cli.Regexp.{matches}
use kube_min_cli.Spec.{
  Properties, PlainTraits, Traits, traits, no_inits, init, no_sidecars, CreateComponentRequest,
  CreateWorkflowStepRequest, CreateApplicationsRequest, ProbeTraitsSpec,
}
use kube_min_cli.Application.References.{
  merge_workflow_components, validate_workflow_component_refs,
}
use kube_min_cli.Validation.{try_application}
use kube_min_cli.Validation.Accepted.{try_application-accepts, try_application-resolves}
use kube_min_cli.Validation.Errors.{named, report, each}
use kube_min_cli.Validation.Label.{name_ok, validate_name-IsDnsLabel}
use kube_min_cli.Validation.Names.{validate_name}
use kube_min_cli.Validation.Nesting.{validate_traits-IsTest}
use kube_min_cli.Validation.Requests.{component_ok, lower_names}
use kube_min_cli.Validation.Rules.{traits_ok}
use kube_min_cli.Validation.Steps.{step_ok, step_names}
use kube_min_cli.Validation.Traits.{validate_probe_trait, validate_traits}

abbrev plain : Unicode
plain = record { lower = λ c. c; is_space = λ c. c == 32 }

abbrev image_only : Properties
image_only = record { image = text "busybox"; env = []; secret = [] }

abbrev http_probe : ProbeTraitsSpec
http_probe = record {
  probe_type = text "liveness";
  exec = none;
  http_get = some 80;
  tcp_socket = none;
}

abbrev probed : PlainTraits
probed = record {
  storage = [];
  ingress = [];
  rbac = [];
  env_from = [];
  envs = [];
  probes = http_probe ∷ [];
  resources = none;
  share = none;
}

abbrev nested_once : Traits
nested_once =
    traits probed (init (text "setup") image_only (traits probed no_inits no_sidecars) no_inits)
      no_sidecars

abbrev nested_twice : Traits
nested_twice = traits probed (init (text "setup") image_only nested_once no_inits) no_sidecars

abbrev web : CreateComponentRequest
web = record {
  name = text "Web";
  component_type = text "webservice";
  image = text "nginx";
  namespace = [];
  replicas = 1;
  properties = image_only;
  component_traits = nested_once;
  template = none;
}

abbrev deploy_web : CreateWorkflowStepRequest
deploy_web = record {
  name = [];
  workflow_type = deploy;
  policies = [];
  components = text "web" ∷ [];
  mode = text "DAG";
  sub_steps = [];
}

abbrev shop : CreateApplicationsRequest
shop = record {
  id = [];
  name = text "Shop-1";
  namespace = [];
  alias = [];
  version = [];
  project = [];
  description = [];
  icon = [];
  component = web ∷ [];
  workflow_steps = deploy_web ∷ [];
  tmp_enable = none;
}

try_application-accepts_example : (try_application plain shop).valid ≡ (
    name_ok plain (text "Shop-1")
    && all (component_ok plain) (web ∷ [])
    && distinct (lower_names plain (web ∷ []))
    && all (step_ok plain (lower_names plain (web ∷ []))) (deploy_web ∷ [])
    && distinct (step_names plain (deploy_web ∷ [])))
try_application-accepts_example = try_application-accepts plain shop

shop_valid : (try_application plain shop).valid ≡ true
unfolding try_application validate_name report byte_length matches to_lower text_eq validate_traits
    each validate_probe_trait merge_workflow_components
shop_valid = refl

try_application-resolves_example :
    validate_workflow_component_refs plain (deploy_web ∷ []) (lower_names plain (web ∷ [])) ≡ true
try_application-resolves_example = try_application-resolves plain shop shop_valid

name_valid : is_nil (validate_name plain (text "Shop-1") (named (text "name") ∷ [])) ≡ true
unfolding validate_name report byte_length matches to_lower
name_valid = refl

validate_name-IsDnsLabel_example : IsDnsLabel (to_lower plain (text "Shop-1"))
validate_name-IsDnsLabel_example =
    validate_name-IsDnsLabel plain (text "Shop-1") (named (text "name") ∷ []) name_valid

validate_traits-IsTest_example :
    is_nil (validate_traits false nested_once (named (text "traits") ∷ [])) ≡ traits_ok nested_once
validate_traits-IsTest_example = validate_traits-IsTest nested_once (named (text "traits") ∷ [])

nested_twice_refused : traits_ok nested_twice ≡ false
unfolding text_eq
nested_twice_refused = refl
