-- ===== src/Application/Components.antt =====
-- pkg/apiserver/domain/model/applications.go, and the components of a request in
-- pkg/apiserver/domain/service/application.go. A column that holds JSON is held decoded, none for a
-- nil pointer.
use kube_min_cli.Base.{
  ℕ, Bool, false, ◌&&◌, ◌||◌, List, [], ◌∷◌, Option, none, some, Text, text, Dict, insert, is_nil,
  text_eq, leb, ◌==◌, ◌^◌, if◌then◌else◌,
}
use kube_min_cli.Spec.{Properties, Traits, CreateComponentRequest, CreateApplicationsRequest}

pub record Applications : Type 0 where
  pub id : Text
  pub name : Text
  pub namespace : Text
  pub version : Text
  pub alias : Text
  pub project : Text
  pub description : Text
  pub icon : Text
  pub tmp_enable : Bool

pub record ApplicationComponent : Type 0 where
  pub name : Text
  pub app_id : Text
  pub namespace : Text
  pub image : Text
  -- The 32-bit pattern of the int32.
  pub replicas : ℕ
  pub component_type : Text
  pub properties : Option Properties
  pub component_traits : Option Traits

abbrev pub or_default : Text → Text → Text
or_default t d = if is_nil t then d else t

-- `refreshExistingApplication` behind the lookup: the namespace and the mark stay if the request
-- leaves them out.
unfoldable pub refresh_existing_application :
    CreateApplicationsRequest → Applications → Applications
refresh_existing_application req app = record {
  id = app.id;
  name = req.name;
  namespace = or_default req.namespace app.namespace;
  version = req.version;
  alias = req.alias;
  project = req.project;
  description = req.description;
  icon = req.icon;
  tmp_enable = elim req.tmp_enable [ none ↦ app.tmp_enable | some b ↦ b ];
}

-- The application of a request without an identifier; `fresh` is the random one.
unfoldable pub new_application : Text → CreateApplicationsRequest → Applications
new_application fresh req = record {
  id = fresh;
  name = req.name;
  namespace = req.namespace;
  version = req.version;
  alias = req.alias;
  project = req.project;
  description = req.description;
  icon = req.icon;
  tmp_enable = elim req.tmp_enable [ none ↦ false | some b ↦ b ];
}

-- `x <= 0` on the 32-bit pattern of an int32.
abbrev pub not_positive : ℕ → Bool
not_positive r = (r == 0) || leb (2 ^ 31) r

abbrev pub image_missing : CreateComponentRequest → Bool
image_missing c =
    (text_eq c.component_type (text "webservice") || text_eq c.component_type (text "store"))
    && is_nil c.image

abbrev pub prepare_component : Text → Text → CreateComponentRequest → ApplicationComponent
prepare_component app_id namespace c = record {
  name = c.name;
  app_id = app_id;
  namespace = namespace;
  image = c.image;
  replicas = if not_positive c.replicas then 1 else c.replicas;
  component_type = c.component_type;
  properties = some c.properties;
  component_traits = some c.component_traits;
}

-- None is `ErrComponentNotImageSet`.
unfoldable pub prepare_components :
    Text → Text → List CreateComponentRequest → Option (List ApplicationComponent)
prepare_components app_id namespace [] = some []
prepare_components app_id namespace (c ∷ cs) =
    let rest = prepare_components app_id namespace cs in
    if image_missing c
    then none
    else elim rest [ none ↦ none | some ds ↦ some (prepare_component app_id namespace c ∷ ds) ]

-- The entries of a map put into another one.
unfoldable pub merge_env : Dict Text → Dict Text → Dict Text
merge_env env [] = env
merge_env env ((k, v) ∷ updates) = merge_env (insert k v env) updates

-- `applyPropertyOverrides`: the environment always, the secret for a component of that type.
unfoldable pub apply_property_overrides : Properties → Properties → Text → Properties
unfolding merge_env
apply_property_overrides props override component_type = record {
  image = props.image;
  env = merge_env props.env override.env;
  secret =
      if text_eq component_type (text "secret")
      then merge_env props.secret override.secret
      else props.secret;
}
