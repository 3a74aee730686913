-- ===== src/Validation/Rules.antt =====
-- The rules for traits without their errors: what an accepted trait looks like.
use kube_min_cli.Base.{
  ℕ, ◌≡◌, refl, Bool, true, false, not, ◌&&◌, ◌||◌, [], ◌∷◌, Option, none, some, Text, text,
  text_eq, is_nil, all, arith,
}
use kube_min_cli.Regexp.{matches}
use kube_min_cli.Spec.{
  StorageTraitSpec, ProbeTraitsSpec, RbacRuleSpec, RbacPolicySpec, IngressTraitsSpec,
  EnvFromSourceSpec, SelectorSpec, SimplifiedEnvSpec, ResourceTraitsSpec, PlainTraits, Traits,
  traits, Inits, no_inits, init, Sidecars, no_sidecars, sidecar,
}
use kube_min_cli.Validation.Errors.{◌▹◌, report}
use kube_min_cli.Validation.Accept.{IsTest, each-IsTest}
use kube_min_cli.Validation.Names.{storage_quantity_regexp, is_valid_quantity}
use kube_min_cli.Validation.Traits.{
  is_some, is_positive, is_storage_type, is_probe_type, is_env_from_type, has_command,
  validate_storage_trait, validate_probe_trait, validate_rule, validate_rbac_trait, validate_route,
  validate_ingress_trait, validate_env_from_trait, validate_envs_trait, validate_resources_trait,
  validate_resources,
}

-- A type that is known is not empty.
is_storage_type_given : (t : Text) → is_nil t ≡ true → is_storage_type t ≡ false
unfolding text_eq
is_storage_type_given [] h = refl
is_storage_type_given (c ∷ cs) h = cc

is_probe_type_given : (t : Text) → is_nil t ≡ true → is_probe_type t ≡ false
unfolding text_eq
is_probe_type_given [] h = refl
is_probe_type_given (c ∷ cs) h = cc

is_env_from_type_given : (t : Text) → is_nil t ≡ true → is_env_from_type t ≡ false
unfolding text_eq
is_env_from_type_given [] h = refl
is_env_from_type_given (c ∷ cs) h = cc

abbrev pub storage_ok : StorageTraitSpec → Bool
storage_ok s =
    is_storage_type s.storage_type
    && not (is_nil s.mount_path)
    && (not (text_eq s.storage_type (text "persistent"))
        || not s.tmp_create
        || is_nil s.size
        || matches storage_quantity_regexp s.size)
    && (not (text_eq s.storage_type (text "config") || text_eq s.storage_type (text "secret"))
        || not (is_nil s.source_name)
        || not (is_nil s.name))

pub validate_storage_trait-IsTest : IsTest validate_storage_trait storage_ok
unfolding validate_storage_trait report
validate_storage_trait-IsTest s field = ground (arith, is_storage_type_given s.storage_type)

abbrev pub port_ok : Option ℕ → Bool
port_ok none = true
port_ok (some p) = is_positive p

-- Just one of three, and of four.
abbrev pub one_of_three : Bool → Bool → Bool → Bool
one_of_three a b c = (a && not b && not c) || (not a && b && not c) || (not a && not b && c)

abbrev pub one_of_four : Bool → Bool → Bool → Bool → Bool
one_of_four a b c d = (a && not b && not c && not d) || (not a && one_of_three b c d)

abbrev pub probe_ok : ProbeTraitsSpec → Bool
probe_ok p =
    is_probe_type p.probe_type
    && one_of_three (has_command p.exec) (is_some p.http_get) (is_some p.tcp_socket)
    && port_ok p.http_get
    && port_ok p.tcp_socket

-- A probe is accepted just when its type is known, it has just one method (a command that is not
-- empty, a request or a socket), and its port is positive.
pub validate_probe_trait-IsTest : IsTest validate_probe_trait probe_ok
unfolding validate_probe_trait report
validate_probe_trait-IsTest p field = ground (arith, is_probe_type_given p.probe_type)

abbrev pub selector_ok : Option SelectorSpec → Bool
selector_ok none = true
selector_ok (some s) = not (is_nil s.name) && not (is_nil s.key)

abbrev pub env_ok : SimplifiedEnvSpec → Bool
env_ok e =
    let v = e.value_from in
    not (is_nil e.name)
    && one_of_four (is_some v.static) (is_some v.secret) (is_some v.config) (is_some v.field_path)
    && selector_ok v.secret
    && selector_ok v.config

-- An environment variable is accepted just when it has a name and just one source, and a reference
-- to a secret or to a configuration has a name and a key.
pub validate_envs_trait-IsTest : IsTest validate_envs_trait env_ok
unfolding validate_envs_trait report
validate_envs_trait-IsTest e field = ground arith

abbrev pub env_from_ok : EnvFromSourceSpec → Bool
env_from_ok e = is_env_from_type e.source_type && not (is_nil e.source_name)

pub validate_env_from_trait-IsTest : IsTest validate_env_from_trait env_from_ok
unfolding validate_env_from_trait report
validate_env_from_trait-IsTest e field = ground (arith, is_env_from_type_given e.source_type)

abbrev pub rbac_ok : RbacPolicySpec → Bool
rbac_ok r = not (is_nil r.rules) && all (λ (x : RbacRuleSpec). not (is_nil x.verbs)) r.rules

pub validate_rbac_trait-IsTest : IsTest validate_rbac_trait rbac_ok
unfolding validate_rbac_trait report
validate_rbac_trait-IsTest r field = ground (
  arith,
  each-IsTest validate_rule (λ (x : RbacRuleSpec). not (is_nil x.verbs)) (λ x p. ground arith) 0
      (field ▹ "rules") r.rules,
)

abbrev pub ingress_ok : IngressTraitsSpec → Bool
ingress_ok g = not (is_nil g.routes) && all (λ s. not (is_nil s)) g.routes

pub validate_ingress_trait-IsTest : IsTest validate_ingress_trait ingress_ok
unfolding validate_ingress_trait report
validate_ingress_trait-IsTest g field = ground (
  arith,
  each-IsTest validate_route (λ x. not (is_nil x)) (λ x p. ground arith) 0 (field ▹ "routes")
      g.routes,
)

abbrev pub resources_ok : Option ResourceTraitsSpec → Bool
resources_ok none = true
resources_ok (some r) =
    (is_nil r.cpu || is_valid_quantity r.cpu) && (is_nil r.memory || is_valid_quantity r.memory)

pub validate_resources-IsTest : IsTest validate_resources resources_ok
unfolding validate_resources_trait report
validate_resources-IsTest none field = refl
validate_resources-IsTest (some r) field = ground arith

abbrev pub plain_ok : PlainTraits → Bool
plain_ok t =
    all storage_ok t.storage
    && all probe_ok t.probes
    && all rbac_ok t.rbac
    && all ingress_ok t.ingress
    && all env_from_ok t.env_from
    && all env_ok t.envs
    && resources_ok t.resources

-- The traits of a container beside the main one: no further container hangs on it.
abbrev pub nested_ok : Traits → Bool
nested_ok (traits t no_inits no_sidecars) = plain_ok t
nested_ok (traits t no_inits (sidecar n i x rest)) = false
nested_ok (traits t (init n p x rest) ys) = false

abbrev pub inits_ok : Inits → Bool
inits_ok no_inits = true
inits_ok (init name p t rest) = not (is_nil p.image) && nested_ok t && inits_ok rest

abbrev pub sidecars_ok : Sidecars → Bool
sidecars_ok no_sidecars = true
sidecars_ok (sidecar name image t rest) = not (is_nil image) && nested_ok t && sidecars_ok rest

abbrev pub traits_ok : Traits → Bool
traits_ok (traits t xs ys) = plain_ok t && inits_ok xs && sidecars_ok ys
