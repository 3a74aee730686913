-- ===== src/Validation/Traits.antt =====
-- pkg/apiserver/domain/service/validation.go: the validators of traits, one for each kind.
use kube_min_cli.Base.{
  ℕ, suc, ◌+◌, ◌^◌, Bool, true, false, not, ◌&&◌, ◌||◌, List, [], ◌∷◌, ◌++◌, Option, none, some,
  Text, text, text_eq, is_nil, ltb, ◌==◌, if◌then◌else◌,
}
use kube_min_cli.Regexp.{matches}
use kube_min_cli.Spec.{
  StorageTraitSpec, ProbeTraitsSpec, RbacRuleSpec, RbacPolicySpec, IngressTraitsSpec,
  EnvFromSourceSpec, ValueSource, SelectorSpec, SimplifiedEnvSpec, ResourceTraitsSpec, Traits,
  traits, Inits, no_inits, init, Sidecars, no_sidecars, sidecar,
}
use kube_min_cli.Validation.Errors.{
  ErrCode, invalid_trait_config, missing_image, missing_required_field, invalid_storage_type,
  invalid_storage_size, invalid_probe_type, invalid_probe_config, nested_trait_forbidden,
  missing_rbac_rules, missing_rbac_verbs, missing_ingress_routes, missing_service_name,
  invalid_env_from_type, invalid_env_value_source, at, Field, ◌▹◌, ErrorList, report, each,
}
use kube_min_cli.Validation.Names.{storage_quantity_regexp, is_valid_quantity}

abbrev pub is_some {ℓ} : {A : Type ℓ} → Option A → Bool
is_some none = false
is_some (some x) = true

-- One for a test that holds: the `++` on a counter.
abbrev pub tick : Bool → ℕ
tick true = 1
tick false = 0

-- `p > 0` on the 64-bit pattern of an int.
abbrev pub is_positive : ℕ → Bool
is_positive p = ltb 0 p && ltb p (2 ^ 63)

-- `validStorageTypes`, `validProbeTypes` and `validEnvFromTypes`
abbrev pub is_storage_type : Text → Bool
is_storage_type t =
    text_eq t (text "persistent")
    || text_eq t (text "ephemeral")
    || text_eq t (text "config")
    || text_eq t (text "secret")

abbrev pub is_probe_type : Text → Bool
is_probe_type t =
    text_eq t (text "liveness") || text_eq t (text "readiness") || text_eq t (text "startup")

abbrev pub is_env_from_type : Text → Bool
is_env_from_type t = text_eq t (text "secret") || text_eq t (text "configMap")

unfoldable pub validate_storage_trait : StorageTraitSpec → Field → ErrorList
validate_storage_trait s field =
    (if is_nil s.storage_type
      then report true (field ▹ "type") missing_required_field
      else report (not (is_storage_type s.storage_type)) (field ▹ "type") invalid_storage_type)
    ++ report (is_nil s.mount_path) (field ▹ "mount_path") missing_required_field
    ++ report
        (text_eq s.storage_type (text "persistent")
          && s.tmp_create
          && not (is_nil s.size)
          && not (matches storage_quantity_regexp s.size))
        (field ▹ "size") invalid_storage_size
    ++ report
        ((text_eq s.storage_type (text "config") || text_eq s.storage_type (text "secret"))
          && is_nil s.source_name
          && is_nil s.name)
        (field ▹ "source_name") missing_required_field

-- `probeMethodCount`; an exec probe with no command does not count.
abbrev pub has_command : Option (List Text) → Bool
has_command none = false
has_command (some cs) = not (is_nil cs)

unfoldable pub probe_method_count : ProbeTraitsSpec → ℕ
probe_method_count p =
    tick (has_command p.exec) + tick (is_some p.http_get) + tick (is_some p.tcp_socket)

-- The error of a count that is zero, or more than one.
abbrev pub report_count : ℕ → Field → ErrCode → ErrorList
report_count n field c = if n == 0 then report true field c else report (ltb 1 n) field c

abbrev pub validate_port : Option ℕ → Field → ErrorList
validate_port none field = []
validate_port (some p) field = report (not (is_positive p)) field missing_required_field

unfoldable pub validate_probe_trait : ProbeTraitsSpec → Field → ErrorList
unfolding probe_method_count
validate_probe_trait p field =
    (if is_nil p.probe_type
      then report true (field ▹ "type") missing_required_field
      else report (not (is_probe_type p.probe_type)) (field ▹ "type") invalid_probe_type)
    ++ report_count (probe_method_count p) field invalid_probe_config
    ++ validate_port p.http_get (field ▹ "http_get" ▹ "port")
    ++ validate_port p.tcp_socket (field ▹ "tcp_socket" ▹ "port")

-- The loop over the rules, and over the routes.
abbrev pub validate_rule : RbacRuleSpec → Field → ErrorList
validate_rule r field = report (is_nil r.verbs) (field ▹ "verbs") missing_rbac_verbs

unfoldable pub validate_rbac_trait : RbacPolicySpec → Field → ErrorList
validate_rbac_trait r field =
    if is_nil r.rules
    then report true (field ▹ "rules") missing_rbac_rules
    else each validate_rule 0 (field ▹ "rules") r.rules

abbrev pub validate_route : Text → Field → ErrorList
validate_route service field =
    report (is_nil service) (field ▹ "backend" ▹ "service_name") missing_service_name

unfoldable pub validate_ingress_trait : IngressTraitsSpec → Field → ErrorList
validate_ingress_trait g field =
    if is_nil g.routes
    then report true (field ▹ "routes") missing_ingress_routes
    else each validate_route 0 (field ▹ "routes") g.routes

unfoldable pub validate_env_from_trait : EnvFromSourceSpec → Field → ErrorList
validate_env_from_trait e field =
    (if is_nil e.source_type
      then report true (field ▹ "type") missing_required_field
      else report (not (is_env_from_type e.source_type)) (field ▹ "type") invalid_env_from_type)
    ++ report (is_nil e.source_name) (field ▹ "source_name") missing_required_field

unfoldable pub source_count : ValueSource → ℕ
source_count v =
    tick (is_some v.static)
    + tick (is_some v.secret)
    + tick (is_some v.config)
    + tick (is_some v.field_path)

abbrev pub validate_selector : Option SelectorSpec → Field → ErrorList
validate_selector none field = []
validate_selector (some s) field =
    report (is_nil s.name) (field ▹ "name") missing_required_field
    ++ report (is_nil s.key) (field ▹ "key") missing_required_field

unfoldable pub validate_envs_trait : SimplifiedEnvSpec → Field → ErrorList
unfolding source_count
validate_envs_trait e field =
    let source = field ▹ "value_from" in
    report (is_nil e.name) (field ▹ "name") missing_required_field
    ++ report_count (source_count e.value_from) source invalid_env_value_source
    ++ validate_selector e.value_from.secret (source ▹ "secret")
    ++ validate_selector e.value_from.config (source ▹ "config")

unfoldable pub validate_resources_trait : ResourceTraitsSpec → Field → ErrorList
validate_resources_trait r field =
    report (not (is_nil r.cpu) && not (is_valid_quantity r.cpu)) (field ▹ "cpu")
      invalid_trait_config
    ++ report (not (is_nil r.memory) && not (is_valid_quantity r.memory)) (field ▹ "memory")
        invalid_trait_config

abbrev pub validate_resources : Option ResourceTraitsSpec → Field → ErrorList
validate_resources none field = []
validate_resources (some r) field = validate_resources_trait r field

-- `nested` says that the traits hang on an init container or on a sidecar; the number is the index
-- in the loop. The recursion ends at the first nested container, whose traits are not looked at.
unfoldable mutual
  pub validate_traits : Bool → Traits → Field → ErrorList
  validate_traits nested (traits t xs ys) field =
      each validate_storage_trait 0 (field ▹ "storage") t.storage
      ++ each validate_probe_trait 0 (field ▹ "probes") t.probes
      ++ validate_inits nested xs 0 (field ▹ "init")
      ++ validate_sidecars nested ys 0 (field ▹ "sidecar")
      ++ each validate_rbac_trait 0 (field ▹ "rbac") t.rbac
      ++ each validate_ingress_trait 0 (field ▹ "ingress") t.ingress
      ++ each validate_env_from_trait 0 (field ▹ "env_from") t.env_from
      ++ each validate_envs_trait 0 (field ▹ "envs") t.envs
      ++ validate_resources t.resources (field ▹ "resources")

  pub validate_inits : Bool → Inits → ℕ → Field → ErrorList
  validate_inits nested no_inits i field = []
  validate_inits nested (init name p t rest) i field =
      let here = field ++ (at i ∷ []) in
      let inner = validate_traits true t (here ▹ "traits") in
      let later = validate_inits nested rest (suc i) field in
      (if nested
        then report true here nested_trait_forbidden
        else report (is_nil p.image) (here ▹ "properties" ▹ "image") missing_image ++ inner)
      ++ later

  pub validate_sidecars : Bool → Sidecars → ℕ → Field → ErrorList
  validate_sidecars nested no_sidecars i field = []
  validate_sidecars nested (sidecar name image t rest) i field =
      let here = field ++ (at i ∷ []) in
      let inner = validate_traits true t (here ▹ "traits") in
      let later = validate_sidecars nested rest (suc i) field in
      (if nested
        then report true here nested_trait_forbidden
        else report (is_nil image) (here ▹ "image") missing_image ++ inner)
      ++ later
