-- ===== src/Application/Rewrite.antt =====
-- pkg/apiserver/domain/service/application.go: `rewriteTraitsForTemplate`, which renames what the
-- traits of a template refer to. Texts are lists of code points, which the functions of Go's strings
-- package treat alike.
use kube_min_cli.Base.{
  ℕ, zero, suc, ◌-◌, Bool, true, false, not, ◌&&◌, ◌||◌, [], ◌∷◌, ◌++◌, map, Option, none, some,
  Text, text, Dict, lookup, is_nil, text_eq, length, ◌==◌, if◌then◌else◌, decimal,
}
use kube_min_cli.Naming.{Unicode, dash, trim_space}
use kube_min_cli.Spec.{
  StorageTraitSpec, IngressTraitsSpec, RbacPolicySpec, EnvFromSourceSpec, SelectorSpec, ValueSource,
  SimplifiedEnvSpec, PlainTraits, Traits, traits, Inits, no_inits, init, Sidecars, no_sidecars,
  sidecar,
}

-- `strings.HasPrefix` and `strings.Contains`
unfoldable pub has_prefix : Text → Text → Bool
has_prefix [] s = true
has_prefix (p ∷ ps) [] = false
has_prefix (p ∷ ps) (c ∷ cs) = (p == c) && has_prefix ps cs

unfoldable pub contains : Text → Text → Bool
unfolding has_prefix
contains old [] = is_nil old
contains old (c ∷ cs) = has_prefix old (c ∷ cs) || contains old cs

-- `strings.ReplaceAll`: `skip` counts what is left of an occurrence. An empty text occurs at each
-- place.
abbrev replace_from : Text → Text → ℕ → Text → Text
replace_from old new skip [] = []
replace_from old new (suc skip) (c ∷ cs) = replace_from old new skip cs
replace_from old new zero (c ∷ cs) =
    let there = new ++ replace_from old new (length old - 1) cs in
    let here = c ∷ replace_from old new 0 cs in if has_prefix old (c ∷ cs) then there else here

abbrev interleave : Text → Text → Text
interleave new [] = new
interleave new (c ∷ cs) = new ++ (c ∷ interleave new cs)

unfoldable pub replace_all : Text → Text → Text → Text
unfolding has_prefix
replace_all name old new = if is_nil old then interleave new name else replace_from old new 0 name

-- `lastSegment`: behind the last dash.
unfoldable pub last_segment : Text → Text
last_segment [] = []
last_segment (c ∷ cs) =
    let rest = last_segment cs in if has_dash cs then rest else if c == dash then cs else c ∷ cs
  where
    has_dash : Text → Bool
    has_dash [] = false
    has_dash (d ∷ ds) = (d == dash) || has_dash ds

-- What the closure and the function read: `names` is `nameMap`.
pub record Renaming : Type 0 where
  pub old_name : Text
  pub new_name : Text
  pub base_name : Text
  pub namespace : Text
  pub names : Dict Text

module _ (u : Unicode) (r : Renaming) where
  unfoldable pub rewrite_name_candidate : Text → Text
  unfolding contains replace_all
  rewrite_name_candidate name = elim (lookup name r.names) [
    | some mapped ↦ mapped
    | none ↦
        if not (is_nil name) && contains r.old_name name
        then replace_all name r.old_name r.new_name
        else name
  ]

  abbrev pub volume_prefix : Text
  volume_prefix =
      let prefix = trim_space u r.base_name in if is_nil prefix then r.new_name else prefix

  abbrev pub is_unnamed : Text → Bool
  is_unnamed name = is_nil name || text_eq name r.old_name

  unfoldable pub rewrite_storage_name : Text → Text → Text
  unfolding rewrite_name_candidate
  rewrite_storage_name storage_type name =
      if is_unnamed name
      then r.new_name
      else if text_eq storage_type (text "persistent")
      then (if contains r.old_name name
          then replace_all name r.old_name r.new_name
          else if not (is_nil volume_prefix)
              && not (has_prefix (volume_prefix ++ (dash ∷ [])) name || text_eq name volume_prefix)
          then volume_prefix ++ (dash ∷ name)
          else name)
      else rewrite_name_candidate name

  -- A reference that is not empty is rewritten.
  abbrev pub rewrite_given : Text → Text
  rewrite_given name = if is_nil name then name else rewrite_name_candidate name

  abbrev pub rewrite_storage : StorageTraitSpec → StorageTraitSpec
  rewrite_storage s = record {
    name = rewrite_storage_name s.storage_type s.name;
    storage_type = s.storage_type;
    mount_path = s.mount_path;
    sub_path = s.sub_path;
    read_only = s.read_only;
    source_name = rewrite_given s.source_name;
    tmp_create = s.tmp_create;
    size = s.size;
    claim_name = rewrite_given s.claim_name;
    storage_class = s.storage_class;
  }

  abbrev pub rewrite_route : Text → Text
  rewrite_route service = if text_eq service r.old_name then r.new_name else service

  abbrev pub rewrite_ingress : IngressTraitsSpec → IngressTraitsSpec
  rewrite_ingress g = record {
    name = if is_unnamed g.name then r.new_name else g.name;
    namespace = if is_nil g.namespace then r.namespace else g.namespace;
    routes = map rewrite_route g.routes;
  }

  abbrev pub rewrite_rbac : RbacPolicySpec → RbacPolicySpec
  rewrite_rbac p = record {
    service_account = p.service_account;
    namespace =
        if not (is_nil r.namespace)
        then r.namespace
        else if is_nil p.namespace
        then text "default"
        else p.namespace;
    rules = p.rules;
  }

  abbrev pub rewrite_env_from : EnvFromSourceSpec → EnvFromSourceSpec
  rewrite_env_from e = record {
    source_type = e.source_type;
    source_name = rewrite_name_candidate e.source_name;
  }

  abbrev pub rewrite_selector : Option SelectorSpec → Option SelectorSpec
  rewrite_selector none = none
  rewrite_selector (some s) = some (record { name = rewrite_name_candidate s.name; key = s.key })

  abbrev pub rewrite_env : SimplifiedEnvSpec → SimplifiedEnvSpec
  rewrite_env e =
      let v = e.value_from in
      let w : ValueSource = record {
        static = v.static;
        secret = rewrite_selector v.secret;
        config = rewrite_selector v.config;
        field_path = v.field_path;
      } in
      record { name = e.name; value_from = w }

  unfoldable pub rewrite_plain : PlainTraits → PlainTraits
  unfolding rewrite_storage_name
  rewrite_plain t = record {
    storage = map rewrite_storage t.storage;
    ingress = map rewrite_ingress t.ingress;
    rbac = map rewrite_rbac t.rbac;
    env_from = map rewrite_env_from t.env_from;
    envs = map rewrite_env t.envs;
    probes = t.probes;
    resources = t.resources;
    share = t.share;
  }

  -- The number is the position of a container, from 1.
  unfoldable mutual
    pub rewrite_traits : Traits → Traits
    rewrite_traits (traits t xs ys) =
        traits (rewrite_plain t) (rewrite_inits 1 xs) (rewrite_sidecars 1 ys)

    pub rewrite_inits : ℕ → Inits → Inits
    rewrite_inits i no_inits = no_inits
    rewrite_inits i (init name p t rest) =
        init (if is_unnamed name then r.new_name ++ text "-init-" ++ decimal i else name) p
          (rewrite_traits t) (rewrite_inits (suc i) rest)

    pub rewrite_sidecars : ℕ → Sidecars → Sidecars
    rewrite_sidecars i no_sidecars = no_sidecars
    rewrite_sidecars i (sidecar name image t rest) =
        sidecar (if is_unnamed name then r.new_name ++ text "-sidecar-" ++ decimal i else name)
          image (rewrite_traits t) (rewrite_sidecars (suc i) rest)
