-- ===== src/Validation/Nesting.antt =====
-- The rules for all traits of a component.
use kube_min_cli.Base.{
  ℕ, suc, ◌≡◌, refl, ◌∙◌, Bool, true, false, ◌&&◌, [], ◌∷◌, ◌++◌, is_nil, arith,
}
use kube_min_cli.Spec.{
  PlainTraits, Traits, traits, Inits, no_inits, init, Sidecars, no_sidecars, sidecar,
}
use kube_min_cli.Validation.Errors.{at, Field, ◌▹◌, report, each}
use kube_min_cli.Validation.Accept.{is_nil-append, is_nil-nine, IsTest, each-IsTest}
use kube_min_cli.Validation.Traits.{
  validate_storage_trait, validate_probe_trait, validate_rbac_trait, validate_ingress_trait,
  validate_env_from_trait, validate_envs_trait, validate_resources, validate_traits, validate_inits,
  validate_sidecars,
}
use kube_min_cli.Validation.Rules.{
  storage_ok, probe_ok, rbac_ok, ingress_ok, env_from_ok, env_ok, plain_ok, nested_ok, inits_ok,
  sidecars_ok, traits_ok, validate_storage_trait-IsTest, validate_probe_trait-IsTest,
  validate_rbac_trait-IsTest, validate_ingress_trait-IsTest, validate_env_from_trait-IsTest,
  validate_envs_trait-IsTest, validate_resources-IsTest,
}

abbrev no_more_inits : Inits → Bool
no_more_inits no_inits = true
no_more_inits (init n p t rest) = false

abbrev no_more_sidecars : Sidecars → Bool
no_more_sidecars no_sidecars = true
no_more_sidecars (sidecar n i t rest) = false

validate_inits-nested :
    (xs : Inits) (i : ℕ) (p : Field) → is_nil (validate_inits true xs i p) ≡ no_more_inits xs
unfolding validate_traits report
validate_inits-nested no_inits i p = refl
validate_inits-nested (init n q t rest) i p = refl

validate_sidecars-nested :
    (xs : Sidecars) (i : ℕ) (p : Field)
    → is_nil (validate_sidecars true xs i p) ≡ no_more_sidecars xs
unfolding validate_traits report
validate_sidecars-nested no_sidecars i p = refl
validate_sidecars-nested (sidecar n i' t rest) i p = refl

-- The errors of the traits, given those of the containers.
validate_traits_split :
    (nested : Bool) (t : PlainTraits) (xs : Inits) (ys : Sidecars) (field : Field)
    → is_nil (validate_traits nested (traits t xs ys) field) ≡ (
        plain_ok t
        && is_nil (validate_inits nested xs 0 (field ▹ "init"))
        && is_nil (validate_sidecars nested ys 0 (field ▹ "sidecar")))
unfolding validate_traits
validate_traits_split nested t xs ys field =
    is_nil-nine (each validate_storage_trait 0 (field ▹ "storage") t.storage)
      (each validate_probe_trait 0 (field ▹ "probes") t.probes)
      (validate_inits nested xs 0 (field ▹ "init"))
      (validate_sidecars nested ys 0 (field ▹ "sidecar"))
      (each validate_rbac_trait 0 (field ▹ "rbac") t.rbac)
      (each validate_ingress_trait 0 (field ▹ "ingress") t.ingress)
      (each validate_env_from_trait 0 (field ▹ "env_from") t.env_from)
      (each validate_envs_trait 0 (field ▹ "envs") t.envs)
      (validate_resources t.resources (field ▹ "resources"))
    ∙ ground (
      arith,
      each-IsTest validate_storage_trait storage_ok validate_storage_trait-IsTest 0
          (field ▹ "storage") t.storage,
      each-IsTest validate_probe_trait probe_ok validate_probe_trait-IsTest 0 (field ▹ "probes")
          t.probes,
      each-IsTest validate_rbac_trait rbac_ok validate_rbac_trait-IsTest 0 (field ▹ "rbac") t.rbac,
      each-IsTest validate_ingress_trait ingress_ok validate_ingress_trait-IsTest 0
          (field ▹ "ingress") t.ingress,
      each-IsTest validate_env_from_trait env_from_ok validate_env_from_trait-IsTest 0
          (field ▹ "env_from") t.env_from,
      each-IsTest validate_envs_trait env_ok validate_envs_trait-IsTest 0 (field ▹ "envs") t.envs,
      validate_resources-IsTest t.resources (field ▹ "resources"),
    )

mutual
  unfolding validate_traits report

  validate_traits-nested :
      (t : Traits) (p : Field) → is_nil (validate_traits true t p) ≡ nested_ok t
  validate_traits-nested (traits t xs ys) p =
      validate_traits_split true t xs ys p
      ∙ ground (
        arith,
        validate_inits-nested xs 0 (p ▹ "init"),
        validate_sidecars-nested ys 0 (p ▹ "sidecar"),
      )

  validate_inits-IsTest :
      (xs : Inits) (i : ℕ) (p : Field) → is_nil (validate_inits false xs i p) ≡ inits_ok xs
  validate_inits-IsTest no_inits i p = refl
  validate_inits-IsTest (init n q t rest) i p =
      let here = p ++ (at i ∷ []) in
      ground (
        arith,
        is_nil-append (validate_traits true t (here ▹ "traits"))
            (validate_inits false rest (suc i) p),
        validate_traits-nested t (here ▹ "traits"),
        validate_inits-IsTest rest (suc i) p,
      )

  validate_sidecars-IsTest :
      (xs : Sidecars) (i : ℕ) (p : Field) → is_nil (validate_sidecars false xs i p) ≡ sidecars_ok xs
  validate_sidecars-IsTest no_sidecars i p = refl
  validate_sidecars-IsTest (sidecar n im t rest) i p =
      let here = p ++ (at i ∷ []) in
      ground (
        arith,
        is_nil-append (validate_traits true t (here ▹ "traits"))
            (validate_sidecars false rest (suc i) p),
        validate_traits-nested t (here ▹ "traits"),
        validate_sidecars-IsTest rest (suc i) p,
      )

-- The traits of a component are accepted just when each of them follows its rule, each init
-- container and each sidecar has an image, and the traits of those follow the rules and hold no
-- further container.
pub validate_traits-IsTest : IsTest (validate_traits false) traits_ok
validate_traits-IsTest (traits t xs ys) field =
    validate_traits_split false t xs ys field
    ∙ ground (
      arith,
      validate_inits-IsTest xs 0 (field ▹ "init"),
      validate_sidecars-IsTest ys 0 (field ▹ "sidecar"),
    )
