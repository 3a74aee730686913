-- ===== src/Application/Renamed.antt =====
-- The traits of a component that is taken from a template: their namespaces, and the services that
-- the routes go to.
use kube_min_cli.Base.{
  ℕ, suc, ◌≡◌, refl, Bool, true, false, not, ◌&&◌, List, [], ◌∷◌, map, Text, is_nil, text_eq,
  text_eq_refl, all, arith,
}
use kube_min_cli.Naming.{Unicode}
use kube_min_cli.Spec.{
  IngressTraitsSpec, RbacPolicySpec, PlainTraits, Traits, traits, Inits, no_inits, init, Sidecars,
  no_sidecars, sidecar,
}
use kube_min_cli.Application.Rewrite.{
  Renaming, rewrite_route, rewrite_ingress, rewrite_rbac, rewrite_plain, rewrite_traits,
  rewrite_inits, rewrite_sidecars,
}

module _ (r : Renaming) where
  abbrev pub rbac_placed : RbacPolicySpec → Bool
  rbac_placed p = text_eq p.namespace r.namespace

  abbrev pub ingress_placed : IngressTraitsSpec → Bool
  ingress_placed g = not (is_nil g.namespace) && all (λ s. not (text_eq s r.old_name)) g.routes

  abbrev pub plain_placed : PlainTraits → Bool
  plain_placed t = all rbac_placed t.rbac && all ingress_placed t.ingress

  abbrev mutual
    pub placed : Traits → Bool
    placed (traits t xs ys) = plain_placed t && inits_placed xs && sidecars_placed ys

    pub inits_placed : Inits → Bool
    inits_placed no_inits = true
    inits_placed (init n p t rest) = placed t && inits_placed rest

    pub sidecars_placed : Sidecars → Bool
    sidecars_placed no_sidecars = true
    sidecars_placed (sidecar n i t rest) = placed t && sidecars_placed rest

module _ (u : Unicode) (r : Renaming) (given : is_nil r.namespace ≡ false)
    (other : text_eq r.new_name r.old_name ≡ false) where
  rbac-placed : (ps : List RbacPolicySpec) → all (rbac_placed r) (map (rewrite_rbac u r) ps) ≡ true
  rbac-placed [] = refl
  rbac-placed (p ∷ ps) = ground (arith, rbac-placed ps, text_eq_refl r.namespace)

  routes-renamed :
      (ss : List Text) → all (λ s. not (text_eq s r.old_name)) (map (rewrite_route u r) ss) ≡ true
  routes-renamed [] = refl
  routes-renamed (s ∷ ss) = ground (arith, routes-renamed ss)

  ingress-placed :
      (gs : List IngressTraitsSpec) → all (ingress_placed r) (map (rewrite_ingress u r) gs) ≡ true
  ingress-placed [] = refl
  ingress-placed (g ∷ gs) = ground (arith, ingress-placed gs, routes-renamed g.routes)

  mutual
    unfolding rewrite_traits rewrite_plain

    traits-placed : (t : Traits) → placed r (rewrite_traits u r t) ≡ true
    traits-placed (traits t xs ys) = ground (
      arith,
      rbac-placed t.rbac,
      ingress-placed t.ingress,
      inits-placed 1 xs,
      sidecars-placed 1 ys,
    )

    inits-placed : (i : ℕ) (xs : Inits) → inits_placed r (rewrite_inits u r i xs) ≡ true
    inits-placed i no_inits = refl
    inits-placed i (init n p t rest) = ground (arith, traits-placed t, inits-placed (suc i) rest)

    sidecars-placed : (i : ℕ) (ys : Sidecars) → sidecars_placed r (rewrite_sidecars u r i ys) ≡ true
    sidecars-placed i no_sidecars = refl
    sidecars-placed i (sidecar n m t rest) =
        ground (arith, traits-placed t, sidecars-placed (suc i) rest)

-- In the rewritten traits, those of the containers beside the main one included, each policy is in the
-- namespace of the application, each ingress is in some namespace and no route goes to the old name,
-- if the namespace is given and the new name is another one.
pub rewrite_traits-placed :
    (u : Unicode) (r : Renaming) (t : Traits)
    → is_nil r.namespace ≡ false
    → text_eq r.new_name r.old_name ≡ false
    → placed r (rewrite_traits u r t) ≡ true
rewrite_traits-placed u r t given other = traits-placed u r given other t
