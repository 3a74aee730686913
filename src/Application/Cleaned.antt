-- ===== src/Application/Cleaned.antt =====
-- What a cleanup reports: each resource it tried is reported once, in order.
use kube_min_cli.Base.{
  ℕ, suc, ◌+◌, ◌≡◌, map, refl, sym, ap, subst, ◌∙◌, true, false, List, [], ◌∷◌, ◌++◌, Option, none,
  some, Text, is_nil, length, length-append, append-nil, append_assoc, if◌then◌else◌, arith,
  Bool-cases, inl, inr,
}
use kube_min_cli.Application.Cleanup.{
  Resource, CleanupReporter, new_cleanup_reporter, record_result, reporter_err, ClientError,
  not_found, other_error, CleanupError, single, several, Cleaning, addressed, ignore_not_found,
  ClientObject, object, unsupported, object_resource, default_namespace, delete_resource,
  delete_and_record, delete_additional_objects, Generated, delete_optional,
  delete_component_resources, delete_components, cleanup_application_resources,
}

abbrev optional : Option Resource → List Resource
optional none = []
optional (some x) = x ∷ []

-- The resources of the objects, and those of a component: its objects, its workload, its service.
abbrev object_resources : Text → List ClientObject → List Resource
object_resources fallback [] = []
object_resources fallback (object kind namespace name ∷ os) =
    object_resource fallback kind namespace name ∷ object_resources fallback os
object_resources fallback (unsupported ∷ os) = object_resources fallback os

abbrev component_resources : Generated → List Resource
component_resources g =
    let namespace =
      if is_nil g.component_namespace then default_namespace else g.component_namespace in
    object_resources namespace g.additional_objects
    ++ optional g.workload
    ++ optional g.component_service

abbrev pub application_resources : List Generated → List Resource
application_resources [] = []
application_resources (g ∷ gs) = component_resources g ++ application_resources gs

-- The resources that are tried: those with a name.
abbrev pub named : List Resource → List Resource
named [] = []
named (t ∷ ts) = let rest = named ts in if is_nil t.name then rest else t ∷ rest

-- What is deleted of resources that were tried: those for which the client answered no error, or that
-- there was none.
abbrev pub deleted : List (Resource × Option ClientError) → List Resource
deleted [] = []
deleted ((t, none) ∷ rest) = t ∷ deleted rest
deleted ((t, some not_found) ∷ rest) = t ∷ deleted rest
deleted ((t, some (other_error e)) ∷ rest) = deleted rest

-- The others, with their errors.
abbrev pub failed : List (Resource × Option ClientError) → List (Resource × ClientError)
failed [] = []
failed ((t, none) ∷ rest) = failed rest
failed ((t, some not_found) ∷ rest) = failed rest
failed ((t, some (other_error e)) ∷ rest) = (t, other_error e) ∷ failed rest

abbrev error_of : Resource × ClientError → ClientError
error_of p = p.1

-- The error for the resources that failed: the only one, or the first with the number of them.
abbrev pub error_for : List (Resource × ClientError) → Option CleanupError
error_for [] = none
error_for (p ∷ []) = some (single p.1)
error_for (p ∷ q ∷ ps) = some (several (suc (suc (length ps))) p.1)

named-append : (xs ys : List Resource) → named (xs ++ ys) ≡ named xs ++ named ys
named-append [] ys = refl
named-append (x ∷ xs) ys = elim (Bool-cases (is_nil x.name)) [
  | inl h ↦ rw h (named-append xs ys)
  | inr h ↦ rw h (ap (λ zs. x ∷ zs) (named-append xs ys))
]

deleted-append :
    (xs ys : List (Resource × Option ClientError)) → deleted (xs ++ ys) ≡ deleted xs ++ deleted ys
deleted-append [] ys = refl
deleted-append ((t, none) ∷ xs) ys = ap (λ zs. t ∷ zs) (deleted-append xs ys)
deleted-append ((t, some not_found) ∷ xs) ys = ap (λ zs. t ∷ zs) (deleted-append xs ys)
deleted-append ((t, some (other_error e)) ∷ xs) ys = deleted-append xs ys

failed-append :
    (xs ys : List (Resource × Option ClientError)) → failed (xs ++ ys) ≡ failed xs ++ failed ys
failed-append [] ys = refl
failed-append ((t, none) ∷ xs) ys = failed-append xs ys
failed-append ((t, some not_found) ∷ xs) ys = failed-append xs ys
failed-append ((t, some (other_error e)) ∷ xs) ys =
    ap (λ zs. (t, other_error e) ∷ zs) (failed-append xs ys)

errors-append :
    (xs ys : List (Resource × ClientError))
    → map error_of (xs ++ ys) ≡ map error_of xs ++ map error_of ys
errors-append [] ys = refl
errors-append (x ∷ xs) ys = ap (λ zs. x.1 ∷ zs) (errors-append xs ys)

reporter_err-errors :
    (d : List Resource) (f : List (Resource × ClientError))
    → let r : CleanupReporter = record {
      deleted_resources = d;
      failed_resources = f;
      errs = map error_of f;
    } in
      (if is_nil f then none else reporter_err r) ≡ error_for f
unfolding reporter_err
reporter_err-errors d [] = refl
reporter_err-errors d (p ∷ []) = refl
reporter_err-errors d (p ∷ q ∷ ps) = ap (λ n. some (several (suc (suc n)) p.1)) (length-errors ps)
  where
    length-errors : (ps : List (Resource × ClientError)) → length (map error_of ps) ≡ length ps
    length-errors [] = refl
    length-errors (p ∷ ps) = ap suc (length-errors ps)

module _ (delete_call : ℕ → Resource → Option ClientError) where
  -- The resources in order, with what the client answers in its calls from this number on.
  abbrev pub attempts : ℕ → List Resource → List (Resource × Option ClientError)
  attempts n [] = []
  attempts n (t ∷ ts) = (t, delete_call n (addressed t)) ∷ attempts (suc n) ts

  attempts-append :
      (n : ℕ) (xs ys : List Resource)
      → attempts n (xs ++ ys) ≡ attempts n xs ++ attempts (n + length xs) ys
  attempts-append n [] ys = ap (λ m. attempts m ys) (omega arith)
  attempts-append n (x ∷ xs) ys =
      ap (λ zs. (x, delete_call n (addressed x)) ∷ zs)
        (attempts-append (suc n) xs ys
          ∙ ap (λ m. attempts (suc n) xs ++ attempts m ys) (omega arith))

  -- The state behind the deletion of some resources.
  record Reports (ts : List Resource) (c d : Cleaning) : Type 0 where
    calls_eq : d.calls ≡ c.calls + length (named ts)
    deleted_eq :
        d.reporter.deleted_resources
        ≡ c.reporter.deleted_resources ++ deleted (attempts c.calls (named ts))
    failed_eq :
        d.reporter.failed_resources
        ≡ c.reporter.failed_resources ++ failed (attempts c.calls (named ts))
    errs_eq :
        d.reporter.errs ≡ c.reporter.errs ++ map error_of (failed (attempts c.calls (named ts)))

  nothing-Reports : (c : Cleaning) → Reports [] c c
  nothing-Reports c = record {
    calls_eq = omega arith;
    deleted_eq = sym (append-nil c.reporter.deleted_resources);
    failed_eq = sym (append-nil c.reporter.failed_resources);
    errs_eq = sym (append-nil c.reporter.errs);
  }

  -- A resource with a name, by the answer of the client.
  answered :
      (t : Resource) (c : Cleaning) (a : Option ClientError)
      → let r = c.reporter in
        let s = record_result r t (ignore_not_found a) in
        is_nil t.name ≡ false
        → (s.deleted_resources ≡ r.deleted_resources ++ deleted ((t, a) ∷ []))
          × (s.failed_resources ≡ r.failed_resources ++ failed ((t, a) ∷ []))
          × (s.errs ≡ r.errs ++ map error_of (failed ((t, a) ∷ [])))
  unfolding record_result
  answered t c none h =
      rw h (refl, sym (append-nil c.reporter.failed_resources), sym (append-nil c.reporter.errs))
  answered t c (some not_found) h =
      rw h (refl, sym (append-nil c.reporter.failed_resources), sym (append-nil c.reporter.errs))
  answered t c (some (other_error e)) h =
      rw h (sym (append-nil c.reporter.deleted_resources), refl, refl)

  unnamed_stays :
      (t : Resource) (c : Cleaning) → is_nil t.name ≡ true → delete_and_record delete_call t c ≡ c
  unfolding delete_and_record record_result
  unnamed_stays t c h = rw h refl

  named_recorded :
      (t : Resource) (c : Cleaning)
      → is_nil t.name ≡ false
      → delete_and_record delete_call t c ≡ record {
        calls = suc c.calls;
        reporter =
            record_result c.reporter t (ignore_not_found (delete_call c.calls (addressed t)));
      }
  unfolding delete_and_record delete_resource
  named_recorded t c h = rw h refl

  unnamed-Reports : (t : Resource) (c : Cleaning) → is_nil t.name ≡ true → Reports (t ∷ []) c c
  unnamed-Reports t c h =
      let none_named : named (t ∷ []) ≡ [] = rw h refl in
      let nothing = nothing-Reports c in
      record {
        calls_eq = rw none_named nothing.calls_eq;
        deleted_eq = rw none_named nothing.deleted_eq;
        failed_eq = rw none_named nothing.failed_eq;
        errs_eq = rw none_named nothing.errs_eq;
      }

  named-Reports :
      (t : Resource) (c : Cleaning)
      → is_nil t.name ≡ false
      → Reports (t ∷ []) c (record {
        calls = suc c.calls;
        reporter =
            record_result c.reporter t (ignore_not_found (delete_call c.calls (addressed t)));
      })
  named-Reports t c h =
      let one_named : named (t ∷ []) ≡ t ∷ [] = rw h refl in
      let (d, f, e) = answered t c (delete_call c.calls (addressed t)) h in
      record {
        calls_eq = rw one_named (omega arith);
        deleted_eq = rw one_named d;
        failed_eq = rw one_named f;
        errs_eq = rw one_named e;
      }

  delete_and_record-Reports :
      (t : Resource) (c : Cleaning) → Reports (t ∷ []) c (delete_and_record delete_call t c)
  delete_and_record-Reports t c = elim (Bool-cases (is_nil t.name)) [
    | inl h ↦ subst (Reports (t ∷ []) c) (sym (unnamed_stays t c h)) (unnamed-Reports t c h)
    | inr h ↦ subst (Reports (t ∷ []) c) (sym (named_recorded t c h)) (named-Reports t c h)
  ]

  -- The attempts of two lists, one behind the other.
  attempts_chain :
      (xs ys : List Resource) (c d : Cleaning)
      → d.calls ≡ c.calls + length (named xs)
      → attempts c.calls (named (xs ++ ys))
        ≡ attempts c.calls (named xs) ++ attempts d.calls (named ys)
  attempts_chain xs ys c d h =
      ap (attempts c.calls) (named-append xs ys)
      ∙ attempts-append c.calls (named xs) (named ys)
      ∙ ap (λ m. attempts c.calls (named xs) ++ attempts m (named ys)) (sym h)

  chain-Reports :
      (xs ys : List Resource) (c d e : Cleaning)
      → Reports xs c d
      → Reports ys d e
      → Reports (xs ++ ys) c e
  chain-Reports xs ys c d e h k =
      let first = attempts c.calls (named xs) in
      let second = attempts d.calls (named ys) in
      let both = attempts_chain xs ys c d h.calls_eq in
      record {
        calls_eq =
            k.calls_eq
            ∙ ap (λ n. n + length (named ys)) h.calls_eq
            ∙ counted c.calls (named xs) (named ys)
            ∙ ap (λ zs. c.calls + length zs) (sym (named-append xs ys));
        deleted_eq =
            extend c.reporter.deleted_resources d.reporter.deleted_resources
              e.reporter.deleted_resources (deleted first) (deleted second)
              (deleted (attempts c.calls (named (xs ++ ys)))) h.deleted_eq k.deleted_eq
              (ap deleted both ∙ deleted-append first second);
        failed_eq =
            extend c.reporter.failed_resources d.reporter.failed_resources
              e.reporter.failed_resources (failed first) (failed second)
              (failed (attempts c.calls (named (xs ++ ys)))) h.failed_eq k.failed_eq
              (ap failed both ∙ failed-append first second);
        errs_eq =
            extend c.reporter.errs d.reporter.errs e.reporter.errs (map error_of (failed first))
              (map error_of (failed second))
              (map error_of (failed (attempts c.calls (named (xs ++ ys))))) h.errs_eq k.errs_eq
              (ap (λ zs. map error_of (failed zs)) both
                ∙ ap (map error_of) (failed-append first second)
                ∙ errors-append (failed first) (failed second));
      }
    where
      counted : (n : ℕ) (xs ys : List Resource) → n + length xs + length ys ≡ n + length (xs ++ ys)
      counted n xs ys = omega (arith, length-append xs ys)

      extend :
          {A : Type 0} (a b c x y z : List A) → b ≡ a ++ x → c ≡ b ++ y → z ≡ x ++ y → c ≡ a ++ z
      extend a b c x y z f g h =
          g ∙ ap (λ zs. zs ++ y) f ∙ append_assoc a x y ∙ ap (λ zs. a ++ zs) (sym h)

  delete_additional_objects-Reports :
      (ns : Text) (os : List ClientObject) (r : Cleaning)
      → Reports (object_resources ns os) r (delete_additional_objects delete_call ns os r)
  unfolding delete_additional_objects
  delete_additional_objects-Reports ns [] r = nothing-Reports r
  delete_additional_objects-Reports ns (object kind namespace name ∷ os) r =
      let t = object_resource ns kind namespace name in
      let s = delete_and_record delete_call t r in
      chain-Reports (t ∷ []) (object_resources ns os) r s
        (delete_additional_objects delete_call ns os s) (delete_and_record-Reports t r)
        (delete_additional_objects-Reports ns os s)
  delete_additional_objects-Reports ns (unsupported ∷ os) r =
      delete_additional_objects-Reports ns os r

  delete_optional-Reports :
      (o : Option Resource) (r : Cleaning)
      → Reports (optional o) r (delete_optional delete_call o r)
  delete_optional-Reports none r = nothing-Reports r
  delete_optional-Reports (some t) r = delete_and_record-Reports t r

  delete_component_resources-Reports :
      (g : Generated) (r : Cleaning)
      → Reports (component_resources g) r (delete_component_resources delete_call g r)
  unfolding delete_component_resources
  delete_component_resources-Reports g r =
      let ns = if is_nil g.component_namespace then default_namespace else g.component_namespace in
      let a = delete_additional_objects delete_call ns g.additional_objects r in
      let b = delete_optional delete_call g.workload a in
      let c = delete_optional delete_call g.component_service b in
      chain-Reports (object_resources ns g.additional_objects ++ optional g.workload)
        (optional g.component_service) r b c
        (chain-Reports (object_resources ns g.additional_objects) (optional g.workload) r a b
          (delete_additional_objects-Reports ns g.additional_objects r)
          (delete_optional-Reports g.workload a))
        (delete_optional-Reports g.component_service b)

  delete_components-Reports :
      (gs : List Generated) (r : Cleaning)
      → Reports (application_resources gs) r (delete_components delete_call gs r)
  unfolding delete_components
  delete_components-Reports [] r = nothing-Reports r
  delete_components-Reports (g ∷ gs) r =
      let s = delete_component_resources delete_call g r in
      chain-Reports (component_resources g) (application_resources gs) r s
        (delete_components delete_call gs s) (delete_component_resources-Reports g r)
        (delete_components-Reports gs s)

  -- A cleanup tries each resource of the application that has a name, in order, with one call of the
  -- client for each. It answers as deleted those for which the call answered no error, or that there
  -- was no such object, and as failed, with their errors, the others. Its error is none if none
  -- failed, that of the one that failed, or their number and the error of the first.
  pub cleanup-partitions :
      (gs : List Generated)
      → let answer = cleanup_application_resources delete_call gs in
        let tried = attempts 0 (named (application_resources gs)) in
        ((answer.0).0 ≡ deleted tried)
        × ((answer.0).1 ≡ failed tried)
        × (answer.1 ≡ error_for (failed tried))
  unfolding cleanup_application_resources
  cleanup-partitions gs =
      let start : Cleaning = record { calls = 0; reporter = new_cleanup_reporter } in
      let r = (delete_components delete_call gs start).reporter in
      let h = delete_components-Reports gs start in
      let tried = attempts 0 (named (application_resources gs)) in
      let same : r ≡ record {
        deleted_resources = r.deleted_resources;
        failed_resources = failed tried;
        errs = map error_of (failed tried);
      } =
        filled r (failed tried) (map error_of (failed tried)) h.failed_eq h.errs_eq in
      (
        h.deleted_eq,
        h.failed_eq,
        ap (λ (x : CleanupReporter). if is_nil x.failed_resources then none else reporter_err x)
              same
            ∙ reporter_err-errors r.deleted_resources (failed tried),
      )
    where
      filled :
          (r : CleanupReporter) (f : List (Resource × ClientError)) (es : List ClientError)
          → r.failed_resources ≡ f
          → r.errs ≡ es
          → r ≡ record { deleted_resources = r.deleted_resources; failed_resources = f; errs = es }
      filled r f es h k =
          ap
            (λ x. record {
              deleted_resources = r.deleted_resources;
              failed_resources = x;
              errs = r.errs;
            })
            h
          ∙ ap
              (λ x. record {
                deleted_resources = r.deleted_resources;
                failed_resources = f;
                errs = x;
              })
              k
