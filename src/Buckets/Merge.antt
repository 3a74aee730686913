-- ===== src/Buckets/Merge.antt =====
-- How the buckets of several components come together.
use kube_min_cli.Base.{
  ℕ, ◌+◌, ◌≡◌, refl, sym, ◌∙◌, Bool, true, false, not, ◌&&◌, List, [], ◌∷◌, ◌++◌, length, ◌==◌,
  if◌then◌else◌, append-nil, append_assoc, arith, length-append, ap,
}
use kube_min_cli.Model.{JobTask}
use kube_min_cli.Buckets.{
  Buckets, new_job_buckets, bucket, append_bucket, merge_job_buckets, buckets_empty, count_jobs,
  keys, sorted_priorities, sort_priorities, insert_sorted,
}

-- The keys are those of `newJobBuckets`.
abbrev pub IsStandard : Buckets → Type 0
IsStandard b = keys b ≡ 0 ∷ 1 ∷ 10 ∷ 20 ∷ []

pub new-IsStandard : IsStandard new_job_buckets
unfolding new_job_buckets
new-IsStandard = refl

pub bucket-append_bucket :
    (p q : ℕ) (new : List JobTask) (b : Buckets)
    → bucket p (append_bucket q new b) ≡ (if p == q then bucket p b ++ new else bucket p b)
unfolding bucket append_bucket
bucket-append_bucket p q new [] = ground arith
bucket-append_bucket p q new ((r, jobs) ∷ b) = ground (arith, bucket-append_bucket p q new b)

abbrev pub has_key : ℕ → List ℕ → Bool
has_key p [] = false
has_key p (q ∷ qs) = if q == p then true else has_key p qs

keys-append_bucket :
    (p : ℕ) (new : List JobTask) (b : Buckets)
    → has_key p (keys b) ≡ true
    → keys (append_bucket p new b) ≡ keys b
unfolding append_bucket
keys-append_bucket p new [] h = cc
keys-append_bucket p new ((r, jobs) ∷ b) h = ground (arith, keys-append_bucket p new b)

pub count-append_bucket :
    (p : ℕ) (new : List JobTask) (b : Buckets)
    → count_jobs (append_bucket p new b) ≡ count_jobs b + length new
unfolding append_bucket count_jobs
count-append_bucket p new [] = omega arith
count-append_bucket p new ((r, jobs) ∷ b) =
    ground (arith, count-append_bucket p new b, length-append jobs new)

pub append-IsStandard :
    (p : ℕ) (new : List JobTask) (b : Buckets)
    → has_key p (0 ∷ 1 ∷ 10 ∷ 20 ∷ []) ≡ true
    → IsStandard b
    → IsStandard (append_bucket p new b)
append-IsStandard p new b h s = keys-append_bucket p new b (rw s h) ∙ s

-- Merging adds up the numbers of jobs: none is lost, none is doubled.
pub count-merge :
    (dst src : Buckets) → count_jobs (merge_job_buckets dst src) ≡ count_jobs dst + count_jobs src
unfolding merge_job_buckets count_jobs
count-merge dst [] = omega arith
count-merge dst ((p, []) ∷ src) = omega (arith, count-merge dst src)
count-merge dst ((p, j ∷ jobs) ∷ src) =
    omega (
      arith,
      count-merge (append_bucket p (j ∷ jobs) dst) src,
      count-append_bucket p (j ∷ jobs) dst,
    )

abbrev within : List ℕ → Bool
within [] = true
within (p ∷ ps) = has_key p (0 ∷ 1 ∷ 10 ∷ 20 ∷ []) && within ps

merge-within :
    (dst src : Buckets)
    → IsStandard dst
    → within (keys src) ≡ true
    → IsStandard (merge_job_buckets dst src)
unfolding merge_job_buckets
merge-within dst [] s w = s
merge-within dst ((p, []) ∷ src) s w = merge-within dst src s (ground arith)
merge-within dst ((p, j ∷ jobs) ∷ src) s w =
    merge-within (append_bucket p (j ∷ jobs) dst) src
      (append-IsStandard p (j ∷ jobs) dst (ground arith) s) (ground arith)

pub merge-IsStandard :
    (dst src : Buckets) → IsStandard dst → IsStandard src → IsStandard (merge_job_buckets dst src)
merge-IsStandard dst src d s = merge-within dst src d (rw s refl)

-- The jobs of a key, from every entry of it.
gathered : ℕ → Buckets → List JobTask
gathered p [] = []
gathered p ((q, jobs) ∷ b) = (if p == q then jobs else []) ++ gathered p b

bucket-merge_gathered :
    (p : ℕ) (dst src : Buckets)
    → bucket p (merge_job_buckets dst src) ≡ bucket p dst ++ gathered p src
unfolding merge_job_buckets gathered
bucket-merge_gathered p dst [] = sym (append-nil (bucket p dst))
bucket-merge_gathered p dst ((q, []) ∷ src) = ground (arith, bucket-merge_gathered p dst src)
bucket-merge_gathered p dst ((q, j ∷ jobs) ∷ src) = ground (
  arith,
  bucket-merge_gathered p (append_bucket q (j ∷ jobs) dst) src,
  bucket-append_bucket p q (j ∷ jobs) dst,
  append_assoc (bucket p dst) (j ∷ jobs) (gathered p src),
)

abbrev distinct : List ℕ → Bool
distinct [] = true
distinct (p ∷ ps) = not (has_key p ps) && distinct ps

gathered_absent : (p : ℕ) (b : Buckets) → has_key p (keys b) ≡ false → gathered p b ≡ []
unfolding gathered
gathered_absent p [] h = refl
gathered_absent p ((q, jobs) ∷ b) h = ground (arith, gathered_absent p b)

gathered-eq-bucket : (p : ℕ) (b : Buckets) → distinct (keys b) ≡ true → gathered p b ≡ bucket p b
unfolding gathered bucket
gathered-eq-bucket p [] h = refl
gathered-eq-bucket p ((q, jobs) ∷ b) h =
    ground (arith, gathered-eq-bucket p b, gathered_absent p b, append-nil jobs)

-- Merging keeps each priority apart: the jobs of a priority are the ones before, then the new ones,
-- in order.
pub bucket-merge :
    (p : ℕ) (dst src : Buckets)
    → IsStandard src
    → bucket p (merge_job_buckets dst src) ≡ bucket p dst ++ bucket p src
bucket-merge p dst src s =
    bucket-merge_gathered p dst src
    ∙ ap (λ jobs. bucket p dst ++ jobs) (gathered-eq-bucket p src (rw s refl))

pub sorted_priorities-IsStandard :
    (b : Buckets) → IsStandard b → sorted_priorities b ≡ 0 ∷ 1 ∷ 10 ∷ 20 ∷ []
unfolding sorted_priorities sort_priorities insert_sorted
sorted_priorities-IsStandard b s = rw s refl

pub empty_iff_count : (b : Buckets) → buckets_empty b ≡ (count_jobs b == 0)
unfolding buckets_empty count_jobs
empty_iff_count [] = refl
empty_iff_count ((p, []) ∷ b) = ground (arith, empty_iff_count b)
empty_iff_count ((p, j ∷ jobs) ∷ b) = ground arith
