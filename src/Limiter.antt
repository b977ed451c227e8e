-- ===== src/Limiter.antt =====
-- The token bucket rate limiter (packages/scheduler/src/scheduler/core/rate_limiter.py). The time is
-- an argument, and a number of tokens is a float.
pub mod Timed
pub mod Eviction
mod Tests
use mathlib.Core.Option
use public_intelligence.Prelude.{
  ℕ, ◌+◌, ◌≡◌, String, Bool, true, false, Option, none, some, List, [], ◌∷◌, leb, if◌then◌else◌,
}
use public_intelligence.Prelude.Dict.{Dict, lookup, contains, insert, erase}
use public_intelligence.Prelude.Float.{Floats}

pub record TokenBucketLimiter (F : Type 0) : Type 0 where
  pub capacity : ℕ
  pub refill_rate : F
  pub idle_eviction_seconds : F
  pub buckets : Dict F
  pub last_updated : Dict F
  pub acquisitions_since_sweep : ℕ

abbrev pub sweep_interval_acquisitions : ℕ
sweep_interval_acquisitions = 256

module _ {F : Type 0} ⦃fl : Floats F⦄ where
  -- Python's `min(a, b)`: the first argument, unless the second is less.
  abbrev pub min_of : F → F → F
  min_of a b = if fl.lt b a then b else a

  -- The tokens of a bucket after a time, at most the capacity.
  unfoldable pub refilled : TokenBucketLimiter F → F → F → F
  refilled l tokens elapsed =
      min_of (fl.of_ℕ l.capacity) (fl.add tokens (fl.mul elapsed l.refill_rate))

  -- One round of the loop of `_evict_idle`: whether the bucket is stale.
  unfoldable pub is_idle : F → TokenBucketLimiter F → String × F → Bool
  unfolding refilled
  is_idle now l bucket =
      let idle_for = fl.sub now (Option.get_or (lookup bucket.0 l.last_updated) now) in
      if fl.lt idle_for l.idle_eviction_seconds
      then false
      else fl.le (fl.of_ℕ l.capacity) (refilled l bucket.1 idle_for)

  unfoldable pub stale_tenants : F → TokenBucketLimiter F → Dict F → List String
  unfolding is_idle
  stale_tenants now l [] = []
  stale_tenants now l (bucket ∷ buckets) =
      let rest = stale_tenants now l buckets in
      if is_idle now l bucket then bucket.0 ∷ rest else rest

module _ {F : Type 0} where
  -- The second loop of `_evict_idle`, on one of the two dicts.
  unfoldable pub drop_tenants : List String → Dict F → Dict F
  drop_tenants [] d = d
  drop_tenants (tenant ∷ tenants) d = drop_tenants tenants (erase tenant d)

module _ {F : Type 0} ⦃fl : Floats F⦄ where
  unfoldable pub evict_idle : F → TokenBucketLimiter F → TokenBucketLimiter F
  unfolding stale_tenants drop_tenants
  evict_idle now l =
      let stale = stale_tenants now l l.buckets in
      record l {
        buckets = drop_tenants stale l.buckets;
        last_updated = drop_tenants stale l.last_updated;
      }

  -- The count of acquisitions, with a sweep at every 256th.
  unfoldable pub sweep : F → TokenBucketLimiter F → TokenBucketLimiter F
  unfolding evict_idle
  sweep now l =
      let n = l.acquisitions_since_sweep + 1 in
      if leb sweep_interval_acquisitions n
      then evict_idle now (record l { acquisitions_since_sweep = 0 })
      else record l { acquisitions_since_sweep = n }

  -- `if tenant_id not in self.buckets`
  unfoldable pub open_bucket : F → String → TokenBucketLimiter F → TokenBucketLimiter F
  open_bucket now tenant_id l = if contains tenant_id l.buckets then l else record l {
    buckets = insert tenant_id (fl.of_ℕ l.capacity) l.buckets;
    last_updated = insert tenant_id now l.last_updated;
  }

  -- The rest of `acquire`, for a bucket with these tokens.
  unfoldable pub spend : F → String → F → TokenBucketLimiter F → Bool × TokenBucketLimiter F
  spend now tenant_id tokens l =
      if fl.le (fl.decimal 10 1) tokens
      then (
        true,
        record l {
          buckets = insert tenant_id (fl.sub tokens (fl.decimal 10 1)) l.buckets;
          last_updated = insert tenant_id now l.last_updated;
        },
      )
      else (
        false,
        record l {
          buckets = insert tenant_id tokens l.buckets;
          last_updated = insert tenant_id now l.last_updated;
        },
      )

  -- `none` is the KeyError of a bucket without a time.
  unfoldable pub tokens_of : F → String → TokenBucketLimiter F → Option F
  unfolding refilled
  tokens_of now tenant_id l = elim (lookup tenant_id l.last_updated) [
    | none ↦ none
    | some updated ↦ elim (lookup tenant_id l.buckets) [
      | none ↦ none
      | some tokens ↦ some (refilled l tokens (fl.sub now updated))
    ]
  ]

  unfoldable pub draw : F → String → TokenBucketLimiter F → Option Bool × TokenBucketLimiter F
  unfolding open_bucket tokens_of spend
  draw now tenant_id l =
      let l' = open_bucket now tenant_id l in
      elim (tokens_of now tenant_id l') [
        | none ↦ (none, l')
        | some tokens ↦ let (granted, l'') = spend now tenant_id tokens l' in (some granted, l'')
      ]

  unfoldable pub acquire : F → String → TokenBucketLimiter F → Option Bool × TokenBucketLimiter F
  unfolding sweep draw
  acquire now tenant_id l = draw now tenant_id (sweep now l)
