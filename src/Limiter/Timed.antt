-- ===== src/Limiter/Timed.antt =====
-- The two dicts of the limiter have the same tenants.
use public_intelligence.Prelude.{
  ℕ, ◌+◌, ◌≡◌, refl, String, false, none, List, [], ◌∷◌, leb, if◌then◌else◌, arith, eq_iff,
  Bool-cases, Option-cases, inl, inr,
}
use public_intelligence.Prelude.Dict.{
  Dict, IsDict, lookup, contains, insert, erase, lookup-erase, erase-IsDict, insert-IsDict,
  contains-insert,
}
use public_intelligence.Prelude.Float.{Floats}
use public_intelligence.Canary.Words.{is_member}
use public_intelligence.Limiter.{
  TokenBucketLimiter, stale_tenants, drop_tenants, evict_idle, open_bucket, spend, tokens_of, draw,
  acquire, sweep, sweep_interval_acquisitions,
}

module _ {F : Type 0} where
  pub lookup-drop_tenants :
      (t : String) (ts : List String) (d : Dict F)
      → IsDict d
      → lookup t (drop_tenants ts d) ≡ (if is_member t ts then none else lookup t d)
  unfolding drop_tenants
  lookup-drop_tenants t [] d h = refl
  lookup-drop_tenants t (s ∷ ts) d h = ground (
    arith,
    lookup-drop_tenants t ts (erase s d) (erase-IsDict s d h),
    lookup-erase s t d h,
    eq_iff s t,
    eq_iff t s,
  )

module _ {F : Type 0} where
  -- A bucket of the dict has a time, and no tenant stands twice.
  pub record IsTimed (l : TokenBucketLimiter F) : Type 0 where
    pub buckets-IsDict : IsDict l.buckets
    pub times-IsDict : IsDict l.last_updated
    pub timed : (t : String) → contains t l.last_updated ≡ contains t l.buckets

  drop_tenants-IsDict : (ts : List String) (d : Dict F) → IsDict d → IsDict (drop_tenants ts d)
  unfolding drop_tenants
  drop_tenants-IsDict [] d h = h
  drop_tenants-IsDict (t ∷ ts) d h = drop_tenants-IsDict ts (erase t d) (erase-IsDict t d h)

  contains-drop_tenants :
      (t : String) (ts : List String) (d : Dict F)
      → IsDict d
      → contains t (drop_tenants ts d) ≡ (if is_member t ts then false else contains t d)
  unfolding contains
  contains-drop_tenants t ts d h = ground (arith, lookup-drop_tenants t ts d h)

  -- A tenant gets a bucket and a time together.
  IsTimed-insert :
      (t : String) (tokens now : F) (l : TokenBucketLimiter F)
      → IsTimed l
      → IsTimed (record l {
        buckets = insert t tokens l.buckets;
        last_updated = insert t now l.last_updated;
      })
  IsTimed-insert t tokens now l w = record {
    buckets-IsDict = insert-IsDict t tokens l.buckets w.buckets-IsDict;
    times-IsDict = insert-IsDict t now l.last_updated w.times-IsDict;
    timed = λ u. ground (
      arith,
      contains-insert t u tokens l.buckets,
      contains-insert t u now l.last_updated,
      w.timed u,
    );
  }

  IsTimed-count :
      (n : ℕ) (l : TokenBucketLimiter F)
      → IsTimed l
      → IsTimed (record l { acquisitions_since_sweep = n })
  IsTimed-count n l w = record {
    buckets-IsDict = w.buckets-IsDict;
    times-IsDict = w.times-IsDict;
    timed = w.timed;
  }

module _ {F : Type 0} ⦃fl : Floats F⦄ where
  evict_idle-IsTimed : (now : F) (l : TokenBucketLimiter F) → IsTimed l → IsTimed (evict_idle now l)
  unfolding evict_idle
  evict_idle-IsTimed now l w =
      let stale = stale_tenants now l l.buckets in
      record {
        buckets-IsDict = drop_tenants-IsDict stale l.buckets w.buckets-IsDict;
        times-IsDict = drop_tenants-IsDict stale l.last_updated w.times-IsDict;
        timed = λ t. ground (
          arith,
          contains-drop_tenants t stale l.buckets w.buckets-IsDict,
          contains-drop_tenants t stale l.last_updated w.times-IsDict,
          w.timed t,
        );
      }

  pub sweep-IsTimed : (now : F) (l : TokenBucketLimiter F) → IsTimed l → IsTimed (sweep now l)
  unfolding sweep
  sweep-IsTimed now l w =
      let n = l.acquisitions_since_sweep + 1 in
      elim (Bool-cases (leb sweep_interval_acquisitions n)) [
        | inl full ↦ rw full (
            evict_idle-IsTimed now (record l { acquisitions_since_sweep = 0 })
              (IsTimed-count 0 l w))
        | inr below ↦ rw below (IsTimed-count n l w)
      ]

  open_bucket-IsTimed :
      (now : F) (t : String) (l : TokenBucketLimiter F) → IsTimed l → IsTimed (open_bucket now t l)
  unfolding open_bucket
  open_bucket-IsTimed now t l w = elim (Bool-cases (contains t l.buckets)) [
    | inl there ↦ rw there w
    | inr new ↦ rw new (IsTimed-insert t (fl.of_ℕ l.capacity) now l w)
  ]

  spend-IsTimed :
      (now : F) (t : String) (tokens : F) (l : TokenBucketLimiter F)
      → IsTimed l
      → IsTimed (spend now t tokens l).1
  unfolding spend
  spend-IsTimed now t tokens l w = elim (Bool-cases (fl.le (fl.decimal 10 1) tokens)) [
    | inl enough ↦ rw enough (IsTimed-insert t (fl.sub tokens (fl.decimal 10 1)) now l w)
    | inr few ↦ rw few (IsTimed-insert t tokens now l w)
  ]

  draw-IsTimed :
      (now : F) (t : String) (l : TokenBucketLimiter F) → IsTimed l → IsTimed (draw now t l).1
  unfolding draw
  draw-IsTimed now t l w =
      let w' = open_bucket-IsTimed now t l w in
      elim (Option-cases (tokens_of now t (open_bucket now t l))) [
        | inl missing ↦ rw (draw, missing) w'
        | inr (tokens, e) ↦ rw (draw, e) (spend-IsTimed now t tokens (open_bucket now t l) w')
      ]

  -- Whoever acquires, and whether it sweeps or not, each tenant with a bucket keeps exactly one
  -- bucket and one time, and no time is kept without a bucket.
  pub acquire-IsTimed :
      (now : F) (t : String) (l : TokenBucketLimiter F) → IsTimed l → IsTimed (acquire now t l).1
  unfolding acquire
  acquire-IsTimed now t l w = draw-IsTimed now t (sweep now l) (sweep-IsTimed now l w)
