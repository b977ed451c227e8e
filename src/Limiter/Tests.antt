-- ===== src/Limiter/Tests.antt =====
-- Runs of the limiter, and its theorems at concrete inputs.
use public_intelligence.Prelude.{
  ℕ, ◌+◌, ◌-◌, ◌*◌, ◌/◌, ltb, ◌≡◌, refl, Bool, true, false, some, [], ◌∷◌, arith,
}
use public_intelligence.Prelude.Dict.{lookup, contains, insert, erase}
use public_intelligence.Limiter.{
  TokenBucketLimiter, refilled, is_idle, stale_tenants, drop_tenants, evict_idle, sweep,
  open_bucket, spend, tokens_of, draw, acquire,
}
use public_intelligence.Limiter.Timed.{IsTimed, acquire-IsTimed}
use public_intelligence.Limiter.Eviction.{Still, acquire-draw}
use public_intelligence.Examples.{tenths, ltb_le}

program : Unit {0}
unfolding lookup contains insert erase refilled is_idle stale_tenants drop_tenants evict_idle sweep
    open_bucket spend tokens_of draw acquire
program = tt

-- The next acquisition sweeps. At time 20, a has refilled and b has not.
abbrev limiter : TokenBucketLimiter ℕ
limiter = record {
  capacity = 2;
  refill_rate = 5;
  idle_eviction_seconds = 100;
  buckets = ("a", 0) ∷ ("b", 0) ∷ [];
  last_updated = ("a", 0) ∷ ("b", 199) ∷ [];
  acquisitions_since_sweep = 255;
}

swept : (acquire 200 "b" limiter).1.buckets ≡ ("b", 0) ∷ []
unfolding program
swept = refl

exhausted : (acquire 200 "b" limiter).0 ≡ some false
unfolding program
exhausted = refl

full_again : (acquire 200 "a" limiter).0 ≡ some true
unfolding program
full_again = refl

stays_full :
    (tokens updated : ℕ)
    → ltb (tokens + (200 - updated) * 5 / 10) 20 ≡ false
    → ltb (tokens + (210 - updated) * 5 / 10) 20 ≡ false
stays_full tokens updated h = ground arith

limiter-Still : Still 200 210 limiter
limiter-Still = record {
  still = refl;
  refills = λ tokens updated h. stays_full tokens updated h;
  lt-le = ltb_le;
}

limiter-IsTimed : IsTimed limiter
unfolding program
limiter-IsTimed = record {
  buckets-IsDict = (refl, (refl, tt));
  times-IsDict = (refl, (refl, tt));
  timed = λ t. ground arith;
}

acquire-draw_example :
    (granted : Bool) × ((acquire 210 "a" (sweep 200 limiter)).0 ≡ some granted)
    × ((draw 210 "a" limiter).0 ≡ some granted)
acquire-draw_example = acquire-draw 200 210 "a" limiter limiter-Still limiter-IsTimed

acquire-IsTimed_example : IsTimed (acquire 200 "a" limiter).1
acquire-IsTimed_example = acquire-IsTimed 200 "a" limiter limiter-IsTimed
