-- ===== src/Limiter/Eviction.antt =====
-- A sweep is invisible to every tenant.

use public_intelligence.Prelude.{
  ℕ, ◌+◌, leb, ◌≡◌, refl, sym, ap, ◌∙◌, String, Bool, true, false, Option, none, some, [], ◌∷◌,
  if◌then◌else◌, arith, eq_iff, eq_refl, Option-cases, Bool-cases, inl, inr,
}
use public_intelligence.Prelude.Dict.{
  Dict, IsDict, lookup, contains, insert, lookup-insert, contains_of_some,
}
use public_intelligence.Prelude.Float.{Floats}
use public_intelligence.Limiter.Timed.{IsTimed, sweep-IsTimed, lookup-drop_tenants}
use public_intelligence.Canary.Words.{is_member}
use public_intelligence.Limiter.{
  TokenBucketLimiter, refilled, is_idle, stale_tenants, drop_tenants, evict_idle, open_bucket,
  spend, tokens_of, draw, acquire, sweep, sweep_interval_acquisitions,
}

module _ {F : Type 0} ⦃fl : Floats F⦄ where
  -- Whether the tenant has a bucket that is stale.
  abbrev idle_bucket : F → TokenBucketLimiter F → String → Option F → Bool
  idle_bucket now l t none = false
  idle_bucket now l t (some tokens) = is_idle now l (t, tokens)

  is_member-stale_tenants :
      (t : String) (now : F) (l : TokenBucketLimiter F) (d : Dict F)
      → IsDict d
      → is_member t (stale_tenants now l d) ≡ idle_bucket now l t (lookup t d)
  unfolding stale_tenants lookup
  is_member-stale_tenants t now l [] h = refl
  is_member-stale_tenants t now l (e ∷ d) h =
      ground (arith, is_member-stale_tenants t now l d h.1, eq_iff e.0 t, eq_iff t e.0)

  -- The limiter with a new bucket for the tenant.
  abbrev opened : F → String → TokenBucketLimiter F → TokenBucketLimiter F
  opened now t l = record l {
    buckets = insert t (fl.of_ℕ l.capacity) l.buckets;
    last_updated = insert t now l.last_updated;
  }

  open_bucket-new :
      (now : F) (t : String) (l : TokenBucketLimiter F)
      → contains t l.buckets ≡ false
      → open_bucket now t l ≡ opened now t l
  unfolding open_bucket
  open_bucket-new now t l h = rw h

  open_bucket-same :
      (now : F) (t : String) (l : TokenBucketLimiter F)
      → contains t l.buckets ≡ true
      → open_bucket now t l ≡ l
  unfolding open_bucket
  open_bucket-same now t l h = rw h

  tokens_of-some :
      (now : F) (t : String) (l : TokenBucketLimiter F) (tokens updated : F)
      → lookup t l.buckets ≡ some tokens
      → lookup t l.last_updated ≡ some updated
      → tokens_of now t l ≡ some (refilled l tokens (fl.sub now updated))
  unfolding tokens_of
  tokens_of-some now t l tokens updated h k = ground arith

  contains_of_none : (t : String) (d : Dict F) → lookup t d ≡ none → contains t d ≡ false
  unfolding contains
  contains_of_none t d h = rw (contains, h)

  lookup-insert_self : (t : String) (x : F) (d : Dict F) → lookup t (insert t x d) ≡ some x
  lookup-insert_self t x d = ground (arith, lookup-insert t t x d, eq_refl t)

  tokens_fresh :
      (now : F) (t : String) (l : TokenBucketLimiter F)
      → lookup t l.buckets ≡ none
      → tokens_of now t (open_bucket now t l)
        ≡ some (refilled l (fl.of_ℕ l.capacity) (fl.sub now now))
  unfolding refilled
  tokens_fresh now t l h = rw (open_bucket-new now t l (contains_of_none t l.buckets h)) (
      tokens_of-some now t (opened now t l) (fl.of_ℕ l.capacity) now
        (lookup-insert_self t (fl.of_ℕ l.capacity) l.buckets)
        (lookup-insert_self t now l.last_updated))

  tokens_kept :
      (now : F) (t : String) (l : TokenBucketLimiter F) (tokens updated : F)
      → lookup t l.buckets ≡ some tokens
      → lookup t l.last_updated ≡ some updated
      → tokens_of now t (open_bucket now t l) ≡ some (refilled l tokens (fl.sub now updated))
  tokens_kept now t l tokens updated h k =
      rw (open_bucket-same now t l (contains_of_some t l.buckets h))
        (tokens_of-some now t l tokens updated h k)

  -- What the floats promise from a time to a later one: no tokens are refilled in no time, what is
  -- not below the capacity then is not below it later, and less is not at most.
  pub record Still (now later : F) (l : TokenBucketLimiter F) : Type 0 where
    pub still :
        fl.add (fl.of_ℕ l.capacity) (fl.mul (fl.sub later later) l.refill_rate) ≡ fl.of_ℕ l.capacity
    pub refills :
        (tokens updated : F)
        → fl.lt (fl.add tokens (fl.mul (fl.sub now updated) l.refill_rate)) (fl.of_ℕ l.capacity)
          ≡ false
        → fl.lt (fl.add tokens (fl.mul (fl.sub later updated) l.refill_rate)) (fl.of_ℕ l.capacity)
          ≡ false
    pub lt-le : (a b : F) → fl.lt a b ≡ true → fl.le b a ≡ false

  tokens_idle :
      (now later : F) (t : String) (l : TokenBucketLimiter F) (tokens updated : F)
      → Still now later l
      → lookup t l.last_updated ≡ some updated
      → is_idle now l (t, tokens) ≡ true
      → refilled l tokens (fl.sub later updated)
        ≡ refilled l (fl.of_ℕ l.capacity) (fl.sub later later)
  unfolding is_idle refilled
  tokens_idle now later t l tokens updated laws k h =
      let sum = fl.add tokens (fl.mul (fl.sub now updated) l.refill_rate) in
      let cap = fl.of_ℕ l.capacity in
      let full : fl.lt sum cap ≡ false = ground (arith, laws.lt-le sum cap) in
      let still_full = laws.refills tokens updated full in
      ground (arith, laws.still, laws.lt-le cap cap)

  lookup_time :
      (t : String) (l : TokenBucketLimiter F) (tokens : F)
      → IsTimed l
      → lookup t l.buckets ≡ some tokens
      → (updated : F) × (lookup t l.last_updated ≡ some updated)
  unfolding contains
  lookup_time t l tokens w h = elim (Option-cases (lookup t l.last_updated)) [
    | inl e ↦ absurd (ground (arith, w.timed t))
    | inr (updated, e) ↦ (updated, e)
  ]

  evicted_bucket :
      (now : F) (t : String) (l : TokenBucketLimiter F) (d : Dict F)
      → IsTimed l
      → IsDict d
      → lookup t (drop_tenants (stale_tenants now l l.buckets) d)
        ≡ (if idle_bucket now l t (lookup t l.buckets) then none else lookup t d)
  evicted_bucket now t l d w h =
      lookup-drop_tenants t (stale_tenants now l l.buckets) d h
      ∙ rw (is_member-stale_tenants t now l l.buckets w.buckets-IsDict)

  draw-tokens :
      (now : F) (t : String) (l : TokenBucketLimiter F) (tokens : F)
      → tokens_of now t (open_bucket now t l) ≡ some tokens
      → (draw now t l).0 ≡ some (fl.le (fl.decimal 10 1) tokens)
  unfolding draw spend
  draw-tokens now t l tokens h = ground arith

  -- The tokens that a tenant has at a later time are those that it has after a sweep now.
  tokens_evicted :
      (now later : F) (t : String) (l : TokenBucketLimiter F)
      → Still now later l
      → IsTimed l
      → (tokens : F) × (tokens_of later t (open_bucket later t l) ≡ some tokens)
        × (tokens_of later t (open_bucket later t (evict_idle now l)) ≡ some tokens)
  unfolding evict_idle
  tokens_evicted now later t l laws w =
      let stale = stale_tenants now l l.buckets in
      let l' : TokenBucketLimiter F = record l {
        buckets = drop_tenants stale l.buckets;
        last_updated = drop_tenants stale l.last_updated;
      } in
      let here = evicted_bucket now t l l.buckets w w.buckets-IsDict in
      let there = evicted_bucket now t l l.last_updated w w.times-IsDict in
      let at_once = fl.sub later later in
      elim (Option-cases (lookup t l.buckets)) [
        | inl e ↦ (
          refilled l (fl.of_ℕ l.capacity) at_once,
          tokens_fresh later t l e,
          unfold refilled in (tokens_fresh later t l' (here ∙ rw e)),
        )
        | inr (tokens, e) ↦
            let (updated, k) = lookup_time t l tokens w e in
            elim (Bool-cases (is_idle now l (t, tokens))) [
              | inl idle ↦ (
                refilled l (fl.of_ℕ l.capacity) at_once,
                tokens_kept later t l tokens updated e k
                    ∙ ap some (tokens_idle now later t l tokens updated laws k idle),
                unfold refilled in (tokens_fresh later t l' (here ∙ rw (e, idle))),
              )
              | inr used ↦ (
                refilled l tokens (fl.sub later updated),
                tokens_kept later t l tokens updated e k,
                unfold refilled in
                    (tokens_kept later t l' tokens updated (here ∙ rw (e, used))
                      (there ∙ rw (e, used) k)),
              )
            ]
      ]

  -- A sweep changes no later decision.
  draw-evict_idle :
      (now later : F) (t : String) (l : TokenBucketLimiter F)
      → Still now later l
      → IsTimed l
      → (draw later t (evict_idle now l)).0 ≡ (draw later t l).0
  draw-evict_idle now later t l laws w =
      let (tokens, before, after) = tokens_evicted now later t l laws w in
      draw-tokens later t (evict_idle now l) tokens after
      ∙ sym (draw-tokens later t l tokens before)

  draw-count :
      (now : F) (t : String) (l : TokenBucketLimiter F) (n : ℕ)
      → (draw now t (record l { acquisitions_since_sweep = n })).0 ≡ (draw now t l).0
  unfolding draw open_bucket tokens_of spend refilled
  draw-count now t l n = elim (Bool-cases (contains t l.buckets)) [
    | inl there ↦ ground arith
    | inr new ↦ ground arith
  ]

  draw-sweep :
      (now later : F) (t : String) (l : TokenBucketLimiter F)
      → Still now later l
      → IsTimed l
      → (draw later t (sweep now l)).0 ≡ (draw later t l).0
  unfolding sweep
  draw-sweep now later t l laws w =
      let n = l.acquisitions_since_sweep + 1 in
      let swept : TokenBucketLimiter F = record l { acquisitions_since_sweep = 0 } in
      let laws' : Still now later swept = record {
        still = laws.still;
        refills = laws.refills;
        lt-le = laws.lt-le;
      } in
      let w' : IsTimed swept = record {
        buckets-IsDict = w.buckets-IsDict;
        times-IsDict = w.times-IsDict;
        timed = w.timed;
      } in
      elim (Bool-cases (leb sweep_interval_acquisitions n)) [
        | inl full ↦ rw full (draw-evict_idle now later t swept laws' w' ∙ draw-count later t l 0)
        | inr below ↦ rw below (draw-count later t l n)
      ]

  -- The laws hold of the limiter after a sweep, from the later time on.
  Still-sweep :
      (now later : F) (l : TokenBucketLimiter F)
      → Still now later l
      → Still later later (sweep now l)
  unfolding sweep evict_idle
  Still-sweep now later l laws =
      elim (Bool-cases (leb sweep_interval_acquisitions (l.acquisitions_since_sweep + 1))) [
        | inl full ↦
            rw full
              (record { still = laws.still; refills = λ tokens updated h. h; lt-le = laws.lt-le })
        | inr below ↦
            rw below
              (record { still = laws.still; refills = λ tokens updated h. h; lt-le = laws.lt-le })
      ]

  -- Where a full bucket stays full and no tokens are refilled in no time, sweeps make no difference
  -- to a tenant: after a sweep, a call of `acquire` at a later time or the same, which may sweep
  -- again, answers as an acquisition without any sweep would; and it answers, without a KeyError.
  pub acquire-draw :
      (now later : F) (t : String) (l : TokenBucketLimiter F)
      → Still now later l
      → IsTimed l
      → (granted : Bool) × ((acquire later t (sweep now l)).0 ≡ some granted)
        × ((draw later t l).0 ≡ some granted)
  unfolding acquire
  acquire-draw now later t l laws w =
      let (tokens, before, after) = tokens_evicted now later t l laws w in
      let answer = draw-tokens later t l tokens before in
      let again =
        draw-sweep later later t (sweep now l) (Still-sweep now later l laws)
          (sweep-IsTimed now l w) in
      (fl.le (fl.decimal 10 1) tokens, again ∙ (draw-sweep now later t l laws w ∙ answer), answer)
