-- ===== src/Mesh/Nonces.antt =====
-- A nonce is claimed once, as long as the cache has room.
use public_intelligence.Prelude.{
  suc, ◌≡◌, ◌≢◌, ◌≤◌, String, true, false, some, [], ◌∷◌, length, arith, eq_iff, Bool-cases,
  Option-cases, inl, inr,
}
use public_intelligence.Prelude.Dict.{Dict, contains, insert, erase, lookup, contains-insert}
use public_intelligence.Prelude.Float.{Floats}
use public_intelligence.Mesh.Values.{returned}
use public_intelligence.Mesh.Cache.{NonceCache, oldest, evict, claim}

module _ {F : Type 0} where
  length-insert-le : (k : String) (v : F) (d : Dict F) → length (insert k v d) ≤ suc (length d)
  unfolding insert
  length-insert-le k v [] = omega arith
  length-insert-le k v (e ∷ d) = ground (arith, length-insert-le k v d)

  length-erase :
      (k : String) (d : Dict F) → contains k d ≡ true → suc (length (erase k d)) ≡ length d
  unfolding contains lookup erase
  length-erase k [] h = cc
  length-erase k (e ∷ d) h = ground (arith, length-erase k d)

module _ {F : Type 0} ⦃fl : Floats F⦄ where
  oldest-less :
      (e x : String × F) (d : Dict F) → fl.lt x.1 e.1 ≡ true → oldest e (x ∷ d) ≡ oldest x d
  unfolding oldest
  oldest-less e x d h = rw h

  oldest-kept :
      (e x : String × F) (d : Dict F) → fl.lt x.1 e.1 ≡ false → oldest e (x ∷ d) ≡ oldest e d
  unfolding oldest
  oldest-kept e x d h = rw h

  contains-later :
      (k : String) (e x : String × F) (d : Dict F)
      → contains k (e ∷ d) ≡ true
      → contains k (e ∷ x ∷ d) ≡ true
  unfolding contains lookup
  contains-later k e x d h = ground arith

  contains-behind :
      (k : String) (e : String × F) (d : Dict F) → contains k d ≡ true → contains k (e ∷ d) ≡ true
  unfolding contains lookup
  contains-behind k e d h = ground arith

  contains-first : (e : String × F) (d : Dict F) → contains e.0 (e ∷ d) ≡ true
  unfolding contains lookup
  contains-first e d = ground (arith, eq_iff e.0 e.0)

  -- The oldest entry is one of the dict.
  contains-oldest : (e : String × F) (d : Dict F) → contains (oldest e d).0 (e ∷ d) ≡ true
  contains-oldest e [] = unfold oldest in contains-first e []
  contains-oldest e (x ∷ d) = elim (Bool-cases (fl.lt x.1 e.1)) [
    | inl less ↦
        rw (oldest-less e x d less) (contains-behind (oldest x d).0 e (x ∷ d) (contains-oldest x d))
    | inr more ↦
        rw (oldest-kept e x d more) (contains-later (oldest e d).0 e x d (contains-oldest e d))
  ]

  length-evict : (d rest : Dict F) → evict d ≡ some rest → suc (length rest) ≡ length d
  length-evict [] rest h = cc
  length-evict (e ∷ d) rest h =
      ground (arith, length-erase (oldest e d).0 (e ∷ d) (contains-oldest e d))

  -- The cache holds at most as many nonces as its capacity.
  pub claim-bounded :
      (nonce : String) (timestamp : F) (c : NonceCache F)
      → length c.seen ≤ c.capacity
      → let c' = (claim nonce timestamp c).1 in length c'.seen ≤ c'.capacity
  unfolding claim
  claim-bounded nonce timestamp c h = elim (Option-cases (evict c.seen)) [
    | inl e ↦ ground (arith, length-insert-le nonce timestamp c.seen)
    | inr (rest, e) ↦ ground (
      arith,
      length-insert-le nonce timestamp c.seen,
      length-insert-le nonce timestamp rest,
      length-evict c.seen rest e,
    )
  ]

  -- With room left, a claim forgets no nonce, and adds at most one.
  pub claim-room :
      (n nonce : String) (timestamp : F) (c : NonceCache F)
      → suc (length c.seen) ≤ c.capacity
      → contains n c.seen ≡ true
      → let c' = (claim nonce timestamp c).1 in
        (contains n c'.seen ≡ true)
        × (length c'.seen ≤ suc (length c.seen))
        × (c'.capacity ≡ c.capacity)
  unfolding claim
  claim-room n nonce timestamp c h k =
      ground
        (arith, contains-insert nonce n timestamp c.seen, length-insert-le nonce timestamp c.seen)

  -- A nonce that the cache holds is not claimed again.
  pub claim-used :
      (nonce : String) (timestamp : F) (c : NonceCache F)
      → contains nonce c.seen ≡ true
      → claim nonce timestamp c ≡ (returned false, c)
  unfolding claim
  claim-used nonce timestamp c h = rw h

  -- A claim that succeeds puts the nonce into the cache.
  pub claim-claimed :
      (nonce : String) (timestamp : F) (c : NonceCache F)
      → (claim nonce timestamp c).0 ≡ returned true
      → contains nonce (claim nonce timestamp c).1.seen ≡ true
  unfolding claim
  claim-claimed nonce timestamp c h = elim (Option-cases (evict c.seen)) [
    | inl e ↦ ground (arith, contains-insert nonce nonce timestamp c.seen, eq_iff nonce nonce)
    | inr (rest, e) ↦ ground (
      arith,
      contains-insert nonce nonce timestamp c.seen,
      contains-insert nonce nonce timestamp rest,
      eq_iff nonce nonce,
    )
  ]

  -- A claim that does not succeed leaves the cache as it was.
  pub claim-refused :
      (nonce : String) (timestamp : F) (c : NonceCache F)
      → (claim nonce timestamp c).0 ≢ returned true
      → (claim nonce timestamp c).1 ≡ c
  unfolding claim
  claim-refused nonce timestamp c h = elim (Option-cases (evict c.seen)) [
    | inl e ↦ ground arith
    | inr (rest, e) ↦ ground arith
  ]
