-- ===== src/Mesh/Replay.antt =====
-- Any sequence of payloads at one node, and what it can do with a payload that was accepted before.
use mathlib.Core.Option
use public_intelligence.Prelude.{
  suc, ◌+◌, ◌≡◌, ◌≤◌, refl, ap, String, true, false, Option, some, List, [], ◌∷◌, length, arith,
  inl, inr,
}
use public_intelligence.Prelude.Dict.{contains}
use public_intelligence.Prelude.Float.{Floats}
use public_intelligence.Mesh.Values.{
  Json, Utf8, Hashes, Stamps, MeshError, used_nonce, Outcome, returned, raised,
  MeshInferenceRequest, Fields,
}
use public_intelligence.Mesh.Cache.{NonceCache, claim}
use public_intelligence.Mesh.Nonces.{claim-bounded, claim-room, claim-used, claim-claimed}
use public_intelligence.Mesh.Requests.{Outcome-cases, check_request-Checked, admit-returned}
use public_intelligence.Mesh.{Payload, admit, check_request, verify_request}

module _ {F : Type 0} ⦃fl : Floats F⦄ where
  -- The cache behind an admission.
  abbrev cache_after : String → NonceCache F → Outcome (Fields F) → NonceCache F
  cache_after node_id c o = Option.get_or (admit node_id (some c) o).1 c

  cache_after-returned :
      (node_id : String) (c : NonceCache F) (fields : Fields F)
      → cache_after node_id c (returned fields) ≡ (claim fields.nonce fields.timestamp c).1
  unfolding admit
  cache_after-returned node_id c fields =
      elim (Outcome-cases (claim fields.nonce fields.timestamp c).0) [
        | inl (e', r) ↦ ground arith
        | inr (true, r) ↦ ground arith
        | inr (false, r) ↦ ground arith
      ]

  cache_after-raised :
      (node_id : String) (c : NonceCache F) (e : MeshError) → cache_after node_id c (raised e) ≡ c
  unfolding admit
  cache_after-raised node_id c e = refl

  cache_after-bounded :
      (node_id : String) (c : NonceCache F) (o : Outcome (Fields F))
      → length c.seen ≤ c.capacity
      → length (cache_after node_id c o).seen ≤ (cache_after node_id c o).capacity
  cache_after-bounded node_id c (raised e) h = rw (cache_after-raised node_id c e) h
  cache_after-bounded node_id c (returned fields) h =
      rw (cache_after-returned node_id c fields) (claim-bounded fields.nonce fields.timestamp c h)

  -- With room left, no nonce is forgotten.
  cache_after-room :
      (n node_id : String) (c : NonceCache F) (o : Outcome (Fields F))
      → suc (length c.seen) ≤ c.capacity
      → contains n c.seen ≡ true
      → (contains n (cache_after node_id c o).seen ≡ true)
        × (length (cache_after node_id c o).seen ≤ suc (length c.seen))
        × ((cache_after node_id c o).capacity ≡ c.capacity)
  cache_after-room n node_id c (raised e) h k =
      rw (cache_after-raised node_id c e) (k, omega arith, refl)
  cache_after-room n node_id c (returned fields) h k =
      rw (cache_after-returned node_id c fields) (claim-room n fields.nonce fields.timestamp c h k)

  -- Fields with a used nonce are refused.
  admit-used :
      (node_id : String) (c : NonceCache F) (o : Outcome (Fields F)) (n : String)
      → ((fields : Fields F) → o ≡ returned fields → fields.nonce ≡ n)
      → contains n c.seen ≡ true
      → (e : MeshError) × ((admit node_id (some c) o).0 ≡ raised e)
  unfolding admit
  admit-used node_id c (raised e) n h k = (e, refl)
  admit-used node_id c (returned fields) n h k =
      (used_nonce, ground (arith, h fields refl, claim-used fields.nonce fields.timestamp c))

module _ {F : Type 0} ⦃fl : Floats F⦄ where
  admitted_nonce :
      (node_id : String) (fields : Fields F) (c c' : NonceCache F) (request : MeshInferenceRequest)
      → admit node_id (some c) (returned fields) ≡ (returned request, some c')
      → contains fields.nonce c'.seen ≡ true
  unfolding admit
  admitted_nonce node_id fields c c' request h =
      elim (Outcome-cases (claim fields.nonce fields.timestamp c).0) [
        | inl (e', r) ↦ ground arith
        | inr (true, r) ↦ ground (arith, claim-claimed fields.nonce fields.timestamp c r)
        | inr (false, r) ↦ ground arith
      ]

module _ {F B : Type 0} ⦃fl : Floats F⦄ ⦃hs : Hashes⦄ ⦃st : Stamps F⦄ ⦃j : Json F⦄
    ⦃u : Utf8 B⦄ where
  -- The payloads that arrive, each with the time of its arrival.
  unfoldable pub run_requests :
      String → Option String → List (Payload B × F) → NonceCache F → NonceCache F
  run_requests node_id token [] c = c
  run_requests node_id token (arrival ∷ arrivals) c =
      run_requests node_id token arrivals
        (Option.get_or (verify_request arrival.0 node_id token (some c) arrival.1).1 c)

  -- However many payloads arrive, the cache holds at most as many nonces as its capacity.
  pub run_requests-bounded :
      (node_id : String) (token : Option String) (arrivals : List (Payload B × F))
      (c : NonceCache F)
      → length c.seen ≤ c.capacity
      → let c' = run_requests node_id token arrivals c in length c'.seen ≤ c'.capacity
  unfolding run_requests verify_request
  run_requests-bounded node_id token [] c h = h
  run_requests-bounded node_id token (arrival ∷ arrivals) c h =
      let o = check_request arrival.0 node_id token arrival.1 in
      run_requests-bounded node_id token arrivals (cache_after node_id c o)
        (cache_after-bounded node_id c o h)

  run_requests-room :
      (n node_id : String) (token : Option String) (arrivals : List (Payload B × F))
      (c : NonceCache F)
      → length c.seen + length arrivals ≤ c.capacity
      → contains n c.seen ≡ true
      → contains n (run_requests node_id token arrivals c).seen ≡ true
  unfolding run_requests verify_request
  run_requests-room n node_id token [] c h k = k
  run_requests-room n node_id token (arrival ∷ arrivals) c h k =
      let o = check_request arrival.0 node_id token arrival.1 in
      let (kept, longer, same) = cache_after-room n node_id c o (omega arith) k in
      run_requests-room n node_id token arrivals (cache_after node_id c o) (omega arith) kept

  -- An accepted payload leaves its nonce in the cache.
  accepted_nonce :
      (payload : Payload B) (node_id : String) (token : Option String) (c c' : NonceCache F)
      (now : F) (request : MeshInferenceRequest)
      → verify_request payload node_id token (some c) now ≡ (returned request, some c')
      → (fields : Fields F) × (check_request payload node_id token now ≡ returned fields)
        × (contains fields.nonce c'.seen ≡ true)
  unfolding verify_request
  accepted_nonce payload node_id token c c' now request h =
      let (fields, checked, e) =
        admit-returned node_id (some c) (check_request payload node_id token now) request
          (ap (λ r. r.0) h) in
      (fields, checked, admitted_nonce node_id fields c c' request (rw checked at h))

  -- A payload that was accepted is refused whenever it comes again, as long as the nonces that the
  -- cache held just after the acceptance and the payloads that arrived since then are together at
  -- most as many as its capacity.
  pub verify_request-replay :
      (payload : Payload B) (node_id token : String) (c c' : NonceCache F) (now later : F)
      (request : MeshInferenceRequest) (arrivals : List (Payload B × F))
      → verify_request payload node_id (some token) (some c) now ≡ (returned request, some c')
      → length c'.seen + length arrivals ≤ c'.capacity
      → (e : MeshError) × ((verify_request payload node_id
            (some token)
            (some (run_requests node_id (some token) arrivals c'))
            later).0
          ≡ raised e)
  unfolding verify_request
  verify_request-replay payload node_id token c c' now later request arrivals h room =
      let (fields, checked, held) =
        accepted_nonce payload node_id (some token) c c' now request h in
      let claimed = (check_request-Checked payload node_id token now fields checked).claimed in
      admit-used node_id (run_requests node_id (some token) arrivals c')
        (check_request payload node_id (some token) later) fields.nonce
        (λ again e.
          let claimed' = (check_request-Checked payload node_id token later again e).claimed in
          ground (arith, claimed, claimed'))
        (run_requests-room fields.nonce node_id (some token) arrivals c' room held)
