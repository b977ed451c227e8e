-- ===== src/Mesh/Roundtrip.antt =====
-- What the Scheduler builds, the addressed node accepts.
use public_intelligence.Prelude.{
  ◌≡◌, ◌<◌, refl, String, Bool, true, false, some, length, is_truthy, arith, eq_refl,
}
use public_intelligence.Prelude.Dict.{Dict, lookup, contains, insert}
use public_intelligence.Prelude.Float.{Floats}
use public_intelligence.Mesh.Values.{
  Value, number, object, Json, Utf8, Hashes, Stamps, returned, Fields,
}
use public_intelligence.Mesh.Cache.{NonceCache, claim}
use public_intelligence.Mesh.{
  bytes, read_envelope, read_fields, is_stale, body_digest, signature, signature_of, build_request,
  check_envelope, admit, check_request, encode_request, verify_request,
}

-- What the libraries promise of an envelope that is sent: its bytes decode to what was encoded, a
-- digest compares equal to itself, and so does 1.
pub record Laws {F B : Type 0} (fl : Floats F) (hs : Hashes) (j : Json F) (u : Utf8 B)
    (envelope : Dict (Value F)) : Type 0 where
  pub decode-encode : u.decode (u.encode (j.dumps envelope)) ≡ some (j.dumps envelope)
  pub loads-dumps : j.loads (j.dumps envelope) ≡ some (object envelope)
  pub compare_digest-hmac :
      (key message : String)
      → hs.compare_digest (hs.hmac key message) (hs.hmac key message) ≡ some true
  pub one : fl.eq (fl.of_ℕ 1) (fl.of_ℕ 1) ≡ true

module _ {F B : Type 0} ⦃fl : Floats F⦄ ⦃hs : Hashes⦄ ⦃st : Stamps F⦄ ⦃j : Json F⦄ ⦃u : Utf8 B⦄
    (node_id model prompt : String) (stream : Bool) (token : String) (timestamp : F)
    (nonce : String)
    (laws : Laws fl hs j u (build_request node_id model prompt stream token timestamp nonce)) where
  abbrev sent : Dict (Value F)
  sent = build_request node_id model prompt stream token timestamp nonce

  abbrev pub sent_fields : Fields F
  sent_fields = record {
    node_id = node_id;
    model = model;
    prompt = prompt;
    stream = stream;
    nonce = nonce;
    timestamp = timestamp;
    signature = signature token node_id nonce timestamp (body_digest model prompt stream);
  }

  read_sent : read_envelope (bytes (u.encode (j.dumps sent))) ≡ returned sent
  unfolding read_envelope
  read_sent = rw (laws.decode-encode, laws.loads-dumps)

  version_sent : lookup "v" sent ≡ some (number (fl.of_ℕ 1))
  unfolding build_request lookup
  version_sent = refl

  fields_sent : read_fields sent ≡ some sent_fields
  unfolding build_request read_fields lookup
  fields_sent = refl

  signed_sent :
      hs.compare_digest sent_fields.signature (signature_of token node_id sent_fields) ≡ some true
  unfolding signature_of signature
  signed_sent = laws.compare_digest-hmac token _

  check_sent :
      (now : F)
      → is_truthy token ≡ true
      → is_stale (fl.sub now timestamp) ≡ false
      → check_request (bytes (u.encode (j.dumps sent))) node_id (some token) now
        ≡ returned sent_fields
  unfolding check_request check_envelope
  check_sent now configured fresh = rw (
    configured,
    read_sent,
    version_sent,
    laws.one,
    fields_sent,
    eq_refl node_id,
    fresh,
    signed_sent,
  )

  -- A request that is built with the token of a node, verified by that node with that token in the
  -- freshness window, and whose nonce is new to a cache with room, is accepted as it was sent, and
  -- its nonce is the only thing that the cache gains.
  pub verify_request-encode_request :
      (now : F) (cache : NonceCache F)
      → is_truthy token ≡ true
      → is_stale (fl.sub now timestamp) ≡ false
      → contains nonce cache.seen ≡ false
      → length cache.seen < cache.capacity
      → verify_request {B = B}
          (bytes (encode_request node_id model prompt stream token timestamp nonce))
          node_id
          (some token)
          (some cache)
          now
        ≡ (
          returned (record { node_id = node_id; model = model; prompt = prompt; stream = stream }),
          some (record cache { seen = insert nonce timestamp cache.seen }),
        )
  unfolding verify_request encode_request admit claim
  verify_request-encode_request now cache configured fresh new room =
      rw (check_sent now configured fresh) (ground arith)
