-- ===== src/Mesh/Requests.antt =====
-- What an accepted request has shown, and that it is accepted once.
use Prim.Native.String.{◌++◌ as text_append}
use public_intelligence.Prelude.{
  ◌≡◌, ◌≢◌, refl, ◌∙◌, String, Bool, true, false, Option, none, some, is_truthy, str_eq, arith, ◌⊎◌,
  inl, inr, if◌then◌else◌, eq_iff, Option-cases, Bool-cases,
}
use public_intelligence.Prelude.Dict.{Dict, lookup}
use public_intelligence.Prelude.Float.{Floats}
use public_intelligence.Mesh.Values.{
  Value, truth, number, text, other, object, not_object, Json, Utf8, Hashes, Stamps, MeshError,
  Outcome, returned, raised, MeshInferenceRequest, Fields,
}
use public_intelligence.Mesh.Cache.{NonceCache, claim}
use public_intelligence.Mesh.Nonces.{claim-refused}
use public_intelligence.Mesh.{
  Payload, read_envelope, read_fields, is_stale, text_payload, text_of, number_of, stream_of,
  body_digest, signature, signature_of, request_of, check_envelope, admit, check_request,
  verify_request,
}

pub Outcome-cases :
    {A : Type 0} (o : Outcome A) → ((e : MeshError) × (o ≡ raised e)) ⊎ ((a : A) × (o ≡ returned a))
Outcome-cases (returned a) = inr (a, refl)
Outcome-cases (raised e) = inl (e, refl)

module _ {F : Type 0} ⦃fl : Floats F⦄ where
  -- What is admitted is the request of the fields.
  pub admit-returned :
      (node_id : String) (cache : Option (NonceCache F)) (o : Outcome (Fields F))
      (request : MeshInferenceRequest)
      → (admit node_id cache o).0 ≡ returned request
      → (fields : Fields F) × (o ≡ returned fields) × (request ≡ request_of node_id fields)
  unfolding admit
  admit-returned node_id cache (raised e) request h = cc
  admit-returned node_id none (returned fields) request h = (fields, refl, ground arith)
  admit-returned node_id (some cache) (returned fields) request h =
      elim (Outcome-cases (claim fields.nonce fields.timestamp cache).0) [
        | inl (e, r) ↦ (fields, refl, ground arith)
        | inr (true, r) ↦ (fields, refl, ground arith)
        | inr (false, r) ↦ (fields, refl, ground arith)
      ]

  -- A refusal claims no nonce.
  admit-raised :
      (node_id : String) (cache : Option (NonceCache F)) (o : Outcome (Fields F)) (e : MeshError)
      → (admit node_id cache o).0 ≡ raised e
      → (admit node_id cache o).1 ≡ cache
  unfolding admit
  admit-raised node_id cache (raised e') e h = refl
  admit-raised node_id none (returned fields) e h = refl
  admit-raised node_id (some cache) (returned fields) e h =
      elim (Outcome-cases (claim fields.nonce fields.timestamp cache).0) [
        | inl (e', r) ↦ ground (arith, claim-refused fields.nonce fields.timestamp cache)
        | inr (true, r) ↦ ground arith
        | inr (false, r) ↦ ground (arith, claim-refused fields.nonce fields.timestamp cache)
      ]

module _ {F : Type 0} where
  -- The fields stand in the envelope under their names, with their types.
  pub record Reads (envelope : Dict (Value F)) (fields : Fields F) : Type 0 where
    pub node_id : lookup "node_id" envelope ≡ some (text fields.node_id)
    pub model : lookup "model" envelope ≡ some (text fields.model)
    pub prompt : lookup "prompt" envelope ≡ some (text fields.prompt)
    pub stream :
        (lookup "stream" envelope ≡ some (truth fields.stream))
        ⊎ ((lookup "stream" envelope ≡ none) × (fields.stream ≡ false))
    pub nonce : lookup "nonce" envelope ≡ some (text fields.nonce)
    pub timestamp : lookup "timestamp" envelope ≡ some (number fields.timestamp)
    pub signature : lookup "signature" envelope ≡ some (text fields.signature)

  text_of-some : (v : Option (Value F)) (s : String) → text_of v ≡ some s → v ≡ some (text s)
  text_of-some none s h = cc
  text_of-some (some (truth b)) s h = cc
  text_of-some (some (number x)) s h = cc
  text_of-some (some (text t)) s h = ground arith
  text_of-some (some other) s h = cc

  number_of-some : (v : Option (Value F)) (x : F) → number_of v ≡ some x → v ≡ some (number x)
  number_of-some none x h = cc
  number_of-some (some (truth b)) x h = cc
  number_of-some (some (number y)) x h = ground arith
  number_of-some (some (text t)) x h = cc
  number_of-some (some other) x h = cc

  stream_of-some :
      (v : Option (Value F)) (b : Bool)
      → stream_of v ≡ some b
      → (v ≡ some (truth b)) ⊎ ((v ≡ none) × (b ≡ false))
  stream_of-some none b h = inr (refl, ground arith)
  stream_of-some (some (truth c)) b h = inl (ground arith)
  stream_of-some (some (number y)) b h = absurd (cc)
  stream_of-some (some (text t)) b h = absurd (cc)
  stream_of-some (some other) b h = absurd (cc)

  read_fields-Reads :
      (envelope : Dict (Value F)) (fields : Fields F)
      → read_fields envelope ≡ some fields
      → Reads envelope fields
  unfolding read_fields
  read_fields-Reads envelope fields h = record {
    node_id = text_of-some (lookup "node_id" envelope) fields.node_id (ground arith);
    model = text_of-some (lookup "model" envelope) fields.model (ground arith);
    prompt = text_of-some (lookup "prompt" envelope) fields.prompt (ground arith);
    stream = stream_of-some (lookup "stream" envelope) fields.stream (ground arith);
    nonce = text_of-some (lookup "nonce" envelope) fields.nonce (ground arith);
    timestamp = number_of-some (lookup "timestamp" envelope) fields.timestamp (ground arith);
    signature = text_of-some (lookup "signature" envelope) fields.signature (ground arith);
  }

module _ {F B : Type 0} ⦃j : Json F⦄ ⦃u : Utf8 B⦄ where
  read_envelope-object :
      (payload : Payload B) (envelope : Dict (Value F))
      → read_envelope payload ≡ returned envelope
      → (raw : String) × ((text_payload payload ≡ some raw)
          × (j.loads raw ≡ some (object envelope)))
  unfolding read_envelope
  read_envelope-object payload envelope h = elim (Option-cases (text_payload payload)) [
    | inl e ↦ absurd (ground arith)
    | inr (raw, e) ↦ elim (Option-cases (j.loads raw)) [
      | inl e' ↦ absurd (ground arith)
      | inr (not_object, e') ↦ absurd (ground arith)
      | inr (object d, e') ↦ (raw, (e, e' ∙ (ground arith)))
    ]
  ]

module _ {F B : Type 0} ⦃j : Json F⦄ ⦃u : Utf8 B⦄ where
  -- The fields that a payload claims.
  unfoldable pub fields_in : Payload B → Option (Fields F)
  fields_in payload = elim (read_envelope payload) [
    | raised e ↦ none
    | returned envelope ↦ read_fields envelope
  ]

module _ {F : Type 0} ⦃fl : Floats F⦄ where
  is_stale-false :
      (age : F)
      → is_stale age ≡ false
      → (fl.lt (fl.of_ℕ 30) age ≡ false)
        × (fl.lt (fl.of_ℕ 30) (fl.sub (fl.decimal 0 1) age) ≡ false)
  unfolding is_stale
  is_stale-false age h = (ground arith, ground arith)

module _ {F : Type 0} ⦃hs : Hashes⦄ ⦃st : Stamps F⦄ where
  -- The text that the signature of a request is the digest of.
  abbrev pub signed_text : String → Fields F → String
  signed_text node_id fields =
      let digest = hs.sha256 (
        text_append fields.model (
          text_append "\0"
            (text_append fields.prompt (text_append "\0" (if fields.stream then "1" else "0"))))) in
      text_append node_id (
        text_append "\n" (
          text_append fields.nonce
            (text_append "\n" (text_append (st.fixed fields.timestamp) (text_append "\n" digest)))))

  signature_of-signed_text :
      (token node_id : String) (fields : Fields F)
      → signature_of token node_id fields ≡ hs.hmac token (signed_text node_id fields)
  unfolding signature_of signature body_digest
  signature_of-signed_text token node_id fields = elim (Bool-cases fields.stream) [
    | inl e ↦ simp e
    | inr e ↦ simp e
  ]

module _ {F : Type 0} ⦃fl : Floats F⦄ ⦃hs : Hashes⦄ ⦃st : Stamps F⦄ where
  check_envelope-fresh :
      (node_id token : String) (now : F) (envelope : Dict (Value F)) (fields : Fields F)
      → check_envelope node_id token now envelope ≡ returned fields
      → (read_fields envelope ≡ some fields)
        × (str_eq fields.node_id node_id ≡ true)
        × (is_stale (fl.sub now fields.timestamp) ≡ false)
        × (hs.compare_digest fields.signature (signature_of token node_id fields) ≡ some true)
  unfolding check_envelope
  check_envelope-fresh node_id token now envelope fields h =
      (ground arith, ground arith, ground arith, ground arith)

module _ {F B : Type 0} ⦃fl : Floats F⦄ ⦃hs : Hashes⦄ ⦃st : Stamps F⦄ ⦃j : Json F⦄
    ⦃u : Utf8 B⦄ where
  -- What the checks that read no state establish of the fields of a payload.
  pub record Checked (payload : Payload B) (node_id token : String) (now : F) (fields : Fields F)
      : Type 0 where
    pub configured : is_truthy token ≡ true
    pub claimed : fields_in payload ≡ some fields
    pub envelope : Dict (Value F)
    pub raw : String
    pub loaded : (text_payload payload ≡ some raw) × (j.loads raw ≡ some (object envelope))
    pub reads : Reads envelope fields
    pub addressed : fields.node_id ≡ node_id
    pub fresh :
        (fl.lt (fl.of_ℕ 30) (fl.sub now fields.timestamp) ≡ false)
        × (fl.lt (fl.of_ℕ 30) (fl.sub (fl.decimal 0 1) (fl.sub now fields.timestamp)) ≡ false)
    pub signed :
        hs.compare_digest fields.signature (hs.hmac token (signed_text node_id fields)) ≡ some true

  check_request-envelope :
      (payload : Payload B) (node_id token : String) (now : F) (fields : Fields F)
      → check_request payload node_id (some token) now ≡ returned fields
      → (is_truthy token ≡ true)
        × ((envelope : Dict (Value F)) × (read_envelope payload ≡ returned envelope)
            × (check_envelope node_id token now envelope ≡ returned fields))
  unfolding check_request
  check_request-envelope payload node_id token now fields h =
      elim (Outcome-cases (read_envelope {F = F} payload)) [
        | inl (e, bad) ↦ absurd (ground arith)
        | inr (envelope, found) ↦ (ground arith, (envelope, found, ground arith))
      ]

  pub check_request-Checked :
      (payload : Payload B) (node_id token : String) (now : F) (fields : Fields F)
      → check_request payload node_id (some token) now ≡ returned fields
      → Checked payload node_id token now fields
  unfolding fields_in
  check_request-Checked payload node_id token now fields h =
      let (configured, (envelope, found, checked)) =
        check_request-envelope payload node_id token now fields h in
      let (read, named, fresh, signed) =
        check_envelope-fresh node_id token now envelope fields checked in
      let (raw, loaded) = read_envelope-object payload envelope found in
      record {
        configured = configured;
        claimed = rw (fields_in, found) read;
        envelope = envelope;
        raw = raw;
        loaded = loaded;
        reads = read_fields-Reads envelope fields read;
        addressed = ground (arith, eq_iff fields.node_id node_id);
        fresh = is_stale-false (fl.sub now fields.timestamp) fresh;
        signed = rw (← signature_of-signed_text token node_id fields) signed;
      }

  check_request-none :
      (payload : Payload B) (node_id : String) (now : F) (fields : Fields F)
      → check_request payload node_id none now ≢ returned fields
  unfolding check_request
  check_request-none payload node_id now fields h = cc

  -- A payload that a configured node accepts is a JSON object that holds fields of the right types
  -- under their names. They name the node, their timestamp is at most 30 seconds from the clock, and
  -- their signature compares equal to the HMAC under the node's token of the node, the nonce, the
  -- timestamp and the SHA-256 of the model, the prompt and the stream flag, as joined for it. The
  -- request that is served is theirs.
  pub verify_request-Checked :
      (payload : Payload B) (node_id token : String) (cache : Option (NonceCache F)) (now : F)
      (request : MeshInferenceRequest)
      → (verify_request payload node_id (some token) cache now).0 ≡ returned request
      → (fields : Fields F) × Checked payload node_id token now fields
        × (request ≡ request_of node_id fields)
  unfolding verify_request
  verify_request-Checked payload node_id token cache now request h =
      let (fields, checked, e) =
        admit-returned node_id cache (check_request payload node_id (some token) now) request h in
      (fields, check_request-Checked payload node_id token now fields checked, e)

  -- A payload that is refused, for whatever reason, leaves the nonces as they were.
  pub verify_request-raised :
      (payload : Payload B) (node_id : String) (token : Option String)
      (cache : Option (NonceCache F)) (now : F) (e : MeshError)
      → (verify_request payload node_id token cache now).0 ≡ raised e
      → (verify_request payload node_id token cache now).1 ≡ cache
  unfolding verify_request
  verify_request-raised payload node_id token cache now e h =
      admit-raised node_id cache (check_request payload node_id token now) e h
