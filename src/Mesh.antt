-- ===== src/Mesh.antt =====
-- The wire contract of inference over the mesh (packages/shared/src/pi_shared/mesh_protocol.py).
-- UTF-8, JSON, hashlib, hmac and the format of a timestamp are the parameters of Mesh/Values. A
-- number of JSON is one that fits a float, and a text has no lone surrogates, so that UTF-8 encodes
-- it.
pub mod Values
pub mod Cache
pub mod Nonces
pub mod Requests
pub mod Replay
pub mod Roundtrip
mod Tests
use Prim.Native.String.{◌++◌ as text_append}
use public_intelligence.Prelude.{
  String, Bool, true, false, not, ◌||◌, Option, none, some, [], ◌∷◌, is_truthy, str_eq,
  if◌then◌else◌,
}
use public_intelligence.Prelude.Dict.{Dict, lookup}
use public_intelligence.Prelude.Float.{Floats}
use public_intelligence.Mesh.Values.{
  Value, truth, number, text, Loaded, object, not_object, Json, Utf8, Hashes, Stamps, MeshError,
  not_configured, malformed, unsupported_version, other_node, stale, bad_signature, used_nonce,
  type_error, Outcome, returned, raised, ◌>>=◌, ◌>>◌, guard, or_raise, MeshInferenceRequest, Fields,
}
use public_intelligence.Mesh.Cache.{NonceCache, claim}

abbrev stream_digit : Bool → String
stream_digit true = "1"
stream_digit false = "0"

module _ ⦃hs : Hashes⦄ where
  unfoldable pub body_digest : String → String → Bool → String
  body_digest model prompt stream = hs.sha256 (
      text_append model
        (text_append "\0" (text_append prompt (text_append "\0" (stream_digit stream)))))

module _ {F : Type 0} ⦃hs : Hashes⦄ ⦃st : Stamps F⦄ where
  unfoldable pub signature : String → String → String → F → String → String
  signature token node_id nonce timestamp digest = hs.hmac token (
      text_append node_id (
        text_append "\n" (
          text_append nonce
            (text_append "\n" (text_append (st.fixed timestamp) (text_append "\n" digest))))))

  unfoldable pub signature_of : String → String → Fields F → String
  unfolding signature body_digest
  signature_of token node_id fields =
      signature token node_id fields.nonce fields.timestamp
        (body_digest fields.model fields.prompt fields.stream)

  -- `build_request`, with the timestamp and the nonce given.
  unfoldable pub build_request :
      ⦃fl : Floats F⦄ → String → String → String → Bool → String → F → String → Dict (Value F)
  unfolding signature body_digest
  build_request ⦃fl⦄ node_id model prompt stream token timestamp nonce =
      ("v", number (fl.of_ℕ 1))
      ∷ ("node_id", text node_id)
      ∷ ("model", text model)
      ∷ ("prompt", text prompt)
      ∷ ("stream", truth stream)
      ∷ ("nonce", text nonce)
      ∷ ("timestamp", number timestamp)
      ∷ (
        "signature",
        text (signature token node_id nonce timestamp (body_digest model prompt stream)),
      )
      ∷ []

module _ {F : Type 0} where
  abbrev pub text_of : Option (Value F) → Option String
  text_of (some (text s)) = some s
  text_of _ = none

  abbrev pub number_of : Option (Value F) → Option F
  number_of (some (number x)) = some x
  number_of _ = none

  -- `envelope.get("stream", False)`
  abbrev pub stream_of : Option (Value F) → Option Bool
  stream_of none = some false
  stream_of (some (truth b)) = some b
  stream_of (some _) = none

  -- The checks of the types.
  unfoldable pub read_fields : Dict (Value F) → Option (Fields F)
  read_fields envelope = elim (text_of (lookup "node_id" envelope)) [
    | none ↦ none
    | some node_id ↦ elim (text_of (lookup "model" envelope)) [
      | none ↦ none
      | some model ↦ elim (text_of (lookup "prompt" envelope)) [
        | none ↦ none
        | some prompt ↦ elim (stream_of (lookup "stream" envelope)) [
          | none ↦ none
          | some stream ↦ elim (text_of (lookup "nonce" envelope)) [
            | none ↦ none
            | some nonce ↦ elim (number_of (lookup "timestamp" envelope)) [
              | none ↦ none
              | some timestamp ↦ elim (text_of (lookup "signature" envelope)) [
                | none ↦ none
                | some signature ↦ some (record {
                  node_id = node_id;
                  model = model;
                  prompt = prompt;
                  stream = stream;
                  nonce = nonce;
                  timestamp = timestamp;
                  signature = signature;
                })
              ]
            ]
          ]
        ]
      ]
    ]
  ]

-- A payload is bytes or a text.
pub data Payload (B : Type 0) : Type 0 where
  bytes : B → Payload B
  plain : String → Payload B

module _ {B : Type 0} ⦃u : Utf8 B⦄ where
  abbrev pub text_payload : Payload B → Option String
  text_payload (bytes b) = u.decode b
  text_payload (plain s) = some s

module _ {F : Type 0} where
  abbrev envelope_of : Loaded F → Outcome (Dict (Value F))
  envelope_of (object d) = returned d
  envelope_of not_object = raised malformed

module _ {F B : Type 0} ⦃j : Json F⦄ ⦃u : Utf8 B⦄ where
  unfoldable pub read_envelope : Payload B → Outcome (Dict (Value F))
  read_envelope payload = do
    s ← or_raise (text_payload payload) malformed
    loaded ← or_raise (j.loads s) malformed
    envelope_of loaded

module _ {F : Type 0} ⦃fl : Floats F⦄ where
  -- `version == 1`, which Python says of `True` too.
  abbrev pub is_version : Option (Value F) → Bool
  is_version (some (number x)) = fl.eq x (fl.of_ℕ 1)
  is_version (some (truth b)) = b
  is_version _ = false

  -- `abs(age) > 30.0`
  unfoldable pub is_stale : F → Bool
  is_stale age = fl.lt (fl.of_ℕ 30) age || fl.lt (fl.of_ℕ 30) (fl.sub (fl.decimal 0 1) age)

-- `if not token`
abbrev secret : Option String → Outcome String
secret none = raised not_configured
secret (some token) = if is_truthy token then returned token else raised not_configured

abbrev pub request_of : {F : Type 0} → String → Fields F → MeshInferenceRequest
request_of node_id fields = record {
  node_id = node_id;
  model = fields.model;
  prompt = fields.prompt;
  stream = fields.stream;
}

module _ {F : Type 0} ⦃fl : Floats F⦄ ⦃hs : Hashes⦄ ⦃st : Stamps F⦄ where
  -- The checks behind the parsing, up to the nonce.
  unfoldable pub check_envelope : String → String → F → Dict (Value F) → Outcome (Fields F)
  unfolding is_stale signature_of
  check_envelope node_id token now envelope = do
    guard (is_version (lookup "v" envelope)) unsupported_version
    fields ← or_raise (read_fields envelope) malformed
    guard (str_eq fields.node_id node_id) other_node
    guard (not (is_stale (fl.sub now fields.timestamp))) stale
    valid ←
        or_raise (hs.compare_digest fields.signature (signature_of token node_id fields)) type_error
    guard valid bad_signature
    returned fields

module _ {F : Type 0} where
  abbrev admitted :
      MeshInferenceRequest
      → Outcome Bool × NonceCache F
      → Outcome MeshInferenceRequest × Option (NonceCache F)
  admitted request (raised e, cache) = (raised e, some cache)
  admitted request (returned false, cache) = (raised used_nonce, some cache)
  admitted request (returned true, cache) = (returned request, some cache)

module _ {F : Type 0} ⦃fl : Floats F⦄ where
  -- The nonce is claimed last, and only where there is a cache.
  unfoldable pub admit :
      String
      → Option (NonceCache F)
      → Outcome (Fields F)
      → Outcome MeshInferenceRequest × Option (NonceCache F)
  unfolding claim
  admit node_id cache (raised e) = (raised e, cache)
  admit node_id none (returned fields) = (returned (request_of node_id fields), none)
  admit node_id (some cache) (returned fields) =
      admitted (request_of node_id fields) (claim fields.nonce fields.timestamp cache)

module _ {F B : Type 0} ⦃fl : Floats F⦄ ⦃hs : Hashes⦄ ⦃st : Stamps F⦄ ⦃j : Json F⦄
    ⦃u : Utf8 B⦄ where
  -- `encode_request`
  unfoldable pub encode_request : String → String → String → Bool → String → F → String → B
  unfolding build_request
  encode_request node_id model prompt stream token timestamp nonce =
      u.encode (j.dumps (build_request node_id model prompt stream token timestamp nonce))

  -- The checks that read no state.
  unfoldable pub check_request : Payload B → String → Option String → F → Outcome (Fields F)
  unfolding read_envelope check_envelope
  check_request payload node_id token now = do
    key ← secret token
    envelope ← read_envelope payload
    check_envelope node_id key now envelope

  unfoldable pub verify_request :
      Payload B
      → String
      → Option String
      → Option (NonceCache F)
      → F
      → Outcome MeshInferenceRequest × Option (NonceCache F)
  unfolding check_request admit
  verify_request payload node_id token cache now =
      admit node_id cache (check_request payload node_id token now)
