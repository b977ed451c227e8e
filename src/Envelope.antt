-- ===== src/Envelope.antt =====
-- Authenticated envelopes (packages/shared/src/pi_shared/mesh_auth.py). AES-GCM, SHA-256, base64 and
-- JSON are parameters. A value of a payload is a number or a text.
pub mod Opening
pub mod Sample
mod Tests
use Prim.Native.String.{◌++◌ as text_append}
use public_intelligence.Prelude.{
  ℕ, ◌++◌, String, Bool, true, false, not, Option, none, some, List, [], ◌∷◌, str_eq, if◌then◌else◌,
}
use public_intelligence.Prelude.Dict.{Dict, lookup}
use public_intelligence.Prelude.Except.{Except, done, failed, ◌>>=◌, ◌>>◌, check, or_fail}
use public_intelligence.Prelude.Float.{Floats}
use public_intelligence.Models.{Telemetry}
use public_intelligence.Mesh.Values.{Value, number, text, Loaded, object, not_object, Json}
use public_intelligence.Mesh.{text_of, is_version}

-- The causes of a MeshAuthError. `not_utf8` is the UnicodeDecodeError of a plaintext that is no
-- text, which `json.loads` raises and `open_envelope` does not catch.
pub data AuthError : Type 0 where
  not_json not_an_object wrong_version missing_field other_node unverified : AuthError
  payload_not_json payload_not_object not_utf8 : AuthError

-- What `json.loads` makes of a plaintext.
pub data Parsed (F : Type 0) : Type 0 where
  payload : Telemetry F → Parsed F
  no_object no_json no_text : Parsed F

-- Bytes as Python has them.
abbrev pub Bytes : Type 0
Bytes = List ℕ

-- `json.loads` of bytes, and `json.dumps(payload).encode("utf-8")`.
pub record Payloads (F : Type 0) : Type 0 where
  pub parse : Bytes → Parsed F
  pub print : Telemetry F → Bytes

-- hashlib, base64 and `AESGCM`. `b64decode` has `none` for its ValueError, and `decrypt` for an
-- InvalidTag or a ValueError.
pub record Ciphers : Type 0 where
  pub utf8 : String → Bytes
  pub sha256 : Bytes → Bytes
  pub b64encode : Bytes → String
  pub b64decode : String → Option Bytes
  pub encrypt : Bytes → Bytes → Bytes → Bytes → Bytes
  pub decrypt : Bytes → Bytes → Bytes → Bytes → Option Bytes

abbrev pub purpose_telemetry : String
purpose_telemetry = "telemetry"

abbrev pub purpose_heartbeat : String
purpose_heartbeat = "heartbeat"

-- `f"public-intelligence|mesh|v{ENVELOPE_VERSION}|{purpose}"`
abbrev context : String → String
context purpose = text_append "public-intelligence|mesh|v1|" purpose

module _ ⦃ci : Ciphers⦄ where
  -- 124 is `|`.
  unfoldable pub derive_key : String → String → Bytes
  derive_key token purpose = ci.sha256 (ci.utf8 token ++ (124 ∷ ci.utf8 (context purpose)))

  unfoldable pub associated_data : String → String → Bytes
  associated_data node_id purpose =
      ci.utf8 (text_append (context purpose) (text_append "|" node_id))

  -- The two decodings and the decryption, which raise alike.
  unfoldable pub decrypted : String → String → String → String → String → Option Bytes
  decrypted iv_b64 ct_b64 node_id token purpose = elim (ci.b64decode iv_b64) [
    | none ↦ none
    | some iv ↦ elim (ci.b64decode ct_b64) [
      | none ↦ none
      | some ciphertext ↦
          ci.decrypt (derive_key token purpose) iv ciphertext (associated_data node_id purpose)
    ]
  ]

module _ {F : Type 0} ⦃fl : Floats F⦄ ⦃ci : Ciphers⦄ ⦃pl : Payloads F⦄ where
  -- The object that `seal` prints, with the bytes of `os.urandom` given.
  unfoldable pub sealed : Telemetry F → String → String → String → Bytes → Dict (Value F)
  unfolding derive_key associated_data
  sealed body node_id token purpose iv =
      let key = derive_key token purpose in
      let ciphertext = ci.encrypt key iv (pl.print body) (associated_data node_id purpose) in
      ("v", number (fl.of_ℕ 1))
      ∷ ("node_id", text node_id)
      ∷ ("iv", text (ci.b64encode iv))
      ∷ ("ciphertext", text (ci.b64encode ciphertext))
      ∷ []

  unfoldable pub seal : ⦃j : Json F⦄ → Telemetry F → String → String → String → Bytes → String
  unfolding sealed
  seal ⦃j⦄ body node_id token purpose iv = j.dumps (sealed body node_id token purpose iv)

module _ {F : Type 0} where
  abbrev pub as_object : Loaded F → Except AuthError (Dict (Value F))
  as_object (object envelope) = done envelope
  as_object not_object = failed not_an_object

  abbrev pub as_payload : Parsed F → Except AuthError (Telemetry F)
  as_payload (payload body) = done body
  as_payload no_object = failed payload_not_object
  as_payload no_json = failed payload_not_json
  as_payload no_text = failed not_utf8

  -- `envelope.get("node_id") == node_id`
  abbrev pub names : Option (Value F) → String → Bool
  names (some (text s)) node_id = str_eq s node_id
  names _ node_id = false

module _ {F : Type 0} ⦃fl : Floats F⦄ ⦃ci : Ciphers⦄ ⦃pl : Payloads F⦄ where
  unfoldable pub open_envelope :
      ⦃j : Json F⦄ → String → String → String → String → Except AuthError (Telemetry F)
  unfolding decrypted
  open_envelope ⦃j⦄ raw node_id token purpose = do
    loaded ← or_fail (j.loads raw) not_json
    envelope ← as_object loaded
    check (is_version (lookup "v" envelope)) wrong_version
    iv_b64 ← or_fail (text_of (lookup "iv" envelope)) missing_field
    ct_b64 ← or_fail (text_of (lookup "ciphertext" envelope)) missing_field
    check (names (lookup "node_id" envelope) node_id) other_node
    plaintext ← or_fail (decrypted iv_b64 ct_b64 node_id token purpose) unverified
    as_payload (pl.parse plaintext)
