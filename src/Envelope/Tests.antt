-- ===== src/Envelope/Tests.antt =====
-- Runs of the envelopes, and their theorems at concrete inputs. The cipher of the tests puts the key
-- and the associated data in front of the plaintext, and decrypts only what starts with them.
use public_intelligence.Prelude.{
  ℕ, ◌≡◌, refl, String, ◌==◌, Option, some, none, [], ◌∷◌, ◌++◌, str_eq, if◌then◌else◌, arith,
}
use public_intelligence.Prelude.Dict.{Dict, lookup}
use public_intelligence.Prelude.Except.{done, failed}
use public_intelligence.Mesh.Values.{Value, object, Json}
use public_intelligence.Envelope.{
  other_node, unverified, Bytes, Ciphers, derive_key, associated_data, sealed, seal, decrypted,
  open_envelope, purpose_telemetry, purpose_heartbeat,
}
use public_intelligence.Envelope.Opening.{IsSealed, open_envelope-seal, open_envelope-IsSealed}
use public_intelligence.Envelope.Sample.{body, one_payload, letters}
use public_intelligence.Examples.{tenths}

-- What stands behind a prefix.
behind_prefix : Bytes → Bytes → Option Bytes
behind_prefix [] bytes = some bytes
behind_prefix (x ∷ prefix) [] = none
behind_prefix (x ∷ prefix) (y ∷ bytes) =
    let rest = behind_prefix prefix bytes in if x == y then rest else none

program : Unit {0}
unfolding lookup derive_key associated_data sealed seal decrypted open_envelope behind_prefix
program = tt

behind_prefix-append : (xs ys : Bytes) → behind_prefix xs (xs ++ ys) ≡ some ys
unfolding behind_prefix
behind_prefix-append [] ys = refl
behind_prefix-append (x ∷ xs) ys = ground (arith, behind_prefix-append xs ys)

-- The bytes of the texts of the sample.
abbrev byte_of : String → ℕ
byte_of s =
    if str_eq s "secret"
    then 1
    else if str_eq s "public-intelligence|mesh|v1|telemetry"
    then 2
    else if str_eq s "public-intelligence|mesh|v1|telemetry|a"
    then 3
    else 4

instance abbrev keyed_cipher : Ciphers
keyed_cipher = record {
  utf8 = λ s. byte_of s ∷ [];
  sha256 = λ bytes. bytes;
  b64encode = letters;
  b64decode = λ s. some (if str_eq s "iv" then [] else 1 ∷ 124 ∷ 2 ∷ 3 ∷ 7 ∷ []);
  encrypt = λ key iv plaintext aad. (key ++ aad) ++ plaintext;
  decrypt = λ key iv ciphertext aad. behind_prefix (key ++ aad) ciphertext;
}

abbrev envelope : Dict (Value ℕ)
envelope = sealed body "a" "secret" purpose_telemetry []

instance abbrev sealed_json : Json ℕ
sealed_json = record { loads = λ s. some (object envelope); dumps = λ d. "sealed" }

abbrev raw : String
raw = seal body "a" "secret" purpose_telemetry []

-- On the topic of another node the envelope is refused.
for_other : open_envelope {F = ℕ} raw "b" "secret" purpose_telemetry ≡ failed other_node
unfolding program
for_other = refl

-- Under another token, or for another purpose, it does not decrypt.
other_token : open_envelope {F = ℕ} raw "a" "guess" purpose_telemetry ≡ failed unverified
unfolding program
other_token = refl

other_purpose : open_envelope {F = ℕ} raw "a" "secret" purpose_heartbeat ≡ failed unverified
unfolding program
other_purpose = refl

opened : open_envelope raw "a" "secret" purpose_telemetry ≡ done body
unfolding program
opened = refl

open_envelope-seal_example : open_envelope raw "a" "secret" purpose_telemetry ≡ done body
unfolding program
open_envelope-seal_example = open_envelope-seal body "a" "secret" purpose_telemetry [] (record {
  loads-dumps = refl;
  parse-print = refl;
  iv_decodes = refl;
  ciphertext_decodes = refl;
  decrypt-encrypt = λ key iv plaintext aad. behind_prefix-append (key ++ aad) plaintext;
  one = refl;
})

open_envelope-IsSealed_example : IsSealed raw "a" "secret" purpose_telemetry body
open_envelope-IsSealed_example =
    open_envelope-IsSealed raw "a" "secret" purpose_telemetry body opened
