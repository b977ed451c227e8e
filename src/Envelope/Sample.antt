-- ===== src/Envelope/Sample.antt =====
-- One sealed message and parameters that know it: JSON and base64 of this message, and a cipher that
-- hides nothing.
use public_intelligence.Prelude.{ℕ, String, some, [], ◌∷◌, str_eq, if◌then◌else◌}
use public_intelligence.Prelude.Dict.{Dict}
use public_intelligence.Models.{number, Telemetry}
use public_intelligence.Mesh.Values.{Value, object, Json}
use public_intelligence.Envelope.{
  Bytes, Payloads, payload, Ciphers, sealed, seal, purpose_telemetry,
}
use public_intelligence.Examples.{tenths}

abbrev pub body : Telemetry ℕ
body = ("timestamp", number 1000) ∷ []

instance abbrev pub one_payload : Payloads ℕ
one_payload = record { parse = λ bytes. payload body; print = λ telemetry. 7 ∷ [] }

abbrev pub letters : Bytes → String
letters [] = "iv"
letters (b ∷ bytes) = "ct"

instance abbrev pub open_cipher : Ciphers
open_cipher = record {
  utf8 = λ s. [];
  sha256 = λ bytes. bytes;
  b64encode = letters;
  b64decode = λ s. some (if str_eq s "iv" then [] else 7 ∷ []);
  encrypt = λ key iv plaintext aad. plaintext;
  decrypt = λ key iv ciphertext aad. some ciphertext;
}

abbrev pub envelope : Dict (Value ℕ)
envelope = sealed body "a" "secret" purpose_telemetry []

instance abbrev pub one_json : Json ℕ
one_json = record { loads = λ s. some (object envelope); dumps = λ d. "sealed" }

abbrev pub raw : String
raw = seal body "a" "secret" purpose_telemetry []
