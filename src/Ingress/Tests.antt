-- ===== src/Ingress/Tests.antt =====
-- Runs of the check of tokens, and its theorems at concrete inputs.

use public_intelligence.Prelude.{◌≡◌, refl, String, true, Option, some, none, str_eq, if◌then◌else◌}
use public_intelligence.Prelude.Dict.{Dict}
use public_intelligence.Prelude.Except.{done, failed}
use public_intelligence.Router.Topics.{split, part_at}
use public_intelligence.Stream.Server.{starts_with}
use public_intelligence.Ingress.{
  Jwt, IngressError, verification_keys, try_keys, decode_with_any, verify_jwt,
}
use public_intelligence.Ingress.Keys.{
  any_of, is_present, verifies, IsConfigured, is_present-decode_with_any, verify_jwt-verified,
}

program : Unit {0}
unfolding split part_at starts_with verification_keys try_keys decode_with_any verify_jwt
program = tt

-- A token verifies under the key that it repeats, and its header names the other one.
instance abbrev repeating : Jwt String
repeating = record {
  header_kid = λ token. some "secondary";
  decode = λ token key. if str_eq token key then some token else none;
  tenant_of = λ claims. some "tenant";
}

accepted :
    verify_jwt {C = String} (some "k1") (some "k2") (some "Bearer k1") ≡ done ("k1", "tenant")
unfolding program
accepted = refl

abbrev forged : Option String
forged = some "Bearer k3"

refused :
    verify_jwt {C = String} (some "k1") (some "k2") forged ≡ failed IngressError.unauthorized_401
unfolding program
refused = refl

no_keys :
    verify_jwt {C = String} none (some "") (some "Bearer ") ≡ failed IngressError.unauthorized_401
unfolding program
no_keys = refl

abbrev keys : Dict String
keys = verification_keys (some "k1") (some "k2")

is_present-decode_with_any_example :
    is_present (decode_with_any {C = String} "k1" keys)
    ≡ any_of (verifies repeating.decode "k1") keys
is_present-decode_with_any_example = is_present-decode_with_any String "k1" keys

verify_jwt-verified_example :
    (header : String) × (token : String) × (key : String) × (some "Bearer k1" ≡ some header)
    × (starts_with "Bearer " header ≡ true)
    × (part_at 1 (split b' ' header) ≡ some token)
    × IsConfigured key (some "k1") (some "k2")
    × (repeating.decode token key ≡ some "k1")
    × (repeating.tenant_of "k1" ≡ some "tenant")
verify_jwt-verified_example =
    verify_jwt-verified (some "k1") (some "k2") (some "Bearer k1") "k1" "tenant" accepted
