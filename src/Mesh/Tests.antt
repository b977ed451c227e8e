-- ===== src/Mesh/Tests.antt =====
-- Runs of the wire contract, and its theorems at concrete inputs: one text that is JSON, bytes that
-- are texts, and a digest that is the message behind the key.
use Prim.Native.String.{◌++◌ as text_append}
use public_intelligence.Prelude.{
  ℕ, ◌≡◌, ◌≤◌, refl, String, true, false, none, some, eq_refl, ◌&&◌, not, [], ◌∷◌, arith, length,
  str_eq, if◌then◌else◌,
}
use public_intelligence.Prelude.Dict.{Dict, lookup, contains, insert, erase}
use public_intelligence.Mesh.Values.{
  Value, truth, number, text, object, Json, Utf8, Hashes, Stamps, MeshError, stale, type_error,
  bad_signature, returned, raised, Fields,
}
use public_intelligence.Mesh.Cache.{NonceCache, oldest, claim}
use public_intelligence.Mesh.{
  Payload, bytes, read_envelope, read_fields, is_stale, body_digest, signature, signature_of,
  build_request, check_envelope, admit, check_request, encode_request, verify_request, request_of,
}
use public_intelligence.Mesh.Requests.{Checked, verify_request-Checked}
use public_intelligence.Mesh.Replay.{run_requests, run_requests-bounded, verify_request-replay}
use public_intelligence.Mesh.Roundtrip.{Laws, verify_request-encode_request}
use public_intelligence.Examples.{tenths}

program : Unit {0}
unfolding lookup contains insert erase oldest claim read_envelope read_fields is_stale body_digest
    signature signature_of build_request check_envelope admit check_request encode_request
    verify_request run_requests
program = tt

instance abbrev hashes : Hashes
hashes = record {
  sha256 = λ s. s;
  hmac = λ key s. text_append key s;
  compare_digest = λ a b. if str_eq a "é" && not (str_eq a b) then none else some (str_eq a b);
}

instance abbrev stamps : Stamps ℕ
stamps = record { fixed = λ x. "7" }

same_digest :
    (s : String)
    → (if str_eq s "é" && not (str_eq s s) then none else some (str_eq s s)) ≡ some true
same_digest s = rw (eq_refl s) (ground arith)

abbrev sent : Dict (Value ℕ)
sent =
    ("v", number 10)
    ∷ ("node_id", text "a")
    ∷ ("model", text "m")
    ∷ ("prompt", text "p")
    ∷ ("stream", truth false)
    ∷ ("nonce", text "n")
    ∷ ("timestamp", number 700)
    ∷ ("signature", text "ka\nn\n7\nm\0p\00")
    ∷ []

-- A signature that is not ASCII.
abbrev forged : Dict (Value ℕ)
forged = insert "signature" (text "é") sent

instance abbrev json : Json ℕ
json = record {
  loads = λ s.
      if str_eq s "sent"
      then some (object sent)
      else if str_eq s "forged"
      then some (object forged)
      else none;
  dumps = λ d. "sent";
}

instance abbrev utf8 : Utf8 String
utf8 = record { decode = λ s. some s; encode = λ s. s }

sent-built : build_request "a" "m" "p" false "k" 700 "n" ≡ sent
unfolding program
sent-built = refl

abbrev payload : Payload String
payload = bytes "sent"

abbrev forged_payload : Payload String
forged_payload = bytes "forged"

abbrev cache : NonceCache ℕ
cache = record { capacity = 2; seen = ("l", 650) ∷ [] }

abbrev cache_after : NonceCache ℕ
cache_after = record { capacity = 3; seen = ("l", 650) ∷ ("n", 700) ∷ [] }

accepted : verify_request payload "a" (some "k") (some (record cache { capacity = 3 })) 800 ≡ (
  returned (record { node_id = "a"; model = "m"; prompt = "p"; stream = false }),
  some cache_after,
)
unfolding program
accepted = refl

too_late : (verify_request payload "a" (some "k") (some cache) 1001).0 ≡ raised stale
unfolding program
too_late = refl

wrong_key : (verify_request payload "a" (some "other") (some cache) 800).0 ≡ raised bad_signature
unfolding program
wrong_key = refl

-- A NUL in a field moves the border between the model and the prompt.
resplit : body_digest "a" "b\0c" false ≡ body_digest "a\0b" "c" false
unfolding program
resplit = refl

-- A full cache forgets the nonce with the least timestamp.
forgets :
    (claim {F = ℕ} "n" 700 (record { capacity = 2; seen = ("b", 9) ∷ ("c", 8) ∷ [] })).1.seen
    ≡ ("b", 9) ∷ ("n", 700) ∷ []
unfolding program
forgets = refl

-- The comparison of the signatures raises something else than a MeshRequestError.
not_ascii : (verify_request (forged_payload) "a" (some "k") (some cache) 800).0 ≡ raised type_error
unfolding program
not_ascii = refl

accepted_alone :
    (verify_request payload "a" (some "k") (some (record cache { capacity = 3 })) 800).0
    ≡ returned (record { node_id = "a"; model = "m"; prompt = "p"; stream = false })
unfolding program
accepted_alone = refl

verify_request-Checked_example :
    (fields : Fields ℕ) × Checked payload "a" "k" 800 fields
    × (record { node_id = "a"; model = "m"; prompt = "p"; stream = false } ≡ request_of "a" fields)
verify_request-Checked_example =
    verify_request-Checked payload "a" "k" (some (record cache { capacity = 3 })) 800
      (record { node_id = "a"; model = "m"; prompt = "p"; stream = false }) accepted_alone

run_requests-bounded_example :
    length (run_requests "a" (some "k") ((payload, 800) ∷ (payload, 801) ∷ []) cache).seen
    ≤ (run_requests "a" (some "k") ((payload, 800) ∷ (payload, 801) ∷ []) cache).capacity
run_requests-bounded_example =
    run_requests-bounded "a" (some "k") ((payload, 800) ∷ (payload, 801) ∷ []) cache (omega arith)

verify_request-replay_example :
    (e : MeshError) × ((verify_request payload "a"
        (some "k")
        (some (run_requests "a" (some "k") ((forged_payload, 800) ∷ []) cache_after))
        802).0
      ≡ raised e)
verify_request-replay_example =
    verify_request-replay payload "a" "k" (record cache { capacity = 3 }) cache_after 800 802
      (record { node_id = "a"; model = "m"; prompt = "p"; stream = false })
      ((forged_payload, 800) ∷ []) accepted (omega arith)

sent-Laws : Laws tenths hashes json utf8 (build_request "a" "m" "p" false "k" 700 "n")
unfolding program
sent-Laws = record {
  decode-encode = refl;
  loads-dumps = refl;
  compare_digest-hmac = λ key message. same_digest (text_append key message);
  one = refl;
}

fresh_sent : is_stale {F = ℕ} 100 ≡ false
unfolding program
fresh_sent = refl

new_nonce : contains "n" cache.seen ≡ false
unfolding program
new_nonce = refl

verify_request-encode_request_example :
    verify_request {B = String}
      (bytes (encode_request {F = ℕ} "a" "m" "p" false "k" 700 "n"))
      "a"
      (some "k")
      (some cache)
      800
    ≡ (
      returned (record { node_id = "a"; model = "m"; prompt = "p"; stream = false }),
      some (record cache { seen = insert "n" 700 cache.seen }),
    )
verify_request-encode_request_example =
    verify_request-encode_request "a" "m" "p" false "k" 700 "n" sent-Laws 800 cache refl fresh_sent
      new_nonce (omega arith)
