-- ===== src/Canary/Tests.antt =====
-- Runs of the canary checks, and their theorems at concrete inputs. `lower` and `strip` are the
-- identity, which is right for texts in lower case with no space at the ends.
use public_intelligence.Prelude.{
  ℕ, ◌≡◌, refl, String, true, false, List, [], ◌∷◌, ◌++◌, arith, last_items,
}
use public_intelligence.Prelude.Dict.{lookup, insert}
use public_intelligence.Canary.{
  Canary, TextMethods, CanaryVerifier, score, looks_like_an_echo, is_quarantined, update_state,
  record_reply, state_or_new,
}
use public_intelligence.Canary.Words.{words}
use public_intelligence.Canary.Quarantine.{
  Check, Summarises, record_all, results_for, record_all-Summarises,
}
use public_intelligence.Examples.{tenths}

program : Unit {0}
unfolding lookup insert words score looks_like_an_echo is_quarantined update_state record_reply
    record_all last_items
program = tt

instance abbrev same_text : TextMethods
same_text = record { strip = λ s. s; lower = λ s. s }

abbrev sum_canary : Canary
sum_canary = record { prompt = "what is 2 + 2?"; accept = "4" ∷ "four" ∷ [] }

words_of_text : words "it's 4, or four." ≡ "it" ∷ "s" ∷ "4" ∷ "or" ∷ "four" ∷ []
unfolding program
words_of_text = refl

whole_words : (score sum_canary "4." ≡ true) × (score sum_canary "1234" ≡ false)
unfolding program
whole_words = (refl, refl)

echo : looks_like_an_echo tenths sum_canary.prompt "what is 2 2" ≡ true
unfolding program
echo = refl

abbrev check : String → String → Check ℕ
check node_id response = record {
  at = 1;
  node_id = node_id;
  canary = sum_canary;
  response = response;
}

abbrev checks : List (Check ℕ)
checks =
    check "a" "token"
    ∷ check "b" "4"
    ∷ check "a" "what is 2 2"
    ∷ check "a" ""
    ∷ check "b" "five"
    ∷ []

abbrev verifier : CanaryVerifier ℕ
verifier = record { failures_before_quarantine = 3; state = [] }

quarantine :
    (is_quarantined "a" (record_all checks verifier) ≡ true)
    × (is_quarantined "b" (record_all checks verifier) ≡ false)
    × (is_quarantined "a" (record_all (checks ++ (check "a" "four" ∷ [])) verifier) ≡ false)
unfolding program
quarantine = (refl, refl, refl)

verifier-Summarises : Summarises 3 [] (state_or_new (lookup "a" verifier.state))
unfolding program
verifier-Summarises = ground arith

record_all-Summarises_example :
    Summarises 3
      ([] ++ results_for "a" checks)
      (state_or_new (lookup "a" (record_all checks verifier).state))
record_all-Summarises_example =
    record_all-Summarises "a" checks [] verifier (omega arith) verifier-Summarises
