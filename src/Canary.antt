-- ===== src/Canary.antt =====
-- Canary checks (packages/scheduler/src/scheduler/core/canary.py). `strip` and `lower` stand for
-- the text methods of Python, which go by tables of Unicode.
pub mod Words
pub mod Quarantine
mod Tests
use public_intelligence.Prelude.{
  ℕ, ◌+◌, ◌≡◌, String, Bool, true, false, not, ◌&&◌, ◌||◌, Option, none, some, List, [], ◌∷◌, ◌++◌,
  leb, ◌==◌, length, keep, last_items, str_eq, is_truthy, is_nonempty, if◌then◌else◌,
}
use public_intelligence.Prelude.Dict.{Dict, lookup, insert, erase}
use public_intelligence.Prelude.Float.{Floats}
use public_intelligence.Canary.Words.{words, is_member}

pub record Canary : Type 0 where
  pub prompt : String
  pub accept : List String

-- The canaries that are sent.
abbrev pub canaries : List Canary
canaries =
    record {
      prompt = "What is the capital of France? Answer with one word.";
      accept = "paris" ∷ [];
    }
    ∷ record { prompt = "What is 2 + 2? Answer with one number."; accept = "4" ∷ "four" ∷ [] }
    ∷ record { prompt = "Complete: the opposite of hot is ___. One word."; accept = "cold" ∷ [] }
    ∷ record { prompt = "What colour is the clear daytime sky? One word."; accept = "blue" ∷ [] }
    ∷ []

-- The standard library's methods of a text.
pub record TextMethods : Type 0 where
  pub strip : String → String
  pub lower : String → String

module _ ⦃t : TextMethods⦄ where
  abbrev pub any_term : List String → List String → Bool
  any_term [] found = false
  any_term (term ∷ terms) found = is_member (t.lower term) found || any_term terms found

  unfoldable pub score : Canary → String → Bool
  score canary response =
      if not (is_truthy response) || not (is_truthy (t.strip response))
      then false
      else any_term canary.accept (words (t.lower response))

  -- More than 0.8 of the response's words stand in the prompt.
  unfoldable pub looks_like_an_echo : {F : Type 0} → Floats F → String → String → Bool
  looks_like_an_echo fl prompt response =
      let prompt_words = words (t.lower prompt) in
      let response_words = words (t.lower response) in
      let overlap = length (keep (λ w. is_member w prompt_words) response_words) in
      if not (is_truthy response)
      then false
      else if not (is_nonempty response_words)
      then false
      else fl.lt (fl.decimal 8 1) (fl.div (fl.of_ℕ overlap) (fl.of_ℕ (length response_words)))

  -- `score(canary, response) and not echoed`
  abbrev pub passes_check : {F : Type 0} → Floats F → Canary → String → Bool
  passes_check fl canary response =
      score canary response && not (looks_like_an_echo fl canary.prompt response)

pub record NodeCanaryState (F : Type 0) : Type 0 where
  pub consecutive_failures : ℕ
  pub passes : ℕ
  pub failures : ℕ
  pub quarantined : Bool
  pub last_checked_at : F
  pub last_detail : String
  pub history : List Bool

abbrev pub max_history : ℕ
max_history = 50

-- `failures_before_quarantine or 3`: none, and 0, mean the default.
unfoldable pub threshold_of : Option ℕ → ℕ
threshold_of none = 3
threshold_of (some n) = if n == 0 then 3 else n

pub record CanaryVerifier (F : Type 0) : Type 0 where
  pub failures_before_quarantine : ℕ
  pub state : Dict (NodeCanaryState F)

module _ {F : Type 0} where
  unfoldable pub is_quarantined : String → CanaryVerifier F → Bool
  is_quarantined node_id v = elim (lookup node_id v.state) [
    | none ↦ false
    | some state ↦ state.quarantined
  ]

  unfoldable pub forget : String → CanaryVerifier F → CanaryVerifier F
  forget node_id v = record v { state = erase node_id v.state }

module _ {F : Type 0} ⦃fl : Floats F⦄ where
  abbrev pub new_state : NodeCanaryState F
  new_state = record {
    consecutive_failures = 0;
    passes = 0;
    failures = 0;
    quarantined = false;
    last_checked_at = fl.decimal 0 1;
    last_detail = "";
    history = [];
  }

  abbrev pub state_or_new : Option (NodeCanaryState F) → NodeCanaryState F
  state_or_new none = new_state
  state_or_new (some state) = state

  -- What `record` does to the state of the node once the reply is scored.
  unfoldable pub update_state : ℕ → F → Bool → Bool → NodeCanaryState F → NodeCanaryState F
  update_state threshold now passed echoed state =
      let history = last_items max_history (state.history ++ (passed ∷ [])) in
      if passed
      then record {
        consecutive_failures = 0;
        passes = state.passes + 1;
        failures = state.failures;
        quarantined = false;
        last_checked_at = now;
        last_detail = "ok";
        history = history;
      }
      else record {
        consecutive_failures = state.consecutive_failures + 1;
        passes = state.passes;
        failures = state.failures + 1;
        quarantined =
            if leb threshold (state.consecutive_failures + 1) && not state.quarantined
            then true
            else state.quarantined;
        last_checked_at = now;
        last_detail = if echoed then "echoed the prompt" else "wrong or empty answer";
        history = history;
      }

  module _ ⦃t : TextMethods⦄ where
    -- `record`
    unfoldable pub record_reply :
        F → String → Canary → String → CanaryVerifier F → Bool × CanaryVerifier F
    unfolding update_state
    record_reply now node_id canary response v =
        let echoed = looks_like_an_echo fl canary.prompt response in
        let passed = passes_check fl canary response in
        let state = state_or_new (lookup node_id v.state) in
        (
          passed,
          record v {
            state =
                insert node_id (update_state v.failures_before_quarantine now passed echoed state)
                  v.state;
          },
        )
