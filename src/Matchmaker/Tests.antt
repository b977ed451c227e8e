-- ===== src/Matchmaker/Tests.antt =====
-- Runs of the matchmaker, and its theorems at concrete inputs. No text is a number, so a text of
-- telemetry fails the ranking.
use public_intelligence.Prelude.{
  ℕ, ◌≡◌, refl, true, false, some, none, List, [], ◌∷◌, not, keep, map,
}
use mathlib.Core.Option
use mathlib.Core.List.{Perm}
use public_intelligence.Prelude.Dict.{lookup, contains, insert, erase, update}
use public_intelligence.Models.{Node, number, text}
use public_intelligence.Registry.{Registry, new_registry, register}
use public_intelligence.Canary.{TextMethods, CanaryVerifier, is_quarantined}
use public_intelligence.Matchmaker.{
  FloatTexts, Task, supports_model, has_vram, has_backend, filter_nodes, fitness_score, score_list,
  insert_scored, sort_scored, score_nodes,
}
use public_intelligence.Matchmaker.Ranking.{
  AreScored, AreOwnScores, IsRanked, filter_nodes-quarantine, score_nodes-IsRanked,
}
use public_intelligence.Examples.{tenths, tenths-FloatOrder, plain, node_a, node_b}

program : Unit {0}
unfolding lookup contains insert erase update register is_quarantined supports_model has_vram
    has_backend filter_nodes fitness_score score_list insert_scored sort_scored score_nodes
program = tt

instance abbrev no_texts : FloatTexts ℕ
no_texts = record { parse = λ _. none; print = λ _. "0" }

instance abbrev same_text : TextMethods
same_text = record { strip = λ s. s; lower = λ s. s }

abbrev three : List (Node ℕ)
three = node_a ∷ node_b ∷ record node_a { node_id = "c" } ∷ []

abbrev registry : Registry ℕ (Node ℕ)
registry = record (new_registry none) {
  telemetry =
      ("a", ("reliability", number 9) ∷ ("backend_type", text "vllm") ∷ [])
      ∷ ("c", ("backend_type", text "vllm") ∷ [])
      ∷ [];
}

abbrev verifier : CanaryVerifier ℕ
verifier = record {
  failures_before_quarantine = 1;
  state =
      (
        "c",
        record {
          consecutive_failures = 1;
          passes = 0;
          failures = 1;
          quarantined = true;
          last_checked_at = 1;
          last_detail = "wrong";
          history = false ∷ [];
        },
      )
      ∷ [];
}

abbrev task : Task ℕ
task = record {
  model_name = some "";
  model = some "m";
  min_vram_gb = none;
  vram = some 50;
  backend_type = some "vllm";
}

eligible : filter_nodes registry (some verifier) task three ≡ node_a ∷ []
unfolding program
eligible = refl

-- Node c has no reliability in its telemetry, which counts as 1.
ranked : Option.map (map (λ x. x.1)) (score_nodes registry three) ≡ some (1000 ∷ 1000 ∷ 900 ∷ [])
unfolding program
ranked = refl

filter_nodes-quarantine_example :
    filter_nodes registry (some verifier) task three
    ≡ keep
        (λ node. not (is_quarantined node.node_id verifier))
        (filter_nodes registry none task three)
filter_nodes-quarantine_example = filter_nodes-quarantine registry verifier task three

abbrev scored : List (Node ℕ × ℕ)
scored = (node_a, 900) ∷ (node_b, 1000) ∷ (record node_a { node_id = "c" }, 1000) ∷ []

three-scored : score_list registry three ≡ some scored
unfolding program
three-scored = refl

three-AreScored : AreScored tenths-FloatOrder registry three
unfolding program
three-AreScored = ((900, refl, refl), ((1000, refl, refl), ((1000, refl, refl), tt)))

score_nodes-IsRanked_example :
    (ranking : List (Node ℕ × ℕ)) × (score_nodes registry three ≡ some ranking)
    × IsRanked tenths-FloatOrder ranking
    × AreOwnScores registry ranking
    × Perm (map (λ x. x.0) ranking) three
score_nodes-IsRanked_example = score_nodes-IsRanked tenths-FloatOrder registry three three-AreScored
