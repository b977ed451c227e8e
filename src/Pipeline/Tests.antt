-- ===== src/Pipeline/Tests.antt =====
-- Runs of the validators, and their theorems at concrete inputs.
use public_intelligence.Prelude.{
  ℕ, ◌≡◌, refl, String, false, some, none, List, [], ◌∷◌, leb, if◌then◌else◌,
}
use public_intelligence.Pipeline.{
  PipelineStage, PipelineConfig, PipelineError, validate_range, validate_stage, has_index_mismatch,
  last_stage, expected_end, has_discontinuity, validate_config, num_layers,
}
use public_intelligence.Pipeline.Partition.{
  AreRanges, runners, layers_run, stage_at, runners-validate_config,
}

program : Unit {0}
unfolding validate_range validate_stage has_index_mismatch last_stage expected_end has_discontinuity
    validate_config num_layers runners layers_run stage_at
program = tt

abbrev stage : ℕ → ℕ → ℕ → String → PipelineStage
stage index start_layer end_layer stage_type = record {
  stage_index = index;
  total_stages = 3;
  layer_range = record { start_layer = start_layer; end_layer = end_layer };
  node_id = "a";
  model_id = "m";
  is_local_boundary = false;
  stage_type = stage_type;
  is_split_inference = false;
}

abbrev first : PipelineStage
first = stage 0 0 9 "client_embedding"

abbrev behind : List PipelineStage
behind = stage 1 10 31 "remote_hidden" ∷ stage 2 32 32 "client_lm_head" ∷ []

abbrev split : PipelineConfig
split = record { task_id = "t"; model_id = "m"; total_layers = 32; stages = first ∷ behind }

abbrev with_gap : PipelineConfig
with_gap = record split { stages = first ∷ stage 1 11 31 "compute" ∷ [] }

split-accepted : validate_config split ≡ none
unfolding program
split-accepted = refl

gap-refused : validate_config with_gap ≡ some PipelineError.discontinuity
unfolding program
gap-refused = refl

stage-refused : validate_stage (stage 3 0 0 "compute") ≡ none
unfolding program
stage-refused = refl

split-AreRanges : AreRanges (first ∷ behind)
unfolding program
split-AreRanges = (refl, (refl, (refl, tt)))

runners-validate_config_example :
    runners 10 split.stages
    ≡ (if leb 10 (expected_end split.total_layers (last_stage first behind)) then 1 else 0)
runners-validate_config_example =
    runners-validate_config split first behind 10 refl split-AreRanges split-accepted

second_at : stage_at 1 split.stages ≡ some (stage 1 10 31 "remote_hidden")
unfolding program
second_at = refl
