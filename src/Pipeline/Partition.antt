-- ===== src/Pipeline/Partition.antt =====
-- An accepted pipeline partitions the layers.
use public_intelligence.Prelude.{
  ℕ, zero, suc, ◌+◌, ◌≡◌, refl, ◌≤◌, Bool, false, ◌&&◌, Option, none, some, List, [], ◌∷◌, leb,
  if◌then◌else◌, arith, ◌⊎◌, inl, inr,
}
use public_intelligence.Pipeline.{
  PipelineStage, PipelineConfig, LayerRange, validate_range, num_layers, has_index_mismatch,
  last_stage, expected_end, has_discontinuity, validate_config,
}

-- The stage runs the layer.
abbrev pub runs : ℕ → PipelineStage → Bool
runs layer stage = leb stage.layer_range.start_layer layer && leb layer stage.layer_range.end_layer

-- How many of the stages run the layer.
unfoldable pub runners : ℕ → List PipelineStage → ℕ
runners layer [] = 0
runners layer (stage ∷ stages) =
    if runs layer stage then runners layer stages + 1 else runners layer stages

-- The sum of `num_layers`.
unfoldable pub layers_run : List PipelineStage → ℕ
layers_run [] = 0
layers_run (stage ∷ stages) = num_layers stage.layer_range + layers_run stages

-- Each range is one that the validator of `LayerRange` lets through.
abbrev pub AreRanges : List PipelineStage → Type 0
AreRanges [] = Unit
AreRanges (stage ∷ stages) =
    (validate_range stage.layer_range ≡ some stage.layer_range) × AreRanges stages

range_le : (r : LayerRange) → validate_range r ≡ some r → r.start_layer ≤ r.end_layer
unfolding validate_range
range_le r h = ground arith

last_stage-le :
    (stage : PipelineStage) (stages : List PipelineStage)
    → has_discontinuity stage stages ≡ false
    → AreRanges (stage ∷ stages)
    → stage.layer_range.end_layer ≤ (last_stage stage stages).layer_range.end_layer
unfolding has_discontinuity last_stage
last_stage-le stage [] h rs = omega arith
last_stage-le stage (next ∷ stages) h rs =
    ground (arith, last_stage-le next stages, range_le next.layer_range rs.1.0)

runners-contiguous :
    (layer : ℕ) (stage : PipelineStage) (stages : List PipelineStage)
    → has_discontinuity stage stages ≡ false
    → AreRanges (stage ∷ stages)
    → runners layer (stage ∷ stages) ≡ (
        if leb stage.layer_range.start_layer layer
          && leb layer (last_stage stage stages).layer_range.end_layer
        then 1
        else 0)
unfolding has_discontinuity last_stage runners
runners-contiguous layer stage [] h rs = ground arith
runners-contiguous layer stage (next ∷ stages) h rs = ground (
  arith,
  runners-contiguous layer next stages,
  last_stage-le next stages,
  range_le stage.layer_range rs.0,
  range_le next.layer_range rs.1.0,
)

layers_run-contiguous :
    (stage : PipelineStage) (stages : List PipelineStage)
    → has_discontinuity stage stages ≡ false
    → AreRanges (stage ∷ stages)
    → stage.layer_range.start_layer + layers_run (stage ∷ stages)
      ≡ (last_stage stage stages).layer_range.end_layer + 1
unfolding has_discontinuity last_stage layers_run num_layers
layers_run-contiguous stage [] h rs = ground (arith, range_le stage.layer_range rs.0)
layers_run-contiguous stage (next ∷ stages) h rs =
    ground (arith, layers_run-contiguous next stages, range_le stage.layer_range rs.0)

-- What acceptance says of a pipeline with a stage.
record IsAccepted (total_layers : ℕ) (stage : PipelineStage) (stages : List PipelineStage)
    : Type 0 where
  pub starts : stage.layer_range.start_layer ≡ 0
  pub ends :
      let last = last_stage stage stages in
      last.layer_range.end_layer ≡ expected_end total_layers last
  pub contiguous : has_discontinuity stage stages ≡ false

validate_config-IsAccepted :
    (config : PipelineConfig) (stage : PipelineStage) (stages : List PipelineStage)
    → config.stages ≡ stage ∷ stages
    → validate_config config ≡ none
    → IsAccepted config.total_layers stage stages
unfolding validate_config
validate_config-IsAccepted config stage stages e h = record {
  starts = ground arith;
  ends = ground arith;
  contiguous = ground arith;
}

-- In an accepted pipeline with a stage, of valid ranges, each layer up to the expected end is run by
-- exactly one stage, and no stage runs a layer behind it.
pub runners-validate_config :
    (config : PipelineConfig) (stage : PipelineStage) (stages : List PipelineStage) (layer : ℕ)
    → config.stages ≡ stage ∷ stages
    → AreRanges (stage ∷ stages)
    → validate_config config ≡ none
    → runners layer config.stages
      ≡ (if leb layer (expected_end config.total_layers (last_stage stage stages)) then 1 else 0)
runners-validate_config config stage stages layer e rs h =
    let a = validate_config-IsAccepted config stage stages e h in
    ground (arith, runners-contiguous layer stage stages a.contiguous rs, a.starts, a.ends)

-- The stages of an accepted pipeline with a stage, of valid ranges, together count as many layers as
-- there are up to the expected end.
pub layers_run-validate_config :
    (config : PipelineConfig) (stage : PipelineStage) (stages : List PipelineStage)
    → config.stages ≡ stage ∷ stages
    → AreRanges (stage ∷ stages)
    → validate_config config ≡ none
    → layers_run config.stages ≡ expected_end config.total_layers (last_stage stage stages) + 1
layers_run-validate_config config stage stages e rs h =
    let a = validate_config-IsAccepted config stage stages e h in
    ground (arith, layers_run-contiguous stage stages a.contiguous rs, a.starts, a.ends)

-- `stages[position]`, with `none` out of range.
unfoldable pub stage_at : ℕ → List PipelineStage → Option PipelineStage
stage_at position [] = none
stage_at zero (stage ∷ stages) = some stage
stage_at (suc position) (stage ∷ stages) = stage_at position stages

stage_at-has_index_mismatch :
    (first position : ℕ) (stages : List PipelineStage) (stage : PipelineStage)
    → has_index_mismatch first stages ≡ false
    → stage_at position stages ≡ some stage
    → stage.stage_index ≡ first + position
unfolding has_index_mismatch stage_at
stage_at-has_index_mismatch first position [] stage h e = cc
stage_at-has_index_mismatch first zero (s ∷ stages) stage h e = ground arith
stage_at-has_index_mismatch first (suc position) (s ∷ stages) stage h e =
    ground (arith, stage_at-has_index_mismatch (first + 1) position stages stage)

stages_cases :
    (stages : List PipelineStage)
    → (stages ≡ []) ⊎ ((s : PipelineStage) × (ss : List PipelineStage) × (stages ≡ s ∷ ss))
stages_cases [] = inl refl
stages_cases (s ∷ ss) = inr (s, ss, refl)

accepted_indexes :
    (config : PipelineConfig)
    → validate_config config ≡ none
    → has_index_mismatch 0 config.stages ≡ false
unfolding validate_config has_index_mismatch
accepted_indexes config h = elim (stages_cases config.stages) [
  | inl e ↦ rw e
  | inr (s, ss, e) ↦ rw e (ground arith)
]

-- In an accepted pipeline each stage stands at the position that its index says.
pub stage_at-validate_config :
    (config : PipelineConfig) (position : ℕ) (stage : PipelineStage)
    → validate_config config ≡ none
    → stage_at position config.stages ≡ some stage
    → stage.stage_index ≡ position
stage_at-validate_config config position stage h e = omega (
  arith,
  stage_at-has_index_mismatch 0 position config.stages stage (accepted_indexes config h) e,
)
