-- ===== src/Pipeline.antt =====
-- The pipeline models (packages/scheduler/src/scheduler/models/pipeline.py): the records that a
-- validator builds or refuses. A stage type is its text, which is what `StageType(str, Enum)`
-- compares as.
pub mod Partition
mod Tests
use public_intelligence.Prelude.{
  ℕ, ◌+◌, ◌-◌, ◌≡◌, String, Bool, true, false, not, ◌||◌, Option, none, some, List, [], ◌∷◌, ltb,
  ◌==◌, str_eq, if◌then◌else◌,
}

pub record LayerRange : Type 0 where
  pub start_layer : ℕ
  pub end_layer : ℕ

-- The validator of `LayerRange`; `none` is the ValueError.
unfoldable pub validate_range : LayerRange → Option LayerRange
validate_range range = if ltb range.end_layer range.start_layer then none else some range

unfoldable pub num_layers : LayerRange → ℕ
num_layers range = range.end_layer - range.start_layer + 1

pub record PipelineStage : Type 0 where
  pub stage_index : ℕ
  pub total_stages : ℕ
  pub layer_range : LayerRange
  pub node_id : String
  pub model_id : String
  pub is_local_boundary : Bool
  pub stage_type : String
  pub is_split_inference : Bool

-- The validator of `PipelineStage`, with the bound `total_stages > 0` of its field.
unfoldable pub validate_stage : PipelineStage → Option PipelineStage
validate_stage stage =
    if stage.total_stages == 0
    then none
    else if ltb stage.stage_index stage.total_stages
    then some stage
    else none

pub record PipelineConfig : Type 0 where
  pub task_id : String
  pub model_id : String
  pub total_layers : ℕ
  pub stages : List PipelineStage

pub data PipelineError : Type 0 where
  no_layers index_mismatch first_start last_end discontinuity : PipelineError

-- The loop over the indexes, from a position on.
unfoldable pub has_index_mismatch : ℕ → List PipelineStage → Bool
has_index_mismatch position [] = false
has_index_mismatch position (stage ∷ stages) =
    not (stage.stage_index == position) || has_index_mismatch (position + 1) stages

-- `self.stages[-1]` of the stages that begin with the given one.
unfoldable pub last_stage : PipelineStage → List PipelineStage → PipelineStage
last_stage stage [] = stage
last_stage stage (next ∷ stages) = last_stage next stages

abbrev pub is_split : PipelineStage → Bool
is_split stage =
    stage.is_split_inference
    || (stage.is_local_boundary || str_eq stage.stage_type "client_lm_head")

-- The last layer of the pipeline; a split one has the layer of the client's head behind the others.
unfoldable pub expected_end : ℕ → PipelineStage → ℕ
expected_end total_layers stage = if is_split stage then total_layers else total_layers - 1

-- The loop over the pairs of neighbours.
unfoldable pub has_discontinuity : PipelineStage → List PipelineStage → Bool
has_discontinuity stage [] = false
has_discontinuity stage (next ∷ stages) =
    not (stage.layer_range.end_layer + 1 == next.layer_range.start_layer)
    || has_discontinuity next stages

-- The validator of `PipelineConfig`, with the bound `total_layers > 0` of its field; `none` is
-- acceptance. The order of the tests is that of the code.
unfoldable pub validate_config : PipelineConfig → Option PipelineError
unfolding has_index_mismatch last_stage expected_end has_discontinuity
validate_config config = if config.total_layers == 0 then some no_layers else elim config.stages [
  | [] ↦ none
  | stage ∷ stages ↦
      let last = last_stage stage stages in
      if has_index_mismatch 0 (stage ∷ stages)
      then some index_mismatch
      else if not (stage.layer_range.start_layer == 0)
      then some first_start
      else if not (last.layer_range.end_layer == expected_end config.total_layers last)
      then some last_end
      else if has_discontinuity stage stages
      then some discontinuity
      else none
]
