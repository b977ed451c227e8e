-- ===== src/Engine/Split.antt =====
-- The split-inference chain and the replacement of an evicted node
-- (packages/scheduler/src/scheduler/core/engine.py).
use mathlib.Core.Option
use public_intelligence.Prelude.{
  ℕ, suc, ◌+◌, ◌-◌, String, Bool, true, not, ◌&&◌, Option, none, some, List, [], ◌∷◌, ◌++◌, length,
  leb, ◌==◌, str_eq, if◌then◌else◌, drop, keep,
}
use public_intelligence.Prelude.Except.{Except, done, ◌>>=◌, ◌>>◌, check, or_fail, then_do}
use public_intelligence.Prelude.Float.{Floats}
use public_intelligence.Models.{Node}
use public_intelligence.Registry.{Registry, list_nodes}
use public_intelligence.Pipeline.{PipelineStage, validate_stage, last_stage}
use public_intelligence.Engine.{
  Strategy, FloorDiv, EngineTask, model_of, node_capacities, split_vram_per_layer, rank_nodes,
  allocate_greedy,
}
use public_intelligence.Engine.Allocation.{
  EngineError, too_few_layers, unreadable_capacity, insufficient_vram, invalid_stage,
  invalid_boundary, missing_stage, bad_checksum, no_replacement, total_of,
}
use public_intelligence.Engine.Stages.{build_stages}

-- A stage of the client, of one layer.
abbrev pub client_stage : ℕ → String → ℕ → ℕ → String → PipelineStage
client_stage total_stages model_id index layer stage_type = record {
  stage_index = index;
  total_stages = total_stages;
  layer_range = record { start_layer = layer; end_layer = layer };
  node_id = "client_local";
  model_id = model_id;
  is_local_boundary = true;
  stage_type = stage_type;
  is_split_inference = true;
}

-- The tests of a stage at one of the client's boundaries.
abbrev is_boundary : String → ℕ → PipelineStage → Bool
is_boundary stage_type layer stage =
    stage.is_local_boundary
    && (str_eq stage.stage_type stage_type
        && (str_eq stage.node_id "client_local"
            && (stage.layer_range.start_layer == layer && stage.layer_range.end_layer == layer)))

abbrev is_remote : PipelineStage → Bool
is_remote stage =
    not stage.is_local_boundary
    && (str_eq stage.stage_type "remote_hidden" && stage.is_split_inference)

unfoldable pub all_remote : List PipelineStage → Bool
all_remote [] = true
all_remote (stage ∷ stages) = is_remote stage && all_remote stages

-- The loop over neighbours, for a number of rounds.
unfoldable pub are_contiguous : ℕ → List PipelineStage → Bool
are_contiguous (suc rounds) (stage ∷ next ∷ stages) =
    stage.layer_range.end_layer + 1 == next.layer_range.start_layer
    && are_contiguous rounds (next ∷ stages)
are_contiguous rounds stages = true

-- `stages[-1]` and `stages[:-1]`
abbrev pub last_of : List PipelineStage → Option PipelineStage
last_of [] = none
last_of (stage ∷ stages) = some (last_stage stage stages)

unfoldable pub but_last : List PipelineStage → List PipelineStage
but_last [] = []
but_last (stage ∷ []) = []
but_last (stage ∷ next ∷ stages) = stage ∷ but_last (next ∷ stages)

-- `xs[0]`
abbrev pub first_of : {A : Type 0} → List A → Option A
first_of [] = none
first_of (x ∷ xs) = some x

-- The checks behind the loop, of stages for so many layers.
unfoldable pub check_split : ℕ → List PipelineStage → Except EngineError (Unit {0})
unfolding all_remote are_contiguous but_last
check_split layers stages = do
  first ← or_fail (first_of stages) missing_stage
  check (is_boundary "client_embedding" 0 first) invalid_boundary
  last ← or_fail (last_of stages) missing_stage
  check (is_boundary "client_lm_head" layers last) invalid_boundary
  second ← or_fail (first_of (drop 1 stages)) missing_stage
  check (second.layer_range.start_layer == 1) invalid_boundary
  check (are_contiguous (length stages - 3) (drop 1 stages)) invalid_boundary
  before_last ← or_fail (last_of (but_last stages)) missing_stage
  check (before_last.layer_range.end_layer + 1 == layers) invalid_boundary
  check (all_remote (drop 1 (but_last stages))) invalid_boundary

module _ {F P : Type 0} ⦃fl : Floats F⦄ ⦃fd : FloorDiv F⦄ where
  -- What is decided before anything changes; the client keeps the first layer.
  unfoldable pub plan_split :
      Strategy F P → EngineTask F → ℕ → Registry F P → Except EngineError (List (Node F × ℕ))
  plan_split strategy task layers r = do
    check (leb 2 layers) too_few_layers
    nodes ← rank_nodes strategy task r
    caps ←
        or_fail (node_capacities (split_vram_per_layer task layers) (layers - 1) r nodes)
          unreadable_capacity
    check (leb (layers - 1) (total_of caps)) insufficient_vram
    allocate_greedy (layers - 1) caps

  unfoldable pub schedule_split :
      Strategy F P
      → EngineTask F
      → ℕ
      → Registry F P
      → Except EngineError (List PipelineStage) × Registry F P
  schedule_split strategy task total_layers r =
      let layers = Option.get_or task.total_layers total_layers in
      let model_id = model_of task in
      then_do (plan_split strategy task layers r, r)
        (λ allocations r.
          let total_stages = length allocations + 2 in
          then_do
            (
              or_fail (validate_stage (client_stage total_stages model_id 0 0 "client_embedding"))
                  invalid_stage,
              r,
            )
            (λ first r.
              then_do (build_stages true total_stages model_id 1 1 allocations r) (λ remote r'.
                then_do
                  (
                    or_fail
                        (validate_stage (
                          client_stage total_stages model_id (total_stages - 1) layers
                            "client_lm_head"))
                        invalid_stage,
                    r',
                  )
                  (λ last r'.
                    let stages = first ∷ (remote ++ (last ∷ [])) in
                    then_do (check_split layers stages, r') (λ _ r'. (done stages, r'))))))

-- A KV-cache snapshot, as far as its checksum is concerned.
pub record Snapshot (B : Type 0) : Type 0 where
  pub cache_bytes : B
  pub checksum : String

-- The constructor's validator runs again on a stage that is replaced.
unfoldable pub restitch_stages :
    String → String → List PipelineStage → Except EngineError (List PipelineStage)
restitch_stages failed_node_id replacement [] = done []
restitch_stages failed_node_id replacement (stage ∷ stages) = do
  stage' ←
      (if str_eq stage.node_id failed_node_id
        then or_fail (validate_stage (record stage { node_id = replacement })) invalid_stage
        else done stage)
  stages' ← restitch_stages failed_node_id replacement stages
  done (stage' ∷ stages')

module _ {F P B : Type 0} where
  -- `sha256` is the digest of bytes. The call reads the registry and changes nothing.
  unfoldable pub restitch_pipeline :
      (B → String)
      → String
      → Snapshot B
      → List PipelineStage
      → Registry F P
      → Except EngineError (List PipelineStage)
  unfolding restitch_stages
  restitch_pipeline sha256 failed_node_id snapshot stages r = do
    check (str_eq (sha256 snapshot.cache_bytes) snapshot.checksum) bad_checksum
    let available = keep (λ node. not (str_eq node.node_id failed_node_id)) (list_nodes r)
    node ← or_fail (first_of available) no_replacement
    restitch_stages failed_node_id node.node_id stages
