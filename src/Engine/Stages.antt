-- ===== src/Engine/Stages.antt =====
-- The loop that builds the stages of a pipeline and counts the load of their nodes
-- (packages/scheduler/src/scheduler/core/engine.py).
use mathlib.Core.Option
use public_intelligence.Prelude.{
  ℕ, ◌+◌, ◌-◌, String, Bool, false, Option, none, some, List, [], ◌∷◌, ◌==◌, if◌then◌else◌,
}
use public_intelligence.Prelude.Except.{Except, done, failed, or_fail, then_do}
use public_intelligence.Prelude.Dict.{lookup, insert}
use public_intelligence.Prelude.Float.{Floats}
use public_intelligence.Models.{Node, Reading, number, text}
use public_intelligence.Registry.{Registry, ok, err, increment_dampener}
use public_intelligence.Pipeline.{PipelineStage, LayerRange, validate_stage, validate_range}
use public_intelligence.Engine.Allocation.{
  EngineError, unreadable_queue, unregistered_node, invalid_stage,
}

module _ {F : Type 0} ⦃fl : Floats F⦄ where
  -- `queue_depth + 1`, where a missing depth counts as 0; `none` is the TypeError for a text.
  abbrev pub deeper : Option (Reading F) → Option (Reading F)
  deeper none = some (number (fl.add (fl.of_ℕ 0) (fl.of_ℕ 1)))
  deeper (some (number x)) = some (number (fl.add x (fl.of_ℕ 1)))
  deeper (some (text s)) = none

module _ {F P : Type 0} ⦃fl : Floats F⦄ where
  unfoldable pub bump_queue : String → Registry F P → Except EngineError (Unit {0}) × Registry F P
  bump_queue node_id r =
      let telemetry = Option.get_or (lookup node_id r.telemetry) [] in
      elim (deeper (lookup "queue_depth" telemetry)) [
        | none ↦ (failed unreadable_queue, r)
        | some depth ↦ (
          done tt,
          record r {
            telemetry = insert node_id (insert "queue_depth" depth telemetry) r.telemetry;
          },
        )
      ]

  abbrev pub raise_dampener : String → Registry F P → Except EngineError (Unit {0}) × Registry F P
  raise_dampener node_id r =
      let (result, r') = increment_dampener node_id r in
      elim result [ ok _ ↦ (done tt, r') | err _ ↦ (failed unregistered_node, r') ]

  -- The load of a node that was given a stage.
  unfoldable pub enqueue : String → Registry F P → Except EngineError (Unit {0}) × Registry F P
  unfolding bump_queue
  enqueue node_id r = then_do (bump_queue node_id r) (λ _ r'. raise_dampener node_id r')

-- What the two loops pass to `LayerRange` and `PipelineStage`; `none` is a ValidationError, and the
-- end of a stage of no layers is below its start.
unfoldable pub hosted_stage : Bool → ℕ → String → ℕ → ℕ → String → ℕ → Option PipelineStage
hosted_stage split total_stages model_id index start_layer node_id layer_count =
    let range : LayerRange = record {
      start_layer = start_layer;
      end_layer = start_layer + layer_count - 1;
    } in
    if layer_count == 0 then none else elim (validate_range range) [
      | none ↦ none
      | some range' ↦ validate_stage (record {
        stage_index = index;
        total_stages = total_stages;
        layer_range = range';
        node_id = node_id;
        model_id = model_id;
        is_local_boundary = false;
        stage_type = if split then "remote_hidden" else "compute";
        is_split_inference = split;
      })
    ]

module _ {F P : Type 0} ⦃fl : Floats F⦄ where
  -- The loop over the allocations, from a stage index and a layer on.
  unfoldable pub build_stages :
      Bool
      → ℕ
      → String
      → ℕ
      → ℕ
      → List (Node F × ℕ)
      → Registry F P
      → Except EngineError (List PipelineStage) × Registry F P
  unfolding hosted_stage enqueue
  build_stages split total_stages model_id index layer [] r = (done [], r)
  build_stages split total_stages model_id index layer ((node, layer_count) ∷ rest) r =
      then_do
        (
          or_fail (hosted_stage split total_stages model_id index layer node.node_id layer_count)
              invalid_stage,
          r,
        )
        (λ stage r. then_do (enqueue node.node_id r) (λ _ r'.
          then_do
            (build_stages split total_stages model_id (index + 1) (layer + layer_count) rest r')
            (λ stages r''. (done (stage ∷ stages), r''))))
