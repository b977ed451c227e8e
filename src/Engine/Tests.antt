-- ===== src/Engine/Tests.antt =====
-- Runs of the engine, and its theorems at concrete inputs.
use public_intelligence.Prelude.{
  ℕ, ◌/◌, ◌≡◌, refl, String, true, false, Option, some, none, List, [], ◌∷◌, map, not, str_eq,
  AllPass, length, keep,
}
use public_intelligence.Prelude.Dict.{lookup, contains, insert, erase, update}
use public_intelligence.Prelude.Except.{Except, done, failed}
use public_intelligence.Models.{Node, Reading, number}
use public_intelligence.Registry.{Registry, new_registry, register, list_nodes, increment_dampener}
use public_intelligence.Pipeline.{
  PipelineStage, validate_range, validate_stage, has_index_mismatch, last_stage, expected_end,
  has_discontinuity, validate_config,
}
use public_intelligence.Pipeline.Partition.{AreRanges}
use public_intelligence.Matchmaker.{Task}
use public_intelligence.Engine.{
  Strategy, FloorDiv, EngineTask, model_of, vram_per_layer, split_vram_per_layer, node_capacities,
  rank_nodes, allocate_greedy, allocate_stages, allocate, plan_pipeline, schedule_pipeline,
}
use public_intelligence.Engine.Allocation.{
  EngineError, invalid_stage, total_of, fill_nodes, even_stages,
}
use public_intelligence.Engine.Stages.{bump_queue, enqueue, hosted_stage, build_stages}
use public_intelligence.Engine.Chain.{chain}
use public_intelligence.Engine.Scheduled.{Planned, schedule_pipeline-validate_config}
use public_intelligence.Engine.Split.{
  Snapshot, all_remote, are_contiguous, but_last, check_split, plan_split, schedule_split,
  restitch_stages, restitch_pipeline, first_of,
}
use public_intelligence.Engine.Refusals.{IsSplitOutcome, schedule_split-IsSplitOutcome}
use public_intelligence.Engine.Restitched.{replaced, restitch_pipeline-validate_config}
use public_intelligence.Engine.Single.{
  best_node, schedule_task, queue_of, IsTaskOutcome, schedule_task-IsTaskOutcome,
}
use public_intelligence.Examples.{tenths, plain, node_a, node_b}

program : Unit {0}
unfolding lookup contains insert erase update register list_nodes increment_dampener validate_range
    validate_stage has_index_mismatch last_stage expected_end has_discontinuity validate_config
    vram_per_layer split_vram_per_layer node_capacities rank_nodes allocate_greedy allocate_stages
    allocate plan_pipeline schedule_pipeline total_of fill_nodes even_stages bump_queue enqueue
    hosted_stage build_stages all_remote are_contiguous but_last check_split plan_split
    schedule_split restitch_stages restitch_pipeline best_node schedule_task chain
program = tt

instance abbrev floor_tenths : FloorDiv ℕ
floor_tenths = record { int_div = λ a b. some (a / b) }

-- A strategy that keeps every node and ranks the nodes as they come.
abbrev in_order : Strategy ℕ (Node ℕ)
in_order = record {
  filter_nodes = λ r requirements nodes. nodes;
  score_nodes = λ r nodes. some (map (λ node. (node, 10)) nodes);
}

abbrev plain_task : Task ℕ
plain_task = record {
  model_name = none;
  model = none;
  min_vram_gb = none;
  vram = none;
  backend_type = none;
}

abbrev task : ℕ → Option ℕ → EngineTask ℕ
task layers num_stages = record {
  task_id = "t";
  model_id = some "m";
  model = none;
  total_layers = some layers;
  requirements = plain_task;
  vram_per_layer_gb = some 10;
  layer_vram_gb = none;
  vram_per_layer_mb = none;
  model_vram_gb = none;
  vram_required_gb = none;
  num_stages = num_stages;
  target_stages = none;
}

-- Each of the two nodes has room for eight layers.
abbrev registry : Registry ℕ (Node ℕ)
registry = (register node_b (register node_a (new_registry none)).1).1

abbrev pipeline_hash : String → ℕ → List String → String
pipeline_hash task_id n nodes = task_id

abbrev ten_layers : List (Node ℕ × ℕ)
ten_layers = (node_a, 8) ∷ (node_b, 2) ∷ []

abbrev two_stages : List PipelineStage
two_stages = chain false 2 "m" 0 0 ten_layers

abbrev loaded : Registry ℕ (Node ℕ) → Option (Option (Reading ℕ) × Option ℕ)
loaded r = some (queue_of "a" r, lookup "a" r.dampeners)

scheduled :
    (schedule_pipeline pipeline_hash in_order (task 10 none) registry).0 ≡ done ("t", two_stages)
unfolding program
scheduled = refl

-- A request for two stages of one layer fails in its second stage, and the queue and the dampener
-- of the node of its first stay raised.
half_loaded :
    let result = schedule_pipeline pipeline_hash in_order (task 1 (some 2)) registry in
    (result.0 ≡ failed invalid_stage) × (loaded result.1 ≡ some (some (number 10), some 1))
unfolding program
half_loaded = (refl, refl)

schedule_pipeline-validate_config_example :
    (validate_config
        (record { task_id = "t"; model_id = "m"; total_layers = 10; stages = two_stages })
      ≡ none)
    × AreRanges two_stages
    × ((allocations : List (Node ℕ × ℕ)) × Planned in_order (task 10 none) registry 10 allocations
        × (two_stages ≡ chain false (length allocations) (model_of (task 10 none)) 0 0 allocations))
schedule_pipeline-validate_config_example =
    schedule_pipeline-validate_config pipeline_hash in_order (task 10 none) registry "t" two_stages
      scheduled

split_length : Except EngineError (List PipelineStage) → ℕ
split_length (done stages) = length stages
split_length (failed e) = 0

split_scheduled : split_length (schedule_split in_order (task 10 none) 32 registry).0 ≡ 4
unfolding program split_length
split_scheduled = refl

schedule_split-IsSplitOutcome_example :
    IsSplitOutcome in_order
      (task 10 none)
      10
      registry
      (schedule_split in_order (task 10 none) 32 registry).0
schedule_split-IsSplitOutcome_example =
    schedule_split-IsSplitOutcome in_order (task 10 none) 32 registry

abbrev digest : ℕ → String
digest n = "digest"

abbrev held : Snapshot ℕ
held = record { cache_bytes = 3; checksum = "digest" }

abbrev on_b : List PipelineStage
on_b = map (replaced "a" "b") two_stages

restitched : restitch_pipeline digest "a" held two_stages registry ≡ done on_b
unfolding program
restitched = refl

restitch_pipeline-validate_config_example :
    (str_eq (digest held.cache_bytes) held.checksum ≡ true)
    × ((node : Node ℕ) × (first_of (keep (λ n. not (str_eq n.node_id "a")) (list_nodes registry))
          ≡ some node)
        × (on_b ≡ map (replaced "a" node.node_id) two_stages))
    × AllPass (λ stage. not (str_eq stage.node_id "a")) on_b
    × (validate_config (record { task_id = "t"; model_id = "m"; total_layers = 10; stages = on_b })
        ≡ validate_config
            (record { task_id = "t"; model_id = "m"; total_layers = 10; stages = two_stages }))
restitch_pipeline-validate_config_example =
    restitch_pipeline-validate_config digest "a" held two_stages on_b registry "t" "m" 10 restitched

abbrev task_hash : String → String → ℕ → String
task_hash node_id task_id score = node_id

assigned : (schedule_task task_hash in_order (task 10 none) registry).0 ≡ done ("a", "a")
unfolding program
assigned = refl

schedule_task-IsTaskOutcome_example :
    let result = schedule_task task_hash in_order (task 10 none) registry in
    IsTaskOutcome task_hash in_order (task 10 none) registry result.1 result.0
schedule_task-IsTaskOutcome_example =
    schedule_task-IsTaskOutcome task_hash in_order (task 10 none) registry
