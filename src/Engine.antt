-- ===== src/Engine.antt =====
-- The scheduling engine (packages/scheduler/src/scheduler/core/engine.py) over a strategy
-- (core/strategy.py). A call runs without another in between, and a call that raises returns its
-- error beside the registry that it reached. A number of layers that is negative in Python is 0
-- here, since the code treats both alike; a number of stages is one that is not negative.
pub mod Allocation
pub mod Stages
pub mod Chain
pub mod Scheduled
pub mod Split
pub mod Boundary
pub mod Refusals
pub mod Restitched
pub mod Single
mod Tests
use mathlib.Core.Option
use public_intelligence.Prelude.{
  ℕ, ◌+◌, ◌-◌, ◌/◌, ◌%◌, ◌≡◌, String, Bool, true, false, not, ◌&&◌, ◌||◌, Option, none, some, List,
  [], ◌∷◌, ◌++◌, map, length, ltb, leb, ◌==◌, str_eq, if◌then◌else◌, is_truthy, is_nonempty,
}
use public_intelligence.Prelude.Except.{Except, done, failed, ◌>>=◌, ◌>>◌, check, or_fail, then_do}
use public_intelligence.Prelude.Dict.{Dict, lookup, insert}
use public_intelligence.Prelude.Float.{Floats}
use public_intelligence.Models.{Node, Heartbeat, Reading, number, text, Telemetry}
use public_intelligence.Registry.{Registry, list_nodes}
use public_intelligence.Pipeline.{PipelineStage, LayerRange, validate_stage, validate_range}
use public_intelligence.Matchmaker.{Task, text_or, float_or, vram_of}
use public_intelligence.Engine.Allocation.{
  EngineError, no_layers, no_live_nodes, no_eligible_nodes, no_ranked_node, unreadable_score,
  unreadable_capacity, insufficient_vram, no_stages, too_few_nodes, unassigned_layers, bad_checksum,
  no_replacement, total_of, fill_nodes, even_stages,
}
use public_intelligence.Engine.Stages.{bump_queue, build_stages}

-- `SchedulingStrategy`; `score_nodes` has `none` for its ValueError. `CapabilityMatchmaker` is one.
pub record Strategy (F P : Type 0) : Type 0 where
  pub filter_nodes : Registry F P → Task F → List (Node F) → List (Node F)
  pub score_nodes : Registry F P → List (Node F) → Option (List (Node F × F))

-- `int(a // b)`, with `none` for what `int` raises at an infinity or a NaN.
pub record FloorDiv (F : Type 0) : Type 0 where
  pub int_div : F → F → Option ℕ

-- The keys of a task that the engine reads. The task id is the task's or a fresh one.
pub record EngineTask (F : Type 0) : Type 0 where
  pub task_id : String
  pub model_id : Option String
  pub model : Option String
  pub total_layers : Option ℕ
  pub requirements : Task F
  pub vram_per_layer_gb : Option F
  pub layer_vram_gb : Option F
  pub vram_per_layer_mb : Option F
  pub model_vram_gb : Option F
  pub vram_required_gb : Option F
  pub num_stages : Option ℕ
  pub target_stages : Option ℕ

-- `a if a is not None else b`, at one more value that may be missing.
abbrev pub or_else : {A : Type 0} → Option A → Option A → Option A
or_else none b = b
or_else (some a) b = some a

-- `a or b` at counts, where 0 counts as none.
abbrev pub count_or : Option ℕ → Option ℕ → Option ℕ
count_or none b = b
count_or (some a) b = if a == 0 then b else some a

module _ {F : Type 0} where
  -- `str(task.get("model_id") or task.get("model") or "")`
  abbrev pub model_of : EngineTask F → String
  model_of task = Option.get_or (text_or task.model_id task.model) ""

  -- The requirements with the model, where they name none.
  abbrev pub requirements_of : EngineTask F → Task F
  requirements_of task =
      let model_id = model_of task in
      elim task.requirements.model [
        | some _ ↦ task.requirements
        | none ↦ elim task.requirements.model_name [
          | some _ ↦ task.requirements
          | none ↦
              if is_truthy model_id
              then record task.requirements { model = some model_id }
              else task.requirements
        ]
      ]

  -- `[n for n, _ in ranked_tuples] if ranked_tuples else eligible_nodes`
  abbrev ranked_or : List (Node F × F) → List (Node F) → List (Node F)
  ranked_or [] eligible = eligible
  ranked_or (x ∷ ranked) eligible = map (λ y. y.0) (x ∷ ranked)

module _ {F : Type 0} ⦃fl : Floats F⦄ where
  unfoldable pub vram_per_layer : EngineTask F → ℕ → F
  vram_per_layer task total_layers =
      Option.get_or
        (or_else task.vram_per_layer_gb (
          or_else task.layer_vram_gb (
            or_else (Option.map (λ mb. fl.div mb (fl.of_ℕ 1024)) task.vram_per_layer_mb) (
              or_else (Option.map (λ gb. fl.div gb (fl.of_ℕ total_layers)) task.model_vram_gb)
                (Option.map (λ gb. fl.div gb (fl.of_ℕ total_layers)) task.vram_required_gb)))))
        (fl.decimal 5 1)

  unfoldable pub split_vram_per_layer : EngineTask F → ℕ → F
  split_vram_per_layer task total_layers =
      Option.get_or
        (or_else (float_or task.vram_per_layer_gb task.layer_vram_gb)
          (Option.map (λ gb. fl.div gb (fl.of_ℕ total_layers)) task.vram_required_gb))
        (fl.decimal 5 1)

module _ {F : Type 0} where
  abbrev cons_capacity : Node F → Option ℕ → Option (List (Node F × ℕ)) → Option (List (Node F × ℕ))
  cons_capacity node none rest = none
  cons_capacity node (some n) none = none
  cons_capacity node (some n) (some rest) = some (if n == 0 then rest else (node, n) ∷ rest)

module _ {F P : Type 0} ⦃fl : Floats F⦄ ⦃fd : FloorDiv F⦄ where
  -- The layers that fit a node.
  abbrev capacity : F → ℕ → Registry F P → Node F → Option ℕ
  capacity vram_per_layer default r node =
      if fl.lt (fl.decimal 0 1) vram_per_layer
      then fd.int_div (vram_of (lookup node.node_id r.heartbeats) node) vram_per_layer
      else some default

  unfoldable pub node_capacities : F → ℕ → Registry F P → List (Node F) → Option (List (Node F × ℕ))
  node_capacities vram_per_layer default r [] = some []
  node_capacities vram_per_layer default r (node ∷ nodes) =
      cons_capacity node (capacity vram_per_layer default r node)
        (node_capacities vram_per_layer default r nodes)

module _ {F P : Type 0} where
  unfoldable pub rank_nodes :
      Strategy F P → EngineTask F → Registry F P → Except EngineError (List (Node F))
  rank_nodes strategy task r = do
    let live = list_nodes r
    check (is_nonempty live) no_live_nodes
    let eligible = strategy.filter_nodes r (requirements_of task) live
    check (is_nonempty eligible) no_eligible_nodes
    ranked ← or_fail (strategy.score_nodes r eligible) unreadable_score
    done (ranked_or ranked eligible)

module _ {A : Type 0} where
  -- The partition where no number of stages is requested.
  unfoldable pub allocate_greedy : ℕ → List (A × ℕ) → Except EngineError (List (A × ℕ))
  unfolding fill_nodes
  allocate_greedy layers caps = do
    let filled = fill_nodes layers caps
    check (filled.1 == 0) unassigned_layers
    done filled.0

  -- The partition into a requested number of stages.
  unfoldable pub allocate_stages : ℕ → ℕ → List (A × ℕ) → Except EngineError (List (A × ℕ))
  unfolding even_stages
  allocate_stages layers num_stages caps = do
    check (not (num_stages == 0)) no_stages
    check (leb num_stages (length caps)) too_few_nodes
    even_stages (layers / num_stages) (layers % num_stages) 0 num_stages caps

  unfoldable pub allocate : Option ℕ → ℕ → List (A × ℕ) → Except EngineError (List (A × ℕ))
  unfolding allocate_greedy allocate_stages
  allocate none layers caps = allocate_greedy layers caps
  allocate (some num_stages) layers caps = allocate_stages layers num_stages caps

module _ {F P : Type 0} ⦃fl : Floats F⦄ ⦃fd : FloorDiv F⦄ where
  -- What `schedule_pipeline` decides before it changes anything.
  unfoldable pub plan_pipeline :
      Strategy F P → EngineTask F → Registry F P → Except EngineError (List (Node F × ℕ))
  unfolding rank_nodes node_capacities allocate vram_per_layer total_of
  plan_pipeline strategy task r = do
    let layers = Option.get_or task.total_layers 32
    check (not (layers == 0)) no_layers
    nodes ← rank_nodes strategy task r
    caps ← or_fail (node_capacities (vram_per_layer task layers) layers r nodes) unreadable_capacity
    check (leb layers (total_of caps)) insufficient_vram
    allocate (count_or task.num_stages task.target_stages) layers caps

  -- `tx_hash` is the SHA-256 of the text that names the task, the stages and their nodes.
  unfoldable pub schedule_pipeline :
      (String → ℕ → List String → String)
      → Strategy F P
      → EngineTask F
      → Registry F P
      → Except EngineError (String × List PipelineStage) × Registry F P
  unfolding plan_pipeline build_stages
  schedule_pipeline tx_hash strategy task r =
      then_do (plan_pipeline strategy task r, r)
        (λ allocations r.
          let total_stages = length allocations in
          then_do (build_stages false total_stages (model_of task) 0 0 allocations r) (λ stages r'.
            (done (tx_hash task.task_id total_stages (map (λ s. s.node_id) stages), stages), r')))
