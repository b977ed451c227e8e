-- ===== src/Engine/Scheduled.antt =====
-- What a pipeline that was scheduled looks like.
use mathlib.Core.Option
use public_intelligence.Prelude.{
  ℕ, ◌+◌, ◌*◌, ◌/◌, ◌%◌, ◌≡◌, ◌≤◌, ◌<◌, String, false, Option, none, some, List, [], ◌∷◌, length,
  arith, Option-cases, inl, inr,
}
use public_intelligence.Prelude.Except.{done, Except-cases}
use public_intelligence.Prelude.Float.{Floats}
use public_intelligence.Models.{Node}
use public_intelligence.Registry.{Registry}
use public_intelligence.Pipeline.{PipelineStage, validate_config, expected_end}
use public_intelligence.Pipeline.Partition.{AreRanges}
use public_intelligence.Engine.{
  Strategy, FloorDiv, EngineTask, model_of, count_or, node_capacities, vram_per_layer,
  allocate_greedy, allocate_stages, allocate, rank_nodes, plan_pipeline, schedule_pipeline,
}
use public_intelligence.Engine.Allocation.{
  total_of, fill_nodes, even_stages, WithinCaps, ArePositive, fill_nodes-total,
  fill_nodes-WithinCaps, even_stages-total, even_stages-WithinCaps,
}
use public_intelligence.Engine.Stages.{build_stages}
use public_intelligence.Engine.Chain.{
  chain, build_stages-chain, has_index_mismatch-chain, AreRanges-chain, chain_ends,
}

div_mod : (a b : ℕ) → 0 < b → a / b * b + a % b ≡ a
div_mod a b h = grind arith

module _ {A : Type 0} where
  -- Where the capacities suffice, the greedy partition is the one that assigns every layer.
  allocate_greedy-done :
      (layers : ℕ) (caps given : List (A × ℕ))
      → allocate_greedy layers caps ≡ done given
      → (given ≡ (fill_nodes layers caps).0) × ((fill_nodes layers caps).1 ≡ 0)
  unfolding allocate_greedy
  allocate_greedy-done layers caps given h = ground arith

  allocate_stages-done :
      (n layers : ℕ) (caps given : List (A × ℕ))
      → allocate_stages layers n caps ≡ done given
      → (0 < n) × (even_stages (layers / n) (layers % n) 0 n caps ≡ done given)
  unfolding allocate_stages
  allocate_stages-done n layers caps given h = ground arith

  -- An allocation assigns every layer, and no node more than it has room for.
  allocate-total :
      (requested : Option ℕ) (layers : ℕ) (caps given : List (A × ℕ))
      → layers ≤ total_of caps
      → allocate requested layers caps ≡ done given
      → (total_of given ≡ layers) × WithinCaps given caps
  unfolding allocate
  allocate-total none layers caps given h e =
      let (filled, left) = allocate_greedy-done layers caps given e in
      let total = fill_nodes-total layers caps h in
      rw filled (total.1, fill_nodes-WithinCaps layers caps)
  allocate-total (some n) layers caps given h e =
      let (positive, shared) = allocate_stages-done n layers caps given e in
      (
        grind (
          arith,
          even_stages-total (layers / n) (layers % n) 0 n caps given (omega arith) shared,
          div_mod layers n positive,
        ),
        even_stages-WithinCaps (layers / n) (layers % n) 0 n caps given shared,
      )

module _ {F P : Type 0} ⦃fl : Floats F⦄ ⦃fd : FloorDiv F⦄ where
  -- What a plan rests on: the capacities of the ranked nodes, which the allocations keep.
  pub record Planned (strategy : Strategy F P) (task : EngineTask F) (r : Registry F P) (layers : ℕ)
      (allocations : List (Node F × ℕ)) : Type 0 where
    pub nodes : List (Node F)
    pub caps : List (Node F × ℕ)
    pub ranked : rank_nodes strategy task r ≡ done nodes
    pub measured : node_capacities (vram_per_layer task layers) layers r nodes ≡ some caps
    pub some_layers : 0 < layers
    pub total : total_of allocations ≡ layers
    pub within : WithinCaps allocations caps

  plan_pipeline-Planned :
      (strategy : Strategy F P) (task : EngineTask F) (r : Registry F P)
      (allocations : List (Node F × ℕ))
      → plan_pipeline strategy task r ≡ done allocations
      → Planned strategy task r (Option.get_or task.total_layers 32) allocations
  unfolding plan_pipeline
  plan_pipeline-Planned strategy task r allocations h =
      let layers = Option.get_or task.total_layers 32 in
      let requested = count_or task.num_stages task.target_stages in
      elim (Except-cases (rank_nodes strategy task r)) [
        | inr (bad, e) ↦ absurd (ground arith)
        | inl (nodes, e) ↦
            elim (Option-cases (node_capacities (vram_per_layer task layers) layers r nodes)) [
              | inl m ↦ absurd (ground arith)
              | inr (caps, m) ↦
                  let shared : allocate requested layers caps ≡ done allocations = ground arith in
                  let enough : layers ≤ total_of caps = ground arith in
                  let (total, within) =
                    allocate-total requested layers caps allocations enough shared in
                  record {
                    nodes = nodes;
                    caps = caps;
                    ranked = e;
                    measured = m;
                    some_layers = ground arith;
                    total = total;
                    within = within;
                  }
            ]
      ]

-- The chain from layer 0 on is a pipeline that the model accepts.
validate_config-chain :
    {F : Type 0} (task_id model_id : String) (layers total_stages : ℕ)
    (allocations : List (Node F × ℕ))
    → 0 < layers
    → total_of allocations ≡ layers
    → ArePositive allocations
    → validate_config (record {
      task_id = task_id;
      model_id = model_id;
      total_layers = layers;
      stages = chain false total_stages model_id 0 0 allocations;
    })
      ≡ none
unfolding validate_config expected_end
validate_config-chain task_id model_id layers total_stages [] h t p =
    unfold total_of chain in ground arith
validate_config-chain task_id model_id layers total_stages ((node, n) ∷ rest) h t p =
    let (gaps, ends, kind) =
      chain_ends false total_stages model_id 0 0 n node.node_id rest p.0 p.1 in
    let indexes = has_index_mismatch-chain false total_stages model_id 0 0 ((node, n) ∷ rest) in
    unfold total_of chain in ground (arith, gaps, ends, kind, indexes, t)

module _ {F P : Type 0} ⦃fl : Floats F⦄ ⦃fd : FloorDiv F⦄ where
  -- A call that returns has planned allocations, has built their chain from layer 0 on, and each of
  -- them has a layer.
  schedule_pipeline-chain :
      (tx_hash : String → ℕ → List String → String) (strategy : Strategy F P) (task : EngineTask F)
      (r : Registry F P) (hash : String) (stages : List PipelineStage)
      → (schedule_pipeline tx_hash strategy task r).0 ≡ done (hash, stages)
      → (allocations : List (Node F × ℕ)) × (plan_pipeline strategy task r ≡ done allocations)
        × (stages ≡ chain false (length allocations) (model_of task) 0 0 allocations)
        × ArePositive allocations
  unfolding schedule_pipeline
  schedule_pipeline-chain tx_hash strategy task r hash stages h =
      elim (Except-cases (plan_pipeline strategy task r)) [
        | inr (bad, e) ↦ absurd (ground arith)
        | inl (allocations, e) ↦
            let total_stages = length allocations in
            let built = build_stages false total_stages (model_of task) 0 0 allocations r in
            elim (Except-cases built.0) [
              | inr (bad, b) ↦ absurd (ground arith)
              | inl (more, b) ↦
                  let (same, positive) =
                    build_stages-chain false total_stages (model_of task) 0 0 allocations r more
                      b in
                  (allocations, e, ground (arith, same), positive)
            ]
      ]

  -- The stages that `schedule_pipeline` returns are a pipeline for the layers of the task that
  -- `PipelineConfig` accepts, each of a valid range, and they are those of allocations that assign
  -- every layer to ranked nodes, no node more than its capacity.
  pub schedule_pipeline-validate_config :
      (tx_hash : String → ℕ → List String → String) (strategy : Strategy F P) (task : EngineTask F)
      (r : Registry F P) (hash : String) (stages : List PipelineStage)
      → (schedule_pipeline tx_hash strategy task r).0 ≡ done (hash, stages)
      → let layers = Option.get_or task.total_layers 32 in
        (validate_config (record {
          task_id = task.task_id;
          model_id = model_of task;
          total_layers = layers;
          stages = stages;
        })
          ≡ none)
        × AreRanges stages
        × ((allocations : List (Node F × ℕ)) × Planned strategy task r layers allocations
            × (stages ≡ chain false (length allocations) (model_of task) 0 0 allocations))
  schedule_pipeline-validate_config tx_hash strategy task r hash stages h =
      let (allocations, plan, same, positive) =
        schedule_pipeline-chain tx_hash strategy task r hash stages h in
      let planned = plan_pipeline-Planned strategy task r allocations plan in
      let total_stages = length allocations in
      let model_id = model_of task in
      let layers = Option.get_or task.total_layers 32 in
      (
        rw same (
            validate_config-chain task.task_id model_id layers total_stages allocations
              planned.some_layers planned.total positive),
        rw same (AreRanges-chain false total_stages model_id 0 0 allocations positive),
        (allocations, planned, same),
      )
