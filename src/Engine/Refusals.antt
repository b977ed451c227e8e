-- ===== src/Engine/Refusals.antt =====
-- What the split-inference call returns and why it can fail.
use mathlib.Core.Option
use public_intelligence.Prelude.{
  ℕ, ◌+◌, ◌-◌, ◌≡◌, ◌≤◌, ◌<◌, refl, String, Bool, true, false, ◌||◌, none, some, List, [], ◌∷◌,
  length, leb, arith, Option-cases, Bool-cases, ◌⊎◌, inl, inr, sym, subst,
}
use public_intelligence.Prelude.Except.{Except, done, failed, Except-cases}
use public_intelligence.Prelude.Float.{Floats}
use public_intelligence.Models.{Node}
use public_intelligence.Registry.{Registry, list_nodes}
use public_intelligence.Pipeline.{PipelineStage, validate_stage, validate_range, validate_config}
use public_intelligence.Engine.{
  Strategy, FloorDiv, EngineTask, model_of, requirements_of, node_capacities, split_vram_per_layer,
  rank_nodes, allocate_greedy,
}
use public_intelligence.Engine.Allocation.{
  EngineError, too_few_layers, no_live_nodes, no_eligible_nodes, unreadable_score,
  unreadable_capacity, insufficient_vram, unreadable_queue, unregistered_node, total_of, fill_nodes,
  WithinCaps, ArePositive, fill_nodes-total, fill_nodes-WithinCaps, fill_nodes-ArePositive,
}
use public_intelligence.Engine.Stages.{hosted_stage, bump_queue, enqueue, build_stages}
use public_intelligence.Engine.Chain.{stage_of, build_stages-chain}
use public_intelligence.Engine.Split.{client_stage, check_split, plan_split, schedule_split}
use public_intelligence.Engine.Boundary.{
  split_stages, check_split-split_stages, validate_config-split_stages, capacities_positive,
}

-- The errors that a plan raises, and those of counting the load of a node.
abbrev pub is_plan_error : EngineError → Bool
is_plan_error too_few_layers = true
is_plan_error no_live_nodes = true
is_plan_error no_eligible_nodes = true
is_plan_error unreadable_score = true
is_plan_error unreadable_capacity = true
is_plan_error insufficient_vram = true
is_plan_error _ = false

abbrev pub is_load_error : EngineError → Bool
is_load_error unreadable_queue = true
is_load_error unregistered_node = true
is_load_error _ = false

module _ {F P : Type 0} where
  rank_nodes-failed :
      (strategy : Strategy F P) (task : EngineTask F) (r : Registry F P) (e : EngineError)
      → rank_nodes strategy task r ≡ failed e
      → is_plan_error e ≡ true
  unfolding rank_nodes
  rank_nodes-failed strategy task r e h =
      elim (Option-cases
        (strategy.score_nodes r (strategy.filter_nodes r (requirements_of task) (list_nodes r)))) [
          | inl none_scored ↦ ground arith
          | inr (ranked, scored) ↦ ground arith
        ]

module _ {A : Type 0} where
  allocate_greedy-fill_nodes :
      (layers : ℕ) (caps : List (A × ℕ))
      → layers ≤ total_of caps
      → allocate_greedy layers caps ≡ done (fill_nodes layers caps).0
  unfolding allocate_greedy
  allocate_greedy-fill_nodes layers caps h = ground (arith, fill_nodes-total layers caps h)

module _ {F P : Type 0} ⦃fl : Floats F⦄ ⦃fd : FloorDiv F⦄ where
  -- What a plan for a split pipeline rests on.
  pub record SplitPlanned (strategy : Strategy F P) (task : EngineTask F) (r : Registry F P)
      (layers : ℕ) (allocations : List (Node F × ℕ)) : Type 0 where
    pub nodes : List (Node F)
    pub caps : List (Node F × ℕ)
    pub ranked : rank_nodes strategy task r ≡ done nodes
    pub measured :
        node_capacities (split_vram_per_layer task layers) (layers - 1) r nodes ≡ some caps
    pub two_layers : 2 ≤ layers
    pub total : total_of allocations + 1 ≡ layers
    pub positive : ArePositive allocations
    pub within : WithinCaps allocations caps

  -- A plan raises one of its errors or gives every inner layer to a node with room for it.
  plan_split-cases :
      (strategy : Strategy F P) (task : EngineTask F) (layers : ℕ) (r : Registry F P)
      → ((e : EngineError) × (plan_split strategy task layers r ≡ failed e)
          × (is_plan_error e ≡ true))
        ⊎ ((allocations : List (Node F × ℕ)) × (plan_split strategy task layers r
              ≡ done allocations)
            × SplitPlanned strategy task r layers allocations)
  unfolding plan_split
  plan_split-cases strategy task layers r = elim (Bool-cases (leb 2 layers)) [
    | inr few ↦ inl (too_few_layers, rw few, refl)
    | inl two ↦ elim (Except-cases (rank_nodes strategy task r)) [
      | inr (e, bad) ↦ inl (e, rw (two, bad), rank_nodes-failed strategy task r e bad)
      | inl (nodes, ranked) ↦
          elim (Option-cases
            (node_capacities (split_vram_per_layer task layers) (layers - 1) r nodes)) [
              | inl bad ↦ inl (unreadable_capacity, rw (two, ranked, bad), refl)
              | inr (caps, measured) ↦ elim (Bool-cases (leb (layers - 1) (total_of caps))) [
                | inr low ↦ inl (insufficient_vram, rw (two, ranked, measured, low), refl)
                | inl enough ↦
                    let room : layers - 1 ≤ total_of caps = ground arith in
                    let filled = fill_nodes-total (layers - 1) caps room in
                    let positive =
                      capacities_positive (split_vram_per_layer task layers) (layers - 1) r nodes
                        caps measured in
                    inr (
                      (fill_nodes (layers - 1) caps).0,
                      rw (two, ranked, measured, enough)
                          (allocate_greedy-fill_nodes (layers - 1) caps room),
                      record {
                        nodes = nodes;
                        caps = caps;
                        ranked = ranked;
                        measured = measured;
                        two_layers = ground arith;
                        total = ground (arith, filled.1);
                        positive = fill_nodes-ArePositive (layers - 1) caps positive;
                        within = fill_nodes-WithinCaps (layers - 1) caps;
                      },
                    )
              ]
            ]
    ]
  ]

-- A stage with a layer and an index in range is one that the model accepts.
hosted_stage-valid :
    (split : Bool) (total_stages : ℕ) (model_id : String) (index layer : ℕ) (node_id : String)
    (n : ℕ)
    → 0 < n
    → index < total_stages
    → hosted_stage split total_stages model_id index layer node_id n
      ≡ some (stage_of split total_stages model_id index layer node_id n)
unfolding hosted_stage validate_range validate_stage
hosted_stage-valid split total_stages model_id index layer node_id n p h = ground arith

module _ {F P : Type 0} ⦃fl : Floats F⦄ where
  enqueue-failed :
      (node_id : String) (r : Registry F P) (e : EngineError)
      → (enqueue node_id r).0 ≡ failed e
      → is_load_error e ≡ true
  unfolding enqueue bump_queue
  enqueue-failed node_id r e h = ground arith

  -- Where each node gets a layer, the loop fails only on the load of a node.
  build_stages-failed :
      (split : Bool) (total_stages : ℕ) (model_id : String) (index layer : ℕ)
      (allocations : List (Node F × ℕ)) (r : Registry F P) (e : EngineError)
      → ArePositive allocations
      → index + length allocations ≤ total_stages
      → (build_stages split total_stages model_id index layer allocations r).0 ≡ failed e
      → is_load_error e ≡ true
  unfolding build_stages
  build_stages-failed split total_stages model_id index layer [] r e p h k = cc
  build_stages-failed split total_stages model_id index layer ((node, n) ∷ rest) r e p h k =
      let r' = (enqueue node.node_id r).1 in
      let deeper = build_stages split total_stages model_id (index + 1) (layer + n) rest r' in
      let valid =
        hosted_stage-valid split total_stages model_id index layer node.node_id n p.0
          (omega arith) in
      let later =
        build_stages-failed split total_stages model_id (index + 1) (layer + n) rest r' e p.1
          (omega arith) in
      elim (Except-cases (enqueue node.node_id r).0) [
        | inr (bad, c) ↦ ground (arith, valid, enqueue-failed node.node_id r bad c)
        | inl (u, c) ↦ elim (Except-cases deeper.0) [
          | inr (bad, b) ↦ ground (arith, valid, later)
          | inl (more, b) ↦ ground (arith, valid)
        ]
      ]

checked_split :
    {F : Type 0} (model_id task_id : String) (layers : ℕ) (allocations : List (Node F × ℕ))
    → 2 ≤ layers
    → ArePositive allocations
    → total_of allocations + 1 ≡ layers
    → let stages = split_stages (length allocations + 2) model_id layers allocations in
      (check_split layers stages ≡ done tt)
      × (validate_config (record {
        task_id = task_id;
        model_id = model_id;
        total_layers = layers;
        stages = stages;
      })
          ≡ none)
unfolding total_of
checked_split model_id task_id layers [] two p t = absurd (omega arith)
checked_split model_id task_id layers ((node, n) ∷ rest) two p t = (
  check_split-split_stages model_id layers n node rest p.0 p.1 t,
  validate_config-split_stages model_id layers n node rest p.0 p.1 t task_id,
)

client_stage-valid :
    (total_stages : ℕ) (model_id : String) (index layer : ℕ) (stage_type : String)
    → index < total_stages
    → validate_stage (client_stage total_stages model_id index layer stage_type)
      ≡ some (client_stage total_stages model_id index layer stage_type)
unfolding validate_stage
client_stage-valid total_stages model_id index layer stage_type h = ground arith

module _ {F P : Type 0} ⦃fl : Floats F⦄ ⦃fd : FloorDiv F⦄ where
  -- What a call may return: the chain of a plan, or an error of the plan or of the load of a node.
  abbrev pub IsSplitOutcome :
      Strategy F P
      → EngineTask F
      → ℕ
      → Registry F P
      → Except EngineError (List PipelineStage)
      → Type 0
  IsSplitOutcome strategy task layers r (failed e) = (is_plan_error e || is_load_error e) ≡ true
  IsSplitOutcome strategy task layers r (done stages) =
      ((allocations : List (Node F × ℕ)) × SplitPlanned strategy task r layers allocations
        × (stages ≡ split_stages (length allocations + 2) (model_of task) layers allocations))
      × (validate_config (record {
        task_id = task.task_id;
        model_id = model_of task;
        total_layers = layers;
        stages = stages;
      })
          ≡ none)

  -- `schedule_split_inference_pipeline` returns the client's two stages around a chain of stages of
  -- ranked nodes within their capacities, which is a pipeline that `PipelineConfig` accepts; or it
  -- fails in planning or on the load of a node. Its checks of what it built never fail.
  pub schedule_split-IsSplitOutcome :
      (strategy : Strategy F P) (task : EngineTask F) (total_layers : ℕ) (r : Registry F P)
      → IsSplitOutcome strategy task
          (Option.get_or task.total_layers total_layers)
          r
          (schedule_split strategy task total_layers r).0
  unfolding schedule_split
  schedule_split-IsSplitOutcome strategy task total_layers r =
      let layers = Option.get_or task.total_layers total_layers in
      let model_id = model_of task in
      let IsOutcome = IsSplitOutcome strategy task layers r in
      let result = schedule_split strategy task total_layers r in
      elim (plan_split-cases strategy task layers r) [
        | inl (e, bad, kind) ↦
            let raised : result.0 ≡ failed e = rw bad in
            subst IsOutcome (sym raised) (ground (arith, kind))
        | inr (allocations, plan, planned) ↦
            let total_stages = length allocations + 2 in
            let built = build_stages true total_stages model_id 1 1 allocations r in
            let stages = split_stages total_stages model_id layers allocations in
            let (checked, valid) =
              checked_split model_id task.task_id layers allocations planned.two_layers
                planned.positive planned.total in
            let first =
              client_stage-valid total_stages model_id 0 0 "client_embedding" (omega arith) in
            let last =
              client_stage-valid total_stages model_id (total_stages - 1) layers "client_lm_head"
                (omega arith) in
            elim (Except-cases built.0) [
              | inr (e, b) ↦
                  let raised : result.0 ≡ failed e = rw (plan, first, b) in
                  subst IsOutcome (sym raised) (
                    ground (
                      arith,
                      build_stages-failed true total_stages model_id 1 1 allocations r e
                          planned.positive (omega arith) b,
                    ))
              | inl (remote, b) ↦
                  let (same, positive) =
                    build_stages-chain true total_stages model_id 1 1 allocations r remote b in
                  let returned : result.0 ≡ done stages =
                    rw (plan, first, b, last, same, checked) in
                  subst IsOutcome (sym returned) ((allocations, planned, refl), valid)
            ]
      ]
