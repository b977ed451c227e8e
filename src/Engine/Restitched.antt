-- ===== src/Engine/Restitched.antt =====
-- A pipeline after the replacement of an evicted node.
use public_intelligence.Prelude.{
  ℕ, ◌+◌, ◌≡◌, refl, String, Bool, true, false, not, some, List, [], ◌∷◌, str_eq, if◌then◌else◌,
  arith, keep, map, AllPass, Option-cases, inl, inr,
}
use public_intelligence.Prelude.Except.{done, Except-cases}
use public_intelligence.Models.{Node}
use public_intelligence.Registry.{Registry, list_nodes}
use public_intelligence.Pipeline.{
  PipelineStage, validate_stage, validate_config, expected_end, last_stage, has_index_mismatch,
  has_discontinuity,
}
use public_intelligence.Engine.Split.{Snapshot, first_of, restitch_stages, restitch_pipeline}

-- The stage with the replacement in the place of the failed node.
abbrev pub replaced : String → String → PipelineStage → PipelineStage
replaced failed_node_id node_id stage =
    if str_eq stage.node_id failed_node_id then record stage { node_id = node_id } else stage

module _ (failed_node_id node_id : String) where
  restitch_stages-map :
      (stages stages' : List PipelineStage)
      → restitch_stages failed_node_id node_id stages ≡ done stages'
      → stages' ≡ map (replaced failed_node_id node_id) stages
  unfolding restitch_stages validate_stage
  restitch_stages-map [] stages' h = ground arith
  restitch_stages-map (stage ∷ stages) stages' h =
      elim (Except-cases (restitch_stages failed_node_id node_id stages)) [
        | inl (more, e) ↦ ground (arith, restitch_stages-map stages more e)
        | inr (bad, e) ↦ ground arith
      ]

  has_index_mismatch-replaced :
      (i : ℕ) (stages : List PipelineStage)
      → has_index_mismatch i (map (replaced failed_node_id node_id) stages)
        ≡ has_index_mismatch i stages
  unfolding has_index_mismatch
  has_index_mismatch-replaced i [] = refl
  has_index_mismatch-replaced i (stage ∷ stages) =
      ground (arith, has_index_mismatch-replaced (i + 1) stages)

  has_discontinuity-replaced :
      (stage : PipelineStage) (stages : List PipelineStage)
      → has_discontinuity
          (replaced failed_node_id node_id stage)
          (map (replaced failed_node_id node_id) stages)
        ≡ has_discontinuity stage stages
  unfolding has_discontinuity
  has_discontinuity-replaced stage [] = refl
  has_discontinuity-replaced stage (next ∷ stages) =
      ground (arith, has_discontinuity-replaced next stages)

  last_stage-replaced :
      (stage : PipelineStage) (stages : List PipelineStage)
      → last_stage
          (replaced failed_node_id node_id stage)
          (map (replaced failed_node_id node_id) stages)
        ≡ replaced failed_node_id node_id (last_stage stage stages)
  unfolding last_stage
  last_stage-replaced stage [] = refl
  last_stage-replaced stage (next ∷ stages) = last_stage-replaced next stages

  expected_end-replaced :
      (layers : ℕ) (stage : PipelineStage)
      → expected_end layers (replaced failed_node_id node_id stage) ≡ expected_end layers stage
  unfolding expected_end
  expected_end-replaced layers stage = ground arith

  range-replaced :
      (stage : PipelineStage)
      → (replaced failed_node_id node_id stage).layer_range ≡ stage.layer_range
  range-replaced stage = ground arith

  -- The validator of a pipeline reads nothing that a replacement changes.
  validate_config-replaced :
      (task_id model_id : String) (layers : ℕ) (stages : List PipelineStage)
      → validate_config (record {
        task_id = task_id;
        model_id = model_id;
        total_layers = layers;
        stages = map (replaced failed_node_id node_id) stages;
      })
        ≡ validate_config (record {
          task_id = task_id;
          model_id = model_id;
          total_layers = layers;
          stages = stages;
        })
  unfolding validate_config
  validate_config-replaced task_id model_id layers [] = refl
  validate_config-replaced task_id model_id layers (stage ∷ stages) = rw (
    has_index_mismatch-replaced 0 (stage ∷ stages),
    last_stage-replaced stage stages,
    expected_end-replaced layers (last_stage stage stages),
    has_discontinuity-replaced stage stages,
    range-replaced stage,
    range-replaced (last_stage stage stages),
  )

  -- No stage is left with the failed node.
  replaced-AllPass :
      (stages : List PipelineStage)
      → str_eq node_id failed_node_id ≡ false
      → AllPass
          (λ stage. not (str_eq stage.node_id failed_node_id))
          (map (replaced failed_node_id node_id) stages)
  replaced-AllPass [] h = tt
  replaced-AllPass (stage ∷ stages) h = (ground arith, replaced-AllPass stages h)

first_of-keep :
    {A : Type 0} (p : A → Bool) (xs : List A) (x : A) → first_of (keep p xs) ≡ some x → p x ≡ true
first_of-keep p [] x h = cc
first_of-keep p (y ∷ ys) x h = ground (arith, first_of-keep p ys x)

module _ {F P B : Type 0} where
  -- A restitch that returns has checked the snapshot's digest and found a registered node other than
  -- the failed one; each stage of the failed node is that node's now, and the other stages are as
  -- they were, so that no stage is left with the failed node and `PipelineConfig` judges the
  -- pipeline as before.
  pub restitch_pipeline-validate_config :
      (sha256 : B → String) (failed_node_id : String) (snapshot : Snapshot B)
      (stages stages' : List PipelineStage) (r : Registry F P) (task_id model_id : String)
      (layers : ℕ)
      → restitch_pipeline sha256 failed_node_id snapshot stages r ≡ done stages'
      → (str_eq (sha256 snapshot.cache_bytes) snapshot.checksum ≡ true)
        × ((node : Node F) × (first_of
                (keep (λ n. not (str_eq n.node_id failed_node_id)) (list_nodes r))
              ≡ some node)
            × (stages' ≡ map (replaced failed_node_id node.node_id) stages))
        × AllPass (λ stage. not (str_eq stage.node_id failed_node_id)) stages'
        × (validate_config (record {
          task_id = task_id;
          model_id = model_id;
          total_layers = layers;
          stages = stages';
        })
            ≡ validate_config (record {
              task_id = task_id;
              model_id = model_id;
              total_layers = layers;
              stages = stages;
            }))
  unfolding restitch_pipeline
  restitch_pipeline-validate_config sha256 failed_node_id snapshot stages stages' r task_id model_id
        layers h =
      let other = λ (n : Node F). not (str_eq n.node_id failed_node_id) in
      elim (Option-cases (first_of (keep other (list_nodes r)))) [
        | inl lost ↦ absurd (ground arith)
        | inr (node, found) ↦
            let passed : restitch_stages failed_node_id node.node_id stages ≡ done stages' =
              ground arith in
            let same = restitch_stages-map failed_node_id node.node_id stages stages' passed in
            let apart : str_eq node.node_id failed_node_id ≡ false =
              ground (arith, first_of-keep other (list_nodes r) node found) in
            (
              ground arith,
              (node, found, same),
              rw same (replaced-AllPass failed_node_id node.node_id stages apart),
              rw same (
                  validate_config-replaced failed_node_id node.node_id task_id model_id layers
                    stages),
            )
      ]
