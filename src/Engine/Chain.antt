-- ===== src/Engine/Chain.antt =====
-- The stages that the loop builds, described without the loop, and what they have in common.
use public_intelligence.Prelude.{
  ℕ, ◌+◌, ◌-◌, ◌≡◌, ◌<◌, refl, String, Bool, true, false, some, List, [], ◌∷◌, if◌then◌else◌, arith,
  inl, inr, Option-cases,
}
use public_intelligence.Prelude.Except.{done, Except-cases}
use public_intelligence.Prelude.Float.{Floats}
use public_intelligence.Models.{Node}
use public_intelligence.Registry.{Registry}
use public_intelligence.Pipeline.{
  PipelineStage, validate_range, validate_stage, has_index_mismatch, last_stage, is_split,
  has_discontinuity,
}
use public_intelligence.Pipeline.Partition.{AreRanges}
use public_intelligence.Engine.Allocation.{total_of, ArePositive}
use public_intelligence.Engine.Stages.{hosted_stage, enqueue, build_stages}

-- A stage of a node, of at least one layer.
abbrev pub stage_of : Bool → ℕ → String → ℕ → ℕ → String → ℕ → PipelineStage
stage_of split total_stages model_id index layer node_id layer_count = record {
  stage_index = index;
  total_stages = total_stages;
  layer_range = record { start_layer = layer; end_layer = layer + layer_count - 1 };
  node_id = node_id;
  model_id = model_id;
  is_local_boundary = false;
  stage_type = if split then "remote_hidden" else "compute";
  is_split_inference = split;
}

pub hosted_stage_lem :
    (split : Bool) (total_stages : ℕ) (model_id : String) (index layer : ℕ) (node_id : String)
    (layer_count : ℕ) (stage : PipelineStage)
    → hosted_stage split total_stages model_id index layer node_id layer_count ≡ some stage
    → (stage ≡ stage_of split total_stages model_id index layer node_id layer_count)
      × (0 < layer_count)
unfolding hosted_stage validate_range validate_stage
hosted_stage_lem split total_stages model_id index layer node_id layer_count stage h =
    (ground arith, ground arith)

module _ {F : Type 0} where
  unfoldable pub chain : Bool → ℕ → String → ℕ → ℕ → List (Node F × ℕ) → List PipelineStage
  chain split total_stages model_id index layer [] = []
  chain split total_stages model_id index layer ((node, layer_count) ∷ rest) =
      stage_of split total_stages model_id index layer node.node_id layer_count
      ∷ chain split total_stages model_id (index + 1) (layer + layer_count) rest

module _ {F P : Type 0} ⦃fl : Floats F⦄ where
  -- What the loop returns is the chain, and each of its stages has a layer.
  pub build_stages-chain :
      (split : Bool) (total_stages : ℕ) (model_id : String) (index layer : ℕ)
      (allocations : List (Node F × ℕ)) (r : Registry F P) (stages : List PipelineStage)
      → (build_stages split total_stages model_id index layer allocations r).0 ≡ done stages
      → (stages ≡ chain split total_stages model_id index layer allocations)
        × ArePositive allocations
  unfolding build_stages chain
  build_stages-chain split total_stages model_id index layer [] r stages h = (ground arith, tt)
  build_stages-chain split total_stages model_id index layer ((node, n) ∷ rest) r stages h =
      let r' = (enqueue node.node_id r).1 in
      let deeper = build_stages split total_stages model_id (index + 1) (layer + n) rest r' in
      let later = build_stages-chain split total_stages model_id (index + 1) (layer + n) rest r' in
      elim (Option-cases (hosted_stage split total_stages model_id index layer node.node_id n)) [
        | inl e ↦ absurd (ground arith)
        | inr (stage, e) ↦
            let first =
              hosted_stage_lem split total_stages model_id index layer node.node_id n stage e in
            elim (Except-cases (enqueue node.node_id r).0) [
              | inr (bad, c) ↦ absurd (ground arith)
              | inl (u, c) ↦ elim (Except-cases deeper.0) [
                | inr (bad, b) ↦ absurd (ground arith)
                | inl (more, b) ↦ (ground (arith, later more b, first), (first.1, (later more b).1))
              ]
            ]
      ]

module _ {F : Type 0} where
  pub has_index_mismatch-chain :
      (split : Bool) (total_stages : ℕ) (model_id : String) (index layer : ℕ)
      (allocations : List (Node F × ℕ))
      → has_index_mismatch index (chain split total_stages model_id index layer allocations) ≡ false
  unfolding chain has_index_mismatch
  has_index_mismatch-chain split total_stages model_id index layer [] = refl
  has_index_mismatch-chain split total_stages model_id index layer ((node, n) ∷ rest) =
      ground
        (arith, has_index_mismatch-chain split total_stages model_id (index + 1) (layer + n) rest)

  pub AreRanges-chain :
      (split : Bool) (total_stages : ℕ) (model_id : String) (index layer : ℕ)
      (allocations : List (Node F × ℕ))
      → ArePositive allocations
      → AreRanges (chain split total_stages model_id index layer allocations)
  unfolding chain validate_range
  AreRanges-chain split total_stages model_id index layer [] p = tt
  AreRanges-chain split total_stages model_id index layer ((node, n) ∷ rest) p =
      (ground arith, AreRanges-chain split total_stages model_id (index + 1) (layer + n) rest p.1)

  -- What holds of a stage and the chain behind it, up to the last one.
  pub chain_ends :
      (split : Bool) (total_stages : ℕ) (model_id : String) (index layer n : ℕ) (node_id : String)
      (rest : List (Node F × ℕ))
      → 0 < n
      → ArePositive rest
      → let stage = stage_of split total_stages model_id index layer node_id n in
        let stages = chain split total_stages model_id (index + 1) (layer + n) rest in
        (has_discontinuity stage stages ≡ false)
        × ((last_stage stage stages).layer_range.end_layer + 1 ≡ layer + (n + total_of rest))
        × (is_split (last_stage stage stages) ≡ split)
  unfolding chain has_discontinuity last_stage total_of
  chain_ends split total_stages model_id index layer n node_id [] p q =
      (refl, ground arith, ends_split split)
    where
      ends_split :
          (b : Bool) → is_split (stage_of b total_stages model_id index layer node_id n) ≡ b
      ends_split true = refl
      ends_split false = refl
  chain_ends split total_stages model_id index layer n node_id ((node, m) ∷ rest) p q =
      let (gaps, ends, kind) =
        chain_ends split total_stages model_id (index + 1) (layer + n) m node.node_id rest q.0
          q.1 in
      (ground arith, ground arith, kind)
