-- ===== src/Engine/Boundary.antt =====
-- The split-inference chain passes its own checks and those of the pipeline model.

use public_intelligence.Prelude.{
  ℕ, suc, ◌+◌, ◌-◌, ◌≡◌, ◌<◌, refl, String, Bool, true, false, none, some, List, [], ◌∷◌, ◌++◌,
  length, arith, Option-cases, inl, inr, length-append, ap,
}
use public_intelligence.Prelude.Except.{done}
use public_intelligence.Prelude.Float.{Floats}
use public_intelligence.Models.{Node}
use public_intelligence.Registry.{Registry}
use public_intelligence.Pipeline.{
  PipelineStage, validate_config, expected_end, last_stage, has_index_mismatch, has_discontinuity,
}
use public_intelligence.Engine.{FloorDiv, node_capacities}
use public_intelligence.Engine.Allocation.{total_of, ArePositive}
use public_intelligence.Engine.Chain.{chain, stage_of, has_index_mismatch-chain, chain_ends}
use public_intelligence.Engine.Split.{
  client_stage, check_split, all_remote, are_contiguous, but_last,
}

last_stage-append :
    (s l : PipelineStage) (xs : List PipelineStage) → last_stage s (xs ++ (l ∷ [])) ≡ l
unfolding last_stage
last_stage-append s l [] = refl
last_stage-append s l (x ∷ xs) = last_stage-append x l xs

last_stage-cons :
    (s x : PipelineStage) (xs : List PipelineStage) → last_stage s (x ∷ xs) ≡ last_stage x xs
unfolding last_stage
last_stage-cons s x xs = refl

but_last-append :
    (s l : PipelineStage) (xs : List PipelineStage) → but_last (s ∷ (xs ++ (l ∷ []))) ≡ s ∷ xs
unfolding but_last
but_last-append s l [] = refl
but_last-append s l (x ∷ xs) = ap (◌∷◌ s) (but_last-append x l xs)

has_index_mismatch-append :
    (i : ℕ) (l : PipelineStage) (xs : List PipelineStage)
    → has_index_mismatch i xs ≡ false
    → l.stage_index ≡ i + length xs
    → has_index_mismatch i (xs ++ (l ∷ [])) ≡ false
unfolding has_index_mismatch
has_index_mismatch-append i l [] h e = ground arith
has_index_mismatch-append i l (x ∷ xs) h e = ground (arith, has_index_mismatch-append (i + 1) l xs)

has_discontinuity-append :
    (s l : PipelineStage) (xs : List PipelineStage)
    → has_discontinuity s xs ≡ false
    → (last_stage s xs).layer_range.end_layer + 1 ≡ l.layer_range.start_layer
    → has_discontinuity s (xs ++ (l ∷ [])) ≡ false
unfolding has_discontinuity last_stage
has_discontinuity-append s l [] h e = ground arith
has_discontinuity-append s l (x ∷ xs) h e = ground (arith, has_discontinuity-append x l xs)

are_contiguous-append :
    (s : PipelineStage) (xs ys : List PipelineStage)
    → has_discontinuity s xs ≡ false
    → are_contiguous (length xs) (s ∷ (xs ++ ys)) ≡ true
unfolding has_discontinuity are_contiguous
are_contiguous-append s [] ys h = refl
are_contiguous-append s (x ∷ xs) ys h = ground (arith, are_contiguous-append x xs ys)

module _ {F : Type 0} where
  length-chain :
      (split : Bool) (total_stages : ℕ) (model_id : String) (index layer : ℕ)
      (allocations : List (Node F × ℕ))
      → length (chain split total_stages model_id index layer allocations) ≡ length allocations
  unfolding chain
  length-chain split total_stages model_id index layer [] = refl
  length-chain split total_stages model_id index layer ((node, n) ∷ rest) =
      ap suc (length-chain split total_stages model_id (index + 1) (layer + n) rest)

  all_remote-chain :
      (total_stages : ℕ) (model_id : String) (index layer : ℕ) (allocations : List (Node F × ℕ))
      → all_remote (chain true total_stages model_id index layer allocations) ≡ true
  unfolding chain all_remote
  all_remote-chain total_stages model_id index layer [] = refl
  all_remote-chain total_stages model_id index layer ((node, n) ∷ rest) =
      all_remote-chain total_stages model_id (index + 1) (layer + n) rest

-- The stages that the call puts together.
abbrev pub split_stages : {F : Type 0} → ℕ → String → ℕ → List (Node F × ℕ) → List PipelineStage
split_stages total_stages model_id layers allocations =
    client_stage total_stages model_id 0 0 "client_embedding"
    ∷ (chain true total_stages model_id 1 1 allocations
        ++ (client_stage total_stages model_id (total_stages - 1) layers "client_lm_head" ∷ []))

module _ {F : Type 0} (model_id : String) (layers n : ℕ) (node : Node F) (rest : List (Node F × ℕ))
    (positive : 0 < n) (others : ArePositive rest) (total : n + total_of rest + 1 ≡ layers) where
  abbrev pub stages_in : ℕ
  stages_in = suc (length rest) + 2

  pub check_split-split_stages :
      check_split layers (split_stages stages_in model_id layers ((node, n) ∷ rest)) ≡ done tt
  unfolding check_split chain
  check_split-split_stages =
      let first = client_stage stages_in model_id 0 0 "client_embedding" in
      let last = client_stage stages_in model_id (stages_in - 1) layers "client_lm_head" in
      let second = stage_of true stages_in model_id 1 1 node.node_id n in
      let later = chain true stages_in model_id 2 (1 + n) rest in
      let (gaps, ends, kind) =
        chain_ends true stages_in model_id 1 1 n node.node_id rest positive others in
      let rounds : suc (suc (length (later ++ (last ∷ [])))) - 3 ≡ length later =
        omega (arith, length-append later (last ∷ [])) in
      rw
        (
          last_stage-append first last (second ∷ later),
          rounds,
          are_contiguous-append second later (last ∷ []) gaps,
          but_last-append second last later,
          last_stage-cons first second later,
          all_remote-chain stages_in model_id 1 1 ((node, n) ∷ rest),
        )
        (ground (arith, ends))

  pub validate_config-split_stages :
      (task_id : String)
      → validate_config (record {
        task_id = task_id;
        model_id = model_id;
        total_layers = layers;
        stages = split_stages stages_in model_id layers ((node, n) ∷ rest);
      })
        ≡ none
  unfolding validate_config expected_end has_discontinuity has_index_mismatch chain
  validate_config-split_stages task_id =
      let first = client_stage stages_in model_id 0 0 "client_embedding" in
      let last = client_stage stages_in model_id (stages_in - 1) layers "client_lm_head" in
      let second = stage_of true stages_in model_id 1 1 node.node_id n in
      let later = chain true stages_in model_id 2 (1 + n) rest in
      let (gaps, ends, kind) =
        chain_ends true stages_in model_id 1 1 n node.node_id rest positive others in
      let indexes =
        has_index_mismatch-append 2 last later
          (has_index_mismatch-chain true stages_in model_id 2 (1 + n) rest)
          (omega (arith, length-chain true stages_in model_id 2 (1 + n) rest)) in
      let joined = has_discontinuity-append second last later gaps (omega (arith, ends)) in
      rw (last_stage-append first last (second ∷ later), indexes, joined) (ground arith)

module _ {F P : Type 0} ⦃fl : Floats F⦄ ⦃fd : FloorDiv F⦄ where
  pub capacities_positive :
      (vram : F) (default : ℕ) (r : Registry F P) (nodes : List (Node F)) (caps : List (Node F × ℕ))
      → node_capacities vram default r nodes ≡ some caps
      → ArePositive caps
  unfolding node_capacities
  capacities_positive vram default r [] caps h = ground arith
  capacities_positive vram default r (node ∷ nodes) caps h =
      elim (Option-cases (node_capacities vram default r nodes)) [
        | inl e ↦ ground arith
        | inr (more, e) ↦ ground (arith, capacities_positive vram default r nodes more e)
      ]
