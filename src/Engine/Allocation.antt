-- ===== src/Engine/Allocation.antt =====
-- How layers are shared out among nodes (packages/scheduler/src/scheduler/core/engine.py).
use public_intelligence.Prelude.{
  ℕ, zero, suc, ◌+◌, ◌-◌, ◌*◌, ◌≡◌, ◌≤◌, ◌<◌, List, [], ◌∷◌, ltb, ◌==◌, if◌then◌else◌, arith, inl,
  inr,
}
use public_intelligence.Prelude.Except.{Except, done, failed, ◌>>=◌, Except-cases}

-- The ValueErrors of the engine's calls; `no_ranked_node` and `missing_stage` are IndexErrors, and
-- `unreadable_queue` is a TypeError.
pub data EngineError : Type 0 where
  no_layers no_live_nodes no_eligible_nodes no_ranked_node : EngineError
  unreadable_score unreadable_capacity insufficient_vram : EngineError
  no_stages too_few_nodes stage_too_large unassigned_layers : EngineError
  invalid_stage unreadable_queue unregistered_node : EngineError
  too_few_layers invalid_boundary missing_stage bad_checksum no_replacement : EngineError

mul-suc_lem : (a b : ℕ) → a * suc b ≡ a * b + a
mul-suc_lem a b = grind arith

-- `A` is the type of the nodes.
module _ {A : Type 0} where
  -- The sum of the capacities, and of the layers that were assigned.
  unfoldable pub total_of : List (A × ℕ) → ℕ
  total_of [] = 0
  total_of ((node, layers) ∷ rest) = layers + total_of rest

  abbrev pub cons_allocation : A × ℕ → List (A × ℕ) × ℕ → List (A × ℕ) × ℕ
  cons_allocation a (rest, remaining) = (a ∷ rest, remaining)

  -- The greedy loop: each node takes what it can of the remaining layers, until none remain.
  unfoldable pub fill_nodes : ℕ → List (A × ℕ) → List (A × ℕ) × ℕ
  fill_nodes remaining [] = ([], remaining)
  fill_nodes remaining ((node, cap) ∷ nodes) =
      let assigned = if ltb cap remaining then cap else remaining in
      let rest = fill_nodes (remaining - assigned) nodes in
      if remaining == 0 then ([], remaining) else cons_allocation (node, assigned) rest

  -- The loop over the requested stages, from stage i on: the first `rem` stages get a layer more.
  unfoldable pub even_stages : ℕ → ℕ → ℕ → ℕ → List (A × ℕ) → Except EngineError (List (A × ℕ))
  even_stages base rem i zero nodes = done []
  even_stages base rem i (suc left) [] = failed too_few_nodes
  even_stages base rem i (suc left) ((node, cap) ∷ nodes) =
      let assigned = base + (if ltb i rem then 1 else 0) in
      let rest = even_stages base rem (i + 1) left nodes in
      if ltb cap assigned
      then failed stage_too_large
      else (rest >>= λ more. done ((node, assigned) ∷ more))

  -- Each node takes at most its capacity, in the order of the capacities.
  abbrev pub WithinCaps : List (A × ℕ) → List (A × ℕ) → Type 0
  WithinCaps [] caps = Unit
  WithinCaps (a ∷ given) [] = ⊥
  WithinCaps (a ∷ given) (c ∷ caps) = (a.0 ≡ c.0) × (a.1 ≤ c.1) × WithinCaps given caps

  -- Each node takes at least one layer.
  abbrev pub ArePositive : List (A × ℕ) → Type 0
  ArePositive [] = Unit
  ArePositive (a ∷ given) = (0 < a.1) × ArePositive given

  pub fill_nodes-total :
      (remaining : ℕ) (caps : List (A × ℕ))
      → remaining ≤ total_of caps
      → ((fill_nodes remaining caps).1 ≡ 0) × (total_of (fill_nodes remaining caps).0 ≡ remaining)
  unfolding fill_nodes total_of
  fill_nodes-total remaining [] h = (omega arith, omega arith)
  fill_nodes-total remaining ((node, cap) ∷ caps) h =
      let assigned = if ltb cap remaining then cap else remaining in
      ground (arith, fill_nodes-total (remaining - assigned) caps)

  pub fill_nodes-WithinCaps :
      (remaining : ℕ) (caps : List (A × ℕ)) → WithinCaps (fill_nodes remaining caps).0 caps
  unfolding fill_nodes
  fill_nodes-WithinCaps remaining [] = tt
  fill_nodes-WithinCaps remaining ((node, cap) ∷ caps) =
      let assigned = if ltb cap remaining then cap else remaining in
      ground (arith, fill_nodes-WithinCaps (remaining - assigned) caps)

  pub fill_nodes-ArePositive :
      (remaining : ℕ) (caps : List (A × ℕ))
      → ArePositive caps
      → ArePositive (fill_nodes remaining caps).0
  unfolding fill_nodes
  fill_nodes-ArePositive remaining [] p = tt
  fill_nodes-ArePositive remaining ((node, cap) ∷ caps) p =
      let assigned = if ltb cap remaining then cap else remaining in
      ground (arith, fill_nodes-ArePositive (remaining - assigned) caps p.1)

  -- With no more capacity than asked for the loop still ends with nothing but what is missing.
  pub even_stages-total :
      (base rem i left : ℕ) (caps given : List (A × ℕ))
      → rem ≤ i + left
      → even_stages base rem i left caps ≡ done given
      → total_of given ≡ base * left + (rem - i)
  unfolding even_stages total_of
  even_stages-total base rem i zero caps given k e = ground arith
  even_stages-total base rem i (suc left) [] given k e = cc
  even_stages-total base rem i (suc left) ((node, cap) ∷ caps) given k e =
      let assigned = base + (if ltb i rem then 1 else 0) in
      elim (Except-cases (even_stages base rem (i + 1) left caps)) [
        | inl (more, r) ↦ ground (
          arith,
          even_stages-total base rem (i + 1) left caps more (omega arith) r,
          mul-suc_lem base left,
        )
        | inr (bad, r) ↦ ground arith
      ]

  pub even_stages-WithinCaps :
      (base rem i left : ℕ) (caps given : List (A × ℕ))
      → even_stages base rem i left caps ≡ done given
      → WithinCaps given caps
  unfolding even_stages
  even_stages-WithinCaps base rem i zero caps given e = ground arith
  even_stages-WithinCaps base rem i (suc left) [] given e = cc
  even_stages-WithinCaps base rem i (suc left) ((node, cap) ∷ caps) given e =
      elim (Except-cases (even_stages base rem (i + 1) left caps)) [
        | inl (more, r) ↦ ground (arith, even_stages-WithinCaps base rem (i + 1) left caps more r)
        | inr (bad, r) ↦ ground arith
      ]
