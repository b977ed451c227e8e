-- ===== src/Selection.antt =====
-- The scheduling algorithm (packages/scheduler/src/scheduler/scheduler/algorithm.py).
pub mod Best
mod Tests
use public_intelligence.Prelude.{
  ◌≡◌, String, Bool, true, false, not, Option, none, some, List, [], ◌∷◌, if◌then◌else◌,
}
use public_intelligence.Prelude.Float.{Floats}
use public_intelligence.Models.{NodeStatus, online, offline, busy, unknown, Node, Heartbeat}
use public_intelligence.Registry.{
  Registry, list_nodes, get_heartbeat, get_dampener, increment_dampener,
}
use public_intelligence.Canary.Words.{is_member}

-- `heartbeat.status == NodeStatus.OFFLINE`
abbrev pub is_offline : NodeStatus → Bool
is_offline offline = true
is_offline _ = false

module _ {F : Type 0} ⦃fl : Floats F⦄ where
  -- A node without VRAM counts as if all of it were in use.
  abbrev vram_ratio : Heartbeat F → Node F → F
  vram_ratio heartbeat node =
      let total = node.gpu.vram_total_gb in
      if fl.lt (fl.decimal 0 1) total
      then fl.div heartbeat.vram_available_gb total
      else fl.decimal 0 1

  -- The lower, the better.
  unfoldable pub load_score : Node F → Heartbeat F → F → F
  load_score node heartbeat dampener =
      let gpu = fl.div heartbeat.gpu_utilization (fl.of_ℕ 100) in
      let cpu = fl.div heartbeat.cpu_utilization (fl.of_ℕ 100) in
      fl.add
        (fl.add
          (fl.add
            (fl.add (fl.mul (fl.of_ℕ heartbeat.queue_length) (fl.decimal 4 1))
              (fl.mul gpu (fl.decimal 3 1)))
            (fl.mul cpu (fl.decimal 1 1)))
          (fl.mul (fl.sub (fl.decimal 10 1) (vram_ratio heartbeat node)) (fl.decimal 2 1)))
        dampener

module _ {F P : Type 0} ⦃fl : Floats F⦄ where
  -- One round of the loop: the score of a node that may serve the model.
  unfoldable pub eligible_score : Registry F P → String → Node F → Option F
  eligible_score r model_name node =
      if not (is_member model_name node.available_models)
      then none
      else elim (get_heartbeat node.node_id r) [
        | none ↦ none
        | some heartbeat ↦
            if is_offline heartbeat.status
            then none
            else some (load_score node heartbeat (get_dampener node.node_id r))
      ]

  unfoldable pub eligible_nodes : Registry F P → String → List (Node F) → List (Node F × F)
  unfolding eligible_score
  eligible_nodes r model_name [] = []
  eligible_nodes r model_name (node ∷ nodes) =
      let rest = eligible_nodes r model_name nodes in
      elim (eligible_score r model_name node) [ none ↦ rest | some score ↦ (node, score) ∷ rest ]

module _ {F : Type 0} ⦃fl : Floats F⦄ where
  -- Python's `min` by the score: an entry replaces the one at hand only if it is less.
  unfoldable pub min_scored : Node F × F → List (Node F × F) → Node F × F
  min_scored best [] = best
  min_scored best (x ∷ xs) = min_scored (if fl.lt x.1 best.1 then x else best) xs

  abbrev pub choose : List (Node F × F) → Option (Node F)
  choose [] = none
  choose (x ∷ xs) = some (min_scored x xs).0

module _ {F P : Type 0} ⦃fl : Floats F⦄ where
  -- `none` is the ValueError that no node is eligible.
  unfoldable pub select_node : String → Registry F P → Option (Node F) × Registry F P
  unfolding eligible_nodes min_scored
  select_node model_name r = elim (choose (eligible_nodes r model_name (list_nodes r))) [
    | none ↦ (none, r)
    | some node ↦ (some node, (increment_dampener node.node_id r).1)
  ]
