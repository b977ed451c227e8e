-- ===== src/Selection/Tests.antt =====
-- Runs of the selection, and its theorem at a concrete input.
use public_intelligence.Prelude.{ℕ, ◌≡◌, ◌⊎◌, refl, some, none, [], ◌∷◌}
use public_intelligence.Prelude.Dict.{lookup, contains, insert, erase, update}
use public_intelligence.Models.{Node}
use public_intelligence.Registry.{
  Registry, new_registry, register, update_heartbeat, increment_dampener, list_nodes, get_heartbeat,
  get_dampener,
}
use public_intelligence.Selection.{
  load_score, eligible_score, eligible_nodes, min_scored, select_node,
}
use public_intelligence.Selection.Best.{
  AreComparable, NothingToSelect, SelectsLeast, select_node-Selects,
}
use public_intelligence.Examples.{tenths, tenths-FloatOrder, plain, node_a, node_b, beat_a}

program : Unit {0}
unfolding lookup contains insert erase update register update_heartbeat increment_dampener
    list_nodes get_heartbeat get_dampener load_score eligible_score eligible_nodes min_scored
    select_node
program = tt

abbrev serving_b : Node ℕ
serving_b = record node_b { available_models = "m" ∷ [] }

-- Node a has the longer queue.
abbrev observed : Registry ℕ (Node ℕ)
observed =
    (update_heartbeat (record beat_a { node_id = "b"; queue_length = 1 })
      (update_heartbeat beat_a (register serving_b (register node_a (new_registry none)).1).1).1).1

less_loaded : (select_node "m" observed).0 ≡ some serving_b
unfolding program
less_loaded = refl

-- A selected node's dampener makes room for the other one in the end.
abbrev used : Registry ℕ (Node ℕ)
used =
    (increment_dampener "b"
      (increment_dampener "b"
        (increment_dampener "b"
          (increment_dampener "b" (increment_dampener "b" observed).1).1).1).1).1

dampened : (select_node "m" used).0 ≡ some node_a
unfolding program
dampened = refl

unknown_model : select_node "n" observed ≡ (none, observed)
unfolding program
unknown_model = refl

comparable : AreComparable tenths-FloatOrder "m" observed
comparable = λ node score listed eligible. refl

select_node-Selects_example : NothingToSelect "m" observed ⊎ SelectsLeast "m" observed
select_node-Selects_example = select_node-Selects tenths-FloatOrder "m" observed comparable
