-- ===== src/Registry/Tests.antt =====
-- Runs of the registry, and its theorems at concrete inputs.
use public_intelligence.Prelude.{ℕ, ◌≡◌, refl, some, List, [], ◌∷◌, arith}
use public_intelligence.Prelude.Dict.{lookup, contains, insert, erase, update}
use public_intelligence.Models.{Node}
use public_intelligence.Store.{
  Tables, decode_rows, load_nodes, save_node, delete_node, clear_nodes, load_node_tokens,
  save_node_token,
}
use public_intelligence.Registry.{
  Registry, new_registry, load, register, unregister, unregister_node, update_node,
  set_available_models, update_heartbeat, increment_dampener, set_node_token, mark_mesh_reachable,
  clear, get_dampener,
}
use public_intelligence.Registry.Calls.{
  Call, register_call, evict_call, models_call, heartbeat_call, dampener_call, token_call,
  mesh_call, apply, run,
}
use public_intelligence.Registry.Valid.{AreDicts, IsCoherent, run-IsCoherent}
use public_intelligence.Registry.Sync.{InSync, AreStorable, run-InSync}
use public_intelligence.Registry.Restart.{zeros, restart, restart-run}
use public_intelligence.Examples.{tenths, plain, no_rows, node_a, node_b, beat_a}

program : Unit {0}
unfolding lookup contains insert erase update decode_rows load_nodes save_node delete_node
    clear_nodes load_node_tokens save_node_token load register unregister unregister_node
    update_node set_available_models update_heartbeat increment_dampener set_node_token
    mark_mesh_reachable clear get_dampener apply run restart
program = tt

abbrev fresh : Registry ℕ (Node ℕ)
fresh = new_registry (some no_rows)

-- Two nodes come, one is used, learns a model, and the other leaves.
abbrev session : List (Call ℕ)
session =
    token_call "a" (some "secret")
    ∷ register_call node_a
    ∷ register_call node_b
    ∷ heartbeat_call beat_a
    ∷ mesh_call "a"
    ∷ dampener_call "a"
    ∷ models_call "a" ("m" ∷ "n" ∷ [])
    ∷ evict_call "b"
    ∷ []

session_dampener : get_dampener "a" (run session fresh) ≡ 1
unfolding program
session_dampener = refl

session-restart :
    (restart (run session fresh)).nodes
    ≡ ("a", record node_a { available_models = "m" ∷ "n" ∷ [] }) ∷ []
unfolding program
session-restart = refl

fresh-AreDicts : AreDicts fresh
fresh-AreDicts = ground arith

fresh-IsCoherent : IsCoherent fresh "a"
unfolding program
fresh-IsCoherent = ground arith

fresh-InSync : InSync fresh no_rows
fresh-InSync = ground arith

session-AreStorable : AreStorable session fresh
unfolding program
session-AreStorable = ground arith

run-IsCoherent_example : AreDicts (run session fresh) × IsCoherent (run session fresh) "a"
run-IsCoherent_example = run-IsCoherent session fresh "a" fresh-AreDicts fresh-IsCoherent

run-InSync_example : (s : Tables ℕ (Node ℕ)) × InSync (run session fresh) s
run-InSync_example = run-InSync session fresh no_rows session-AreStorable fresh-InSync

restart-run_example :
    let r = run session fresh in
    restart r ≡ record (new_registry r.store) {
      nodes = r.nodes;
      dampeners = zeros r.nodes;
      node_tokens = r.node_tokens;
    }
restart-run_example =
    restart-run session fresh no_rows fresh-AreDicts fresh-InSync session-AreStorable
