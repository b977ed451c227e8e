-- ===== src/Registry/Calls.antt =====
-- The calls that change a registry, and a sequence of them. A call that raises leaves what it
-- reached, and the next caller goes on from there.
use public_intelligence.Prelude.{String, Option, List, [], ◌∷◌}
use public_intelligence.Prelude.Float.{Floats}
use public_intelligence.Models.{Node, Heartbeat}
use public_intelligence.Store.{Codec}
use public_intelligence.Registry.{
  Registry, register, unregister, unregister_node, update_node, set_available_models,
  update_heartbeat, increment_dampener, set_node_token, mark_mesh_reachable, clear,
}

pub data Call (F : Type 0) : Type 0 where
  register_call : Node F → Call F
  unregister_call : String → Call F
  evict_call : String → Call F
  update_call : Node F → Call F
  models_call : String → List String → Call F
  heartbeat_call : Heartbeat F → Call F
  dampener_call : String → Call F
  token_call : String → Option String → Call F
  mesh_call : String → Call F
  clear_call : Call F

module _ {F P : Type 0} ⦃fl : Floats F⦄ ⦃c : Codec F P⦄ where
  unfoldable pub apply : Call F → Registry F P → Registry F P
  apply (register_call node) r = (register node r).1
  apply (unregister_call node_id) r = (unregister node_id r).1
  apply (evict_call node_id) r = (unregister_node node_id r).1
  apply (update_call node) r = (update_node node r).1
  apply (models_call node_id models) r = (set_available_models node_id models r).1
  apply (heartbeat_call heartbeat) r = (update_heartbeat heartbeat r).1
  apply (dampener_call node_id) r = (increment_dampener node_id r).1
  apply (token_call node_id token) r = set_node_token node_id token r
  apply (mesh_call node_id) r = mark_mesh_reachable node_id r
  apply clear_call r = clear r

  unfoldable pub run : List (Call F) → Registry F P → Registry F P
  run [] r = r
  run (call ∷ calls) r = run calls (apply call r)
