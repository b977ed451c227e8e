-- ===== src/Registry/Valid.antt =====
-- The invariant of the registry's dicts: no key stands twice, a node stands under its own id, and
-- the dampeners and heartbeats belong to registered nodes.
use public_intelligence.Prelude.{◌≡◌, String, true, none, some, List, [], ◌∷◌, arith, eq_iff}
use public_intelligence.Prelude.Dict.{
  IsDict, lookup, contains, lookup-insert, lookup-erase, contains-insert, contains-erase,
  contains_of_some, contains-nil, lookup-nil, insert-IsDict, erase-IsDict,
}
use public_intelligence.Prelude.Float.{Floats}
use public_intelligence.Models.{Node}
use public_intelligence.Store.{Codec}
use public_intelligence.Registry.{
  Registry, register, unregister, unregister_node, update_node, set_available_models,
  update_heartbeat, increment_dampener, set_node_token, mark_mesh_reachable, clear,
}
use public_intelligence.Registry.Calls.{
  Call, register_call, unregister_call, evict_call, update_call, models_call, heartbeat_call,
  dampener_call, token_call, mesh_call, clear_call, apply, run,
}

module _ {F P : Type 0} where
  pub record AreDicts (r : Registry F P) : Type 0 where
    pub nodes : IsDict r.nodes
    pub heartbeats : IsDict r.heartbeats
    pub dampeners : IsDict r.dampeners
    pub node_tokens : IsDict r.node_tokens
    pub mesh_nodes : IsDict r.mesh_nodes

  -- What the dicts say of one node id.
  pub record IsCoherent (r : Registry F P) (k : String) : Type 0 where
    pub damped : contains k r.dampeners ≡ contains k r.nodes
    pub observed : contains k r.heartbeats ≡ true → contains k r.nodes ≡ true
    pub keyed : (node : Node F) → lookup k r.nodes ≡ some node → node.node_id ≡ k

  module _ ⦃fl : Floats F⦄ ⦃c : Codec F P⦄ where
    apply-AreDicts : (call : Call F) (r : Registry F P) → AreDicts r → AreDicts (apply call r)
    unfolding apply register unregister unregister_node update_node set_available_models
        update_heartbeat increment_dampener set_node_token mark_mesh_reachable clear
    apply-AreDicts (register_call node) r h = grind (arith, insert-IsDict)
    apply-AreDicts (unregister_call node_id) r h = grind (arith, erase-IsDict)
    apply-AreDicts (evict_call node_id) r h = grind (arith, erase-IsDict)
    apply-AreDicts (update_call node) r h = grind (arith, insert-IsDict)
    apply-AreDicts (models_call node_id models) r h = grind (arith, insert-IsDict)
    apply-AreDicts (heartbeat_call heartbeat) r h = grind (arith, insert-IsDict)
    apply-AreDicts (dampener_call node_id) r h = grind (arith, insert-IsDict)
    apply-AreDicts (token_call node_id none) r h = grind (arith, erase-IsDict)
    apply-AreDicts (token_call node_id (some t)) r h = grind (arith, erase-IsDict, insert-IsDict)
    apply-AreDicts (mesh_call node_id) r h = grind (arith, insert-IsDict)
    apply-AreDicts clear_call r h = ground arith

    apply-IsCoherent :
        (call : Call F) (r : Registry F P) (k : String)
        → AreDicts r
        → IsCoherent r k
        → IsCoherent (apply call r) k
    unfolding apply register unregister unregister_node update_node set_available_models
        update_heartbeat increment_dampener set_node_token mark_mesh_reachable clear
    apply-IsCoherent (register_call node) r k d h =
        grind (arith, contains-insert, lookup-insert, eq_iff node.node_id k)
    apply-IsCoherent (unregister_call node_id) r k d h = grind (arith, contains-erase, lookup-erase)
    apply-IsCoherent (evict_call node_id) r k d h = grind (arith, contains-erase, lookup-erase)
    apply-IsCoherent (update_call node) r k d h =
        grind (arith, contains-insert, lookup-insert, eq_iff node.node_id k)
    apply-IsCoherent (models_call node_id models) r k d h =
        grind (
          arith,
          contains-insert,
          lookup-insert,
          eq_iff node_id k,
          contains_of_some node_id r.nodes,
        )
    apply-IsCoherent (heartbeat_call heartbeat) r k d h =
        grind (arith, contains-insert, lookup-insert, eq_iff)
    apply-IsCoherent (dampener_call node_id) r k d h =
        grind (arith, contains-insert, lookup-insert, eq_iff)
    apply-IsCoherent (token_call node_id none) r k d h = ground arith
    apply-IsCoherent (token_call node_id (some t)) r k d h = ground arith
    apply-IsCoherent (mesh_call node_id) r k d h = ground arith
    apply-IsCoherent clear_call r k d h = grind (arith, contains-nil, lookup-nil)

    pub run-AreDicts :
        (calls : List (Call F)) (r : Registry F P) → AreDicts r → AreDicts (run calls r)
    unfolding run
    run-AreDicts [] r h = h
    run-AreDicts (call ∷ calls) r h = run-AreDicts calls (apply call r) (apply-AreDicts call r h)

    -- After any calls on a new registry no key stands twice, a node stands under its own id, every
    -- registered node and no other has a dampener, and only registered nodes have heartbeats.
    pub run-IsCoherent :
        (calls : List (Call F)) (r : Registry F P) (k : String)
        → AreDicts r
        → IsCoherent r k
        → AreDicts (run calls r) × IsCoherent (run calls r) k
    unfolding run
    run-IsCoherent [] r k d h = (d, h)
    run-IsCoherent (call ∷ calls) r k d h =
        run-IsCoherent calls (apply call r) k (apply-AreDicts call r d)
          (apply-IsCoherent call r k d h)
