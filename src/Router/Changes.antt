-- ===== src/Router/Changes.antt =====
-- What one task of the router can change of a node.
use mathlib.Core.Option
use public_intelligence.Prelude.{
  ◌≡◌, refl, sym, subst, ap, ◌∙◌, String, true, false, Option, none, some, List, [], ◌∷◌, str_eq,
  arith, inl, inr, Bool-cases, eq_iff,
}
use public_intelligence.Prelude.Dict.{
  lookup-insert, contains-insert, lookup-erase_ne, contains-erase_ne,
}
use public_intelligence.Prelude.Float.{Floats}
use public_intelligence.Models.{Node, Heartbeat, Telemetry}
use public_intelligence.Mesh.Values.{Json}
use public_intelligence.Store.{Tables, delete_node}
use public_intelligence.Registry.{mark_mesh_reachable, update_heartbeat, unregister_node}
use public_intelligence.Envelope.{Payloads, Ciphers, purpose_heartbeat, purpose_telemetry}
use public_intelligence.Router.{
  Heartbeats, Dates, Router, accept_heartbeat, accept_telemetry, is_fresh, evict_if_stale,
  sweep_nodes, MeshTask, heartbeat_task, telemetry_task, deathrattle_task, alive_task, sweep_task,
}
use public_intelligence.Router.Evidence.{rows_of, observed, IsVerified}

rows_of-delete_node :
    {F P : Type 0} (node_id k : String) (store : Option (Tables F P))
    → str_eq node_id k ≡ false
    → rows_of k (Option.map (delete_node node_id) store) ≡ rows_of k store
unfolding delete_node
rows_of-delete_node node_id k none h = refl
rows_of-delete_node node_id k (some s) h =
    rw (lookup-erase_ne node_id k s.nodes h, lookup-erase_ne node_id k s.node_tokens h)

module _ {F P : Type 0} ⦃fl : Floats F⦄ where
  pub observed-accept_heartbeat :
      (heartbeat : Heartbeat F) (now : F) (r : Router F P) (k : String)
      → str_eq heartbeat.node_id k ≡ false
      → observed k (accept_heartbeat heartbeat now r).1 ≡ observed k r
  unfolding accept_heartbeat update_heartbeat mark_mesh_reachable
  observed-accept_heartbeat heartbeat now r k h = ground (
    arith,
    lookup-insert heartbeat.node_id k heartbeat r.registry.heartbeats,
    lookup-insert heartbeat.node_id k (fl.decimal 0 1) r.registry.dampeners,
    lookup-insert heartbeat.node_id k now r.last_verified_heartbeat,
    contains-insert heartbeat.node_id k tt r.registry.mesh_nodes,
  )

  pub observed-accept_telemetry :
      (node_id : String) (body : Telemetry F) (r : Router F P) (k : String)
      → str_eq node_id k ≡ false
      → observed k (accept_telemetry (node_id, body) r).1 ≡ observed k r
  unfolding accept_telemetry mark_mesh_reachable
  observed-accept_telemetry node_id body r k h = ground (
    arith,
    lookup-insert node_id k body r.registry.telemetry,
    contains-insert node_id k tt r.registry.mesh_nodes,
  )

  pub observed-evict_if_stale :
      (node_id : String) (now : F) (r : Router F P) (k : String)
      → str_eq node_id k ≡ false
      → observed k (evict_if_stale node_id now r).1 ≡ observed k r
  unfolding evict_if_stale unregister_node
  observed-evict_if_stale node_id now r k h = ground (
    arith,
    contains-erase_ne node_id k r.registry.nodes h,
    lookup-erase_ne node_id k r.registry.nodes h,
    lookup-erase_ne node_id k r.registry.heartbeats h,
    lookup-erase_ne node_id k r.registry.dampeners h,
    lookup-erase_ne node_id k r.registry.node_tokens h,
    rows_of-delete_node node_id k r.registry.store h,
    lookup-erase_ne node_id k r.registry.telemetry h,
    contains-erase_ne node_id k r.registry.mesh_nodes h,
    lookup-erase_ne node_id k r.last_verified_heartbeat h,
  )

  pub evict_if_stale-fresh :
      (node_id : String) (now : F) (r : Router F P)
      → is_fresh node_id now r ≡ true
      → (evict_if_stale node_id now r).1 ≡ r
  unfolding evict_if_stale
  evict_if_stale-fresh node_id now r h = rw h

  pub is_fresh-observed :
      (k : String) (now : F) (r r' : Router F P)
      → observed k r' ≡ observed k r
      → r'.node_stale_after_seconds ≡ r.node_stale_after_seconds
      → is_fresh k now r' ≡ is_fresh k now r
  unfolding is_fresh
  is_fresh-observed k now r r' same threshold =
      rw (is_fresh, ap (λ o. o.last_verified) same, threshold)

  pub evict_if_stale-threshold :
      (node_id : String) (now : F) (r : Router F P)
      → (evict_if_stale node_id now r).1.node_stale_after_seconds ≡ r.node_stale_after_seconds
  unfolding evict_if_stale
  evict_if_stale-threshold node_id now r = ground arith

  pub observed-sweep_nodes :
      (clock : String → F) (nodes : List (Node F)) (r : Router F P) (k : String)
      → is_fresh k (clock k) r ≡ true
      → observed k (sweep_nodes clock nodes r) ≡ observed k r
  unfolding sweep_nodes
  observed-sweep_nodes clock [] r k h = refl
  observed-sweep_nodes clock (node ∷ nodes) r k h =
      let node_id = node.node_id in
      let r' = (evict_if_stale node_id (clock node_id) r).1 in
      elim (Bool-cases (str_eq node_id k)) [
        | inl e ↦
            let named : node_id ≡ k = ground (arith, eq_iff node_id k) in
            let fresh : is_fresh node_id (clock node_id) r ≡ true =
              subst (λ n. is_fresh n (clock n) r ≡ true) (sym named) h in
            ap (λ x. observed k (sweep_nodes clock nodes x))
              (evict_if_stale-fresh node_id (clock node_id) r fresh)
            ∙ observed-sweep_nodes clock nodes r k h
        | inr e ↦
            let same = observed-evict_if_stale node_id (clock node_id) r k e in
            let threshold = evict_if_stale-threshold node_id (clock node_id) r in
            let fresh = is_fresh-observed k (clock k) r r' same threshold ∙ h in
            observed-sweep_nodes clock nodes r' k fresh ∙ same
      ]

module _ {F P D : Type 0} ⦃fl : Floats F⦄ ⦃j : Json F⦄ ⦃ci : Ciphers⦄ ⦃pl : Payloads F⦄
    ⦃h : Heartbeats F⦄ ⦃da : Dates F D⦄ where
  -- What entitles a task to change what is observed of a node: a message that opens with the
  -- credential of the node, for the purpose of its topic, or that no heartbeat of the node was
  -- accepted in the last seconds.
  abbrev pub IsEntitled : MeshTask F D → String → Router F P → Type 0
  IsEntitled (heartbeat_task raw key_expr now) k r =
      (body : Telemetry F) × IsVerified raw k purpose_heartbeat r.registry body
  IsEntitled (telemetry_task raw key_expr now) k r =
      (body : Telemetry F) × IsVerified raw k purpose_telemetry r.registry body
  IsEntitled (deathrattle_task node_id now) k r = (node_id ≡ k) × (is_fresh k now r ≡ false)
  IsEntitled (alive_task node_id) k r = ⊥
  IsEntitled (sweep_task clock) k r = is_fresh k (clock k) r ≡ false
