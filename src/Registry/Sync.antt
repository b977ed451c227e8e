-- ===== src/Registry/Sync.antt =====
-- The registry and its SQLite store: every call writes through what it changes.
use mathlib.Core.Option
use public_intelligence.Prelude.{
  ◌≡◌, refl, String, none, some, List, [], ◌∷◌, arith, eq_iff, inl, inr, Option-cases,
}
use public_intelligence.Prelude.Dict.{Dict, lookup, insert, erase, values}
use public_intelligence.Prelude.Float.{Floats}
use public_intelligence.Models.{Node}
use public_intelligence.Store.{
  Codec, Tables, decode_rows, save_node, delete_node, clear_nodes, save_node_token,
}
use public_intelligence.Registry.{
  Registry, register, unregister, unregister_node, update_node, set_available_models,
  update_heartbeat, increment_dampener, set_node_token, mark_mesh_reachable, clear,
}
use public_intelligence.Registry.Calls.{
  Call, register_call, unregister_call, evict_call, update_call, models_call, heartbeat_call,
  dampener_call, token_call, mesh_call, clear_call, apply, run,
}

-- Pydantic reads a node back from its own JSON, as it does where the node is valid and its
-- numbers are finite.
abbrev pub RoundTrips : {F P : Type 0} → Codec F P → Node F → Type 0
RoundTrips c node = c.validate_json (c.dump_json node) ≡ some node

module _ {F P : Type 0} ⦃c : Codec F P⦄ where
  -- The rows of the table stand for the entries of the dict, in order.
  abbrev pub Mirrors : Dict (Node F) → Dict P → Type 0
  Mirrors [] [] = Unit
  Mirrors [] (row ∷ rows) = ⊥
  Mirrors (e ∷ d) [] = ⊥
  Mirrors (e ∷ d) (row ∷ rows) =
      (row.0 ≡ e.0) × (c.validate_json row.1 ≡ some e.1) × (e.1.node_id ≡ e.0) × Mirrors d rows

  insert-Mirrors :
      (node : Node F) (d : Dict (Node F)) (rows : Dict P)
      → RoundTrips c node
      → Mirrors d rows
      → Mirrors (insert node.node_id node d) (insert node.node_id (c.dump_json node) rows)
  unfolding insert
  insert-Mirrors node [] [] t m = (refl, t, refl, tt)
  insert-Mirrors node [] (row ∷ rows) t m = absurd m
  insert-Mirrors node (e ∷ d) [] t m = absurd m
  insert-Mirrors node (e ∷ d) (row ∷ rows) t m =
      ground (arith, eq_iff e.0 node.node_id, insert-Mirrors node d rows t m.3)

  erase-Mirrors :
      (k : String) (d : Dict (Node F)) (rows : Dict P)
      → Mirrors d rows
      → Mirrors (erase k d) (erase k rows)
  unfolding erase
  erase-Mirrors k [] [] m = tt
  erase-Mirrors k [] (row ∷ rows) m = absurd m
  erase-Mirrors k (e ∷ d) [] m = absurd m
  erase-Mirrors k (e ∷ d) (row ∷ rows) m = ground (arith, erase-Mirrors k d rows m.3)

  Mirrors-keyed :
      (k : String) (d : Dict (Node F)) (rows : Dict P) (node : Node F)
      → Mirrors d rows
      → lookup k d ≡ some node
      → node.node_id ≡ k
  unfolding lookup
  Mirrors-keyed k [] rows node m h = cc
  Mirrors-keyed k (e ∷ d) [] node m h = absurd m
  Mirrors-keyed k (e ∷ d) (row ∷ rows) node m h =
      ground (arith, eq_iff e.0 k, Mirrors-keyed k d rows node m.3)

  pub decode_rows-Mirrors :
      (d : Dict (Node F)) (rows : Dict P) → Mirrors d rows → decode_rows rows ≡ values d
  unfolding decode_rows
  decode_rows-Mirrors [] [] m = refl
  decode_rows-Mirrors [] (row ∷ rows) m = absurd m
  decode_rows-Mirrors (e ∷ d) [] m = absurd m
  decode_rows-Mirrors (e ∷ d) (row ∷ rows) m = ground (arith, decode_rows-Mirrors d rows m.3)

  -- The store agrees with the dicts.
  pub record InSync (r : Registry F P) (s : Tables F P) : Type 0 where
    pub stored : r.store ≡ some s
    pub rows : Mirrors r.nodes s.nodes
    pub tokens : s.node_tokens ≡ r.node_tokens

  module _ ⦃fl : Floats F⦄ where
    -- The nodes that a call hands in are ones that the store can keep.
    abbrev pub IsStorable : Call F → Registry F P → Type 0
    IsStorable (register_call node) r = RoundTrips c node
    IsStorable (update_call node) r = RoundTrips c node
    IsStorable (models_call node_id models) r =
        (node : Node F)
        → lookup node_id r.nodes ≡ some node
        → RoundTrips c (record node { available_models = models })
    IsStorable _ r = Unit

    -- The store after a call.
    abbrev pub stored_after : Call F → Registry F P → Tables F P → Tables F P
    stored_after call r s = Option.get_or (apply call r).store s

    pub apply-InSync :
        (call : Call F) (r : Registry F P) (s : Tables F P)
        → IsStorable call r
        → InSync r s
        → InSync (apply call r) (stored_after call r s)
    unfolding apply register unregister unregister_node update_node set_available_models
        update_heartbeat increment_dampener set_node_token mark_mesh_reachable clear save_node
        delete_node clear_nodes save_node_token
    apply-InSync (register_call node) r s t h = grind (arith, insert-Mirrors)
    apply-InSync (unregister_call node_id) r s t h = grind (arith, erase-Mirrors)
    apply-InSync (evict_call node_id) r s t h = grind (arith, erase-Mirrors)
    apply-InSync (update_call node) r s t h = grind (arith, insert-Mirrors)
    apply-InSync (models_call node_id models) r s t h =
        elim (Option-cases (lookup node_id r.nodes)) [
          | inl unknown_node ↦ ground (arith, h.stored)
          | inr (node, found) ↦
              let updated : Node F = record node { available_models = models } in
              ground (
                arith,
                insert-Mirrors updated r.nodes s.nodes (t node found) h.rows,
                Mirrors-keyed node_id r.nodes s.nodes node h.rows found,
              )
        ]
    apply-InSync (heartbeat_call heartbeat) r s t h = grind arith
    apply-InSync (dampener_call node_id) r s t h = grind arith
    apply-InSync (token_call node_id none) r s t h = grind arith
    apply-InSync (token_call node_id (some token)) r s t h = grind arith
    apply-InSync (mesh_call node_id) r s t h = grind arith
    apply-InSync clear_call r s t h = grind arith

    -- Every call of a sequence hands in nodes that the store can keep.
    abbrev pub AreStorable : List (Call F) → Registry F P → Type 0
    AreStorable [] r = Unit
    AreStorable (call ∷ calls) r = IsStorable call r × AreStorable calls (apply call r)

    -- After any calls that hand in nodes which pydantic reads back as it wrote them, the rows of the
    -- store are the registry's nodes and credentials.
    pub run-InSync :
        (calls : List (Call F)) (r : Registry F P) (s : Tables F P)
        → AreStorable calls r
        → InSync r s
        → (s' : Tables F P) × InSync (run calls r) s'
    unfolding run
    run-InSync [] r s t h = (s, h)
    run-InSync (call ∷ calls) r s t h =
        run-InSync calls (apply call r) (stored_after call r s) t.1 (apply-InSync call r s t.0 h)
