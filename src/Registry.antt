-- ===== src/Registry.antt =====
-- The node registry (packages/scheduler/src/scheduler/registry/node_registry.py): the dicts of
-- `NodeRegistry` and its optional store. A method holds the lock from its first read to its last
-- write, so it is one step; a `ValueError` is returned beside the state that the method reached.
pub mod Calls
pub mod Valid
pub mod Sync
pub mod Restart
mod Tests
use public_intelligence.Prelude.{
  ℕ, ◌≡◌, String, Bool, true, false, Option, none, some, List, [], ◌∷◌, map, length, is_truthy,
  if◌then◌else◌,
}
use public_intelligence.Prelude.Dict.{Dict, lookup, contains, insert, erase, update, values}
use public_intelligence.Prelude.Float.{Floats}
use public_intelligence.Models.{Node, Heartbeat, Telemetry}
use public_intelligence.Store.{
  Codec, Tables, load_nodes, save_node, delete_node, clear_nodes, load_node_tokens, save_node_token,
}
use mathlib.Core.Option

-- The two messages of the registry's ValueErrors.
pub data Error : Type 0 where
  already_registered not_found : Error

pub data Result (A : Type 0) : Type 0 where
  ok : A → Result A
  err : Error → Result A

-- A set of texts is a dict without values.
abbrev pub TextSet : Type 0
TextSet = Dict (Unit {0})

pub record Registry (F P : Type 0) : Type 0 where
  pub store : Option (Tables F P)
  pub nodes : Dict (Node F)
  pub heartbeats : Dict (Heartbeat F)
  pub dampeners : Dict F
  pub telemetry : Dict (Telemetry F)
  pub node_tokens : Dict String
  pub mesh_nodes : TextSet

module _ {F : Type 0} where
  abbrev with_heartbeats : Dict (Node F) → Dict (Heartbeat F) → List (Node F × Option (Heartbeat F))
  with_heartbeats [] heartbeats = []
  with_heartbeats (e ∷ nodes) heartbeats =
      (e.1, lookup e.0 heartbeats) ∷ with_heartbeats nodes heartbeats

module _ {F P : Type 0} where
  -- `NodeRegistry(store)`
  abbrev pub new_registry : Option (Tables F P) → Registry F P
  new_registry store = record {
    store = store;
    nodes = [];
    heartbeats = [];
    dampeners = [];
    telemetry = [];
    node_tokens = [];
    mesh_nodes = [];
  }

  module _ ⦃fl : Floats F⦄ where
    -- The loop of `load` over the stored nodes.
    unfoldable pub restore_nodes : List (Node F) → Registry F P → Registry F P
    restore_nodes [] r = r
    restore_nodes (node ∷ nodes) r = restore_nodes nodes (record r {
      nodes = insert node.node_id node r.nodes;
      dampeners = insert node.node_id (fl.decimal 0 1) r.dampeners;
    })

    -- Only nodes and credentials come back from the store, and the dampeners start at 0.0.
    unfoldable pub load : ⦃c : Codec F P⦄ → Registry F P → Registry F P
    unfolding restore_nodes
    load r = elim r.store [
      | none ↦ r
      | some s ↦
          let r' = restore_nodes (load_nodes s) r in
          record r' { node_tokens = update (load_node_tokens s) r'.node_tokens }
    ]

  abbrev forget_token : String → Registry F P → Registry F P
  forget_token node_id r = record r {
    node_tokens = erase node_id r.node_tokens;
    mesh_nodes = erase node_id r.mesh_nodes;
  }

  -- The branch on `if token:`, where `token` is an `Optional[str]`.
  abbrev keep_token : String → Option String → Registry F P → Registry F P
  keep_token node_id none r = forget_token node_id r
  keep_token node_id (some token) r =
      if is_truthy token
      then record r { node_tokens = insert node_id token r.node_tokens }
      else forget_token node_id r

  unfoldable pub set_node_token : String → Option String → Registry F P → Registry F P
  set_node_token node_id token r = record (keep_token node_id token r) {
    store = Option.map (save_node_token node_id token) r.store;
  }

  unfoldable pub get_node_token : String → Registry F P → Option String
  get_node_token node_id r = lookup node_id r.node_tokens

  unfoldable pub mark_mesh_reachable : String → Registry F P → Registry F P
  mark_mesh_reachable node_id r = record r { mesh_nodes = insert node_id tt r.mesh_nodes }

  unfoldable pub is_mesh_reachable : String → Registry F P → Bool
  is_mesh_reachable node_id r = contains node_id r.mesh_nodes

  unfoldable pub get : String → Registry F P → Option (Node F)
  get node_id r = lookup node_id r.nodes

  -- `list`
  unfoldable pub list_nodes : Registry F P → List (Node F)
  list_nodes r = values r.nodes

  unfoldable pub snapshot : Registry F P → List (Node F × Option (Heartbeat F))
  snapshot r = with_heartbeats r.nodes r.heartbeats

  unfoldable pub exists : String → Registry F P → Bool
  exists node_id r = contains node_id r.nodes

  unfoldable pub count : Registry F P → ℕ
  count r = length r.nodes

  unfoldable pub get_heartbeat : String → Registry F P → Option (Heartbeat F)
  get_heartbeat node_id r = lookup node_id r.heartbeats

  -- The six removals that the two ways to leave and the store share.
  abbrev drop_node : String → Registry F P → Registry F P
  drop_node node_id r = record {
    store = Option.map (delete_node node_id) r.store;
    nodes = erase node_id r.nodes;
    heartbeats = erase node_id r.heartbeats;
    dampeners = erase node_id r.dampeners;
    telemetry = erase node_id r.telemetry;
    node_tokens = erase node_id r.node_tokens;
    mesh_nodes = erase node_id r.mesh_nodes;
  }

  -- `unregister` and `local_unregister`
  unfoldable pub unregister : String → Registry F P → Result (Unit {0}) × Registry F P
  unregister node_id r =
      if contains node_id r.nodes then (ok tt, drop_node node_id r) else (err not_found, r)

  -- `unregister_node` and `local_unregister_node`: the path of evictions and deathrattles.
  unfoldable pub unregister_node : String → Registry F P → Bool × Registry F P
  unregister_node node_id r = (contains node_id r.nodes, drop_node node_id r)

  unfoldable pub clear : Registry F P → Registry F P
  clear r = new_registry (Option.map clear_nodes r.store)

  module _ ⦃fl : Floats F⦄ where
    unfoldable pub get_dampener : String → Registry F P → F
    get_dampener node_id r = Option.get_or (lookup node_id r.dampeners) (fl.decimal 0 1)

    unfoldable pub increment_dampener : String → Registry F P → Result (Unit {0}) × Registry F P
    unfolding get_dampener
    increment_dampener node_id r =
        if contains node_id r.nodes
        then (
          ok tt,
          record r {
            dampeners =
                insert node_id (fl.add (get_dampener node_id r) (fl.decimal 1 1)) r.dampeners;
          },
        )
        else (err not_found, r)

    unfoldable pub update_heartbeat : Heartbeat F → Registry F P → Result (Unit {0}) × Registry F P
    update_heartbeat heartbeat r =
        if contains heartbeat.node_id r.nodes
        then (
          ok tt,
          record r {
            heartbeats = insert heartbeat.node_id heartbeat r.heartbeats;
            dampeners = insert heartbeat.node_id (fl.decimal 0 1) r.dampeners;
          },
        )
        else (err not_found, r)

    -- `register` and `local_register`
    unfoldable pub register :
        ⦃c : Codec F P⦄ → Node F → Registry F P → Result (Unit {0}) × Registry F P
    register node r = if contains node.node_id r.nodes then (err already_registered, r) else (
      ok tt,
      record r {
        nodes = insert node.node_id node r.nodes;
        dampeners = insert node.node_id (fl.decimal 0 1) r.dampeners;
        store = Option.map (save_node node) r.store;
      },
    )

  module _ ⦃c : Codec F P⦄ where
    -- `update`
    unfoldable pub update_node : Node F → Registry F P → Result (Unit {0}) × Registry F P
    update_node node r =
        if contains node.node_id r.nodes
        then (
          ok tt,
          record r {
            nodes = insert node.node_id node r.nodes;
            store = Option.map (save_node node) r.store;
          },
        )
        else (err not_found, r)

    unfoldable pub set_available_models :
        String → List String → Registry F P → Result (Unit {0}) × Registry F P
    set_available_models node_id models r = elim (lookup node_id r.nodes) [
      | none ↦ (err not_found, r)
      | some node ↦
          let updated = record node { available_models = models } in
          (
            ok tt,
            record r {
              nodes = insert node_id updated r.nodes;
              store = Option.map (save_node updated) r.store;
            },
          )
    ]
