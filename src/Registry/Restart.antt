-- ===== src/Registry/Restart.antt =====
-- What a restart of the Scheduler brings back from the store.
use public_intelligence.Prelude.{◌≡◌, refl, String, none, List, [], ◌∷◌, arith}
use public_intelligence.Prelude.Dict.{Dict, IsDict, lookup, update, update-nil, values}
use public_intelligence.Prelude.Float.{Floats}
use public_intelligence.Models.{Node}
use public_intelligence.Store.{Codec, Tables, load_nodes, load_node_tokens}
use public_intelligence.Registry.{Registry, new_registry, load, restore_nodes}
use public_intelligence.Registry.Calls.{Call, run}
use public_intelligence.Registry.Valid.{AreDicts, run-AreDicts}
use public_intelligence.Registry.Sync.{
  Mirrors, decode_rows-Mirrors, InSync, AreStorable, run-InSync,
}

module _ {F : Type 0} ⦃fl : Floats F⦄ where
  -- Every node's entry with a zero dampener.
  abbrev pub zeros : Dict (Node F) → Dict F
  zeros [] = []
  zeros (e ∷ d) = (e.0, fl.decimal 0 1) ∷ zeros d

  zeros-none : (k : String) (d : Dict (Node F)) → lookup k d ≡ none → lookup k (zeros d) ≡ none
  unfolding lookup
  zeros-none k [] h = refl
  zeros-none k (e ∷ d) h = ground (arith, zeros-none k d)

  zeros-IsDict : (d : Dict (Node F)) → IsDict d → IsDict (zeros d)
  zeros-IsDict [] h = tt
  zeros-IsDict (e ∷ d) h = (zeros-none e.0 d h.0, zeros-IsDict d h.1)

module _ {F P : Type 0} ⦃c : Codec F P⦄ ⦃fl : Floats F⦄ where
  -- The loop of `load` copies the stored nodes, and touches nodes and dampeners alone.
  restore_nodes_lem :
      (d : Dict (Node F)) (rows : Dict P) (r : Registry F P)
      → Mirrors d rows
      → restore_nodes (values d) r
        ≡ record r { nodes = update d r.nodes; dampeners = update (zeros d) r.dampeners }
  unfolding restore_nodes update
  restore_nodes_lem [] rows r m = refl
  restore_nodes_lem (e ∷ d) [] r m = absurd m
  restore_nodes_lem (e ∷ d) (row ∷ rows) r m = rw (m.2) (restore_nodes_lem d rows _ m.3)

  -- A Scheduler that stops and starts again on the same store.
  unfoldable pub restart : Registry F P → Registry F P
  restart r = load (new_registry r.store)

  pub restart_lem :
      (r : Registry F P) (s : Tables F P)
      → IsDict r.nodes
      → IsDict r.node_tokens
      → InSync r s
      → restart r ≡ record (new_registry r.store) {
        nodes = r.nodes;
        dampeners = zeros r.nodes;
        node_tokens = r.node_tokens;
      }
  unfolding restart load load_nodes load_node_tokens
  restart_lem r s dn dt h =
      rw
        (
          h.stored,
          load,
          decode_rows-Mirrors r.nodes s.nodes h.rows,
          restore_nodes_lem r.nodes s.nodes _ h.rows,
          h.tokens,
          update-nil r.nodes dn,
          update-nil (zeros r.nodes) (zeros-IsDict r.nodes dn),
          update-nil r.node_tokens dt,
        )
        (ground arith)

  -- After any calls that hand in nodes which pydantic reads back as it wrote them, a restart on the
  -- same store gives back every node in its order and every credential; dampeners start at 0.0, and heartbeats, telemetry and reachability are empty.
  pub restart-run :
      (calls : List (Call F)) (r : Registry F P) (s : Tables F P)
      → AreDicts r
      → InSync r s
      → AreStorable calls r
      → let r' = run calls r in
        restart r' ≡ record (new_registry r'.store) {
          nodes = r'.nodes;
          dampeners = zeros r'.nodes;
          node_tokens = r'.node_tokens;
        }
  restart-run calls r s d h t =
      let (s', h') = run-InSync calls r s t h in
      let d' = run-AreDicts calls r d in restart_lem (run calls r) s' d'.nodes d'.node_tokens h'
