-- ===== src/Router/Tests.antt =====
-- Runs of the router, and its theorems at concrete inputs.
use public_intelligence.Prelude.{
  ℕ, ◌-◌, ◌≡◌, refl, String, Bool, true, false, some, none, List, [], ◌∷◌, leb, ltb, ◌&&◌, arith,
}
use public_intelligence.Prelude.Dict.{lookup, contains, insert, erase}
use public_intelligence.Prelude.Except.{done, failed}
use public_intelligence.Models.{Node}
use public_intelligence.Registry.{
  Registry, new_registry, register, set_node_token, exists, get_node_token, mark_mesh_reachable,
  is_mesh_reachable, update_heartbeat, unregister_node, list_nodes,
}
use public_intelligence.Registry.Calls.{register_call, token_call, run, apply}
use public_intelligence.Envelope.{
  derive_key, associated_data, sealed, seal, decrypted, open_envelope,
}
use public_intelligence.Envelope.Sample.{one_payload, open_cipher, one_json, raw}
use public_intelligence.Router.{
  ignored, Heartbeats, Dates, Router, open_from_node, heartbeat_in, telemetry_in, accept_heartbeat,
  accept_telemetry, is_fresh, evict_if_stale, sweep_nodes, sweep_stale_nodes, MeshTask,
  heartbeat_task, deathrattle_task, sweep_task, process_heartbeat, process_telemetry, perform,
  perform_all,
}
use public_intelligence.Router.Topics.{split, part_at, node_id_from_topic}
use public_intelligence.Router.Beating.{IsBeating, perform_all-IsBeating}
use public_intelligence.Router.Session.{
  new_session, start, stop, connect_endpoints, delete, on_liveliness, on_heartbeat, on_telemetry,
}
use public_intelligence.Examples.{tenths, plain, node_a, node_b, beat_a}

program : Unit {0}
unfolding lookup contains insert erase register set_node_token exists get_node_token
    mark_mesh_reachable is_mesh_reachable update_heartbeat unregister_node list_nodes apply run
    derive_key associated_data sealed seal decrypted open_envelope open_from_node heartbeat_in
    telemetry_in accept_heartbeat accept_telemetry is_fresh evict_if_stale sweep_nodes
    sweep_stale_nodes process_heartbeat process_telemetry perform perform_all split part_at
    node_id_from_topic start stop connect_endpoints on_liveliness on_heartbeat on_telemetry
program = tt

-- Every heartbeat that opens is that of node a.
instance abbrev beats_of_a : Heartbeats ℕ
beats_of_a = record { validate = λ body. some beat_a }

instance abbrev tenth_dates : Dates ℕ ℕ
tenth_dates = record {
  fromtimestamp = λ x. some x;
  fromisoformat = λ s. none;
  seconds_since = λ now then_at. now - then_at;
}

abbrev registry : Registry ℕ (Node ℕ)
registry =
    run (register_call node_a ∷ token_call "a" (some "secret") ∷ register_call node_b ∷ [])
      (new_registry none)

-- A node is stale 90 seconds after its last heartbeat.
abbrev router : Router ℕ (Node ℕ)
router = record {
  registry = registry;
  last_verified_heartbeat = [];
  node_stale_after_seconds = 900;
}

abbrev topic_a : String
topic_a = "public-intelligence/net/a/heartbeat"

abbrev beating : Router ℕ (Node ℕ)
beating = (process_heartbeat raw topic_a 500 router).1

accepted : (process_heartbeat raw topic_a 500 router).0 ≡ done tt
unfolding program
accepted = refl

reachable : is_mesh_reachable "a" beating.registry ≡ true
unfolding program
reachable = refl

-- Node b has no credential, so nothing on its topic is taken.
for_b_ignored :
    process_heartbeat raw "public-intelligence/net/b/heartbeat" 500 router
    ≡ (failed ignored, router)
unfolding program
for_b_ignored = refl

measured :
    (process_telemetry {D = ℕ} raw "public-intelligence/net/nodes/a/telemetry" 1100 router).0
    ≡ done tt
unfolding program
measured = refl

too_old :
    (process_telemetry {D = ℕ} raw "public-intelligence/net/nodes/a/telemetry" 1400 router).0
    ≡ failed ignored
unfolding program
too_old = refl

forged_loss : (evict_if_stale "a" 1300 beating).0 ≡ false
unfolding program
forged_loss = refl

evicted : (evict_if_stale "a" 1500 beating).0 ≡ true
unfolding program
evicted = refl

-- A node that was registered a moment ago and has sent no heartbeat yet is evicted by a sweep.
new_node_swept : contains "b" (sweep_stale_nodes (λ _. 0) router).registry.nodes ≡ false
unfolding program
new_node_swept = refl

lost_token :
    on_liveliness {F = ℕ} {D = ℕ}
      (start true new_session)
      true
      delete
      "public-intelligence/net/liveliness/a"
      7
    ≡ some (deathrattle_task "a" 7)
unfolding program
lost_token = refl

endpoints : connect_endpoints [] ("tcp/x" ∷ "" ∷ "tcp/y" ∷ "tcp/x" ∷ []) ≡ ("tcp/x" ∷ "tcp/y" ∷ [])
unfolding program
endpoints = refl

-- A captured heartbeat that is sent again, long after the node fell silent, is accepted and keeps
-- the node from being evicted.
replayed :
    let later = (process_heartbeat raw topic_a 5000 beating).1 in
    (is_fresh "a" 5000 beating ≡ false) × ((evict_if_stale "a" 5500 later).0 ≡ false)
unfolding program
replayed = (refl, refl)

abbrev up_to_1300 : ℕ → Bool
up_to_1300 now = leb 500 now && ltb now 1300

close :
    (a b : ℕ)
    → up_to_1300 a ≡ true
    → up_to_1300 b ≡ true
    → ltb (b - a) beating.node_stale_after_seconds ≡ true
unfolding program
close a b h k = ground arith

a-IsBeating : IsBeating up_to_1300 "a" beating
unfolding program
a-IsBeating = record { last_seen = 500; registered = refl; seen = refl; in_time = refl }

abbrev noise : List (MeshTask ℕ ℕ)
noise = deathrattle_task "a" 1200 ∷ sweep_task (λ _. 1250) ∷ heartbeat_task raw topic_a 1260 ∷ []

perform_all-IsBeating_example : IsBeating up_to_1300 "a" (perform_all noise beating)
perform_all-IsBeating_example =
    perform_all-IsBeating up_to_1300 "a" noise beating close (refl, ((λ _. refl), (refl, tt)))
      a-IsBeating
