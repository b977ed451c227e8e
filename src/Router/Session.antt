-- ===== src/Router/Session.antt =====
-- The session of the mesh router and its callbacks
-- (packages/scheduler/src/scheduler/core/zenoh_router.py).
use public_intelligence.Prelude.{
  String, Bool, true, false, not, ◌&&◌, Option, none, some, List, [], ◌∷◌, ◌++◌, is_truthy,
  if◌then◌else◌,
}
use public_intelligence.Canary.Words.{is_member}
use public_intelligence.Router.{
  MeshTask, heartbeat_task, telemetry_task, deathrattle_task, alive_task,
}
use public_intelligence.Router.Topics.{split, part_at}

-- Which of the handles are held.
pub record Session : Type 0 where
  pub session : Bool
  pub loop : Bool
  pub subscriber : Bool
  pub liveliness_subscriber : Bool
  pub telemetry_subscriber : Bool
  pub sweep_task : Bool

abbrev pub new_session : Session
new_session = record {
  session = false;
  loop = false;
  subscriber = false;
  liveliness_subscriber = false;
  telemetry_subscriber = false;
  sweep_task = false;
}

-- `start`, where `zenoh.open` succeeds or raises a ZError.
unfoldable pub start : Bool → Session → Session
start opens s = if s.session then s else if not opens then record s { loop = true } else record {
  session = true;
  loop = true;
  subscriber = true;
  liveliness_subscriber = true;
  telemetry_subscriber = true;
  sweep_task = true;
}

unfoldable pub stop : Session → Session
stop s = if s.session then new_session else s

-- The loop that gathers the endpoints to connect to.
unfoldable pub connect_endpoints : List String → List String → List String
connect_endpoints found [] = found
connect_endpoints found (ep ∷ candidates) =
    connect_endpoints
      (if is_truthy ep && not (is_member ep found) then found ++ (ep ∷ []) else found) candidates

-- A change of a liveliness token.
pub data SampleKind : Type 0 where
  put delete : SampleKind

-- The callbacks, which start a task where the loop is there and runs.
module _ {F D : Type 0} where
  unfoldable pub on_heartbeat : Session → Bool → String → String → F → Option (MeshTask F D)
  on_heartbeat s is_running raw key_expr now =
      if s.loop && is_running then some (heartbeat_task raw key_expr now) else none

  unfoldable pub on_telemetry : Session → Bool → String → String → D → Option (MeshTask F D)
  on_telemetry s is_running raw key_expr now =
      if s.loop && is_running then some (telemetry_task raw key_expr now) else none

  abbrev liveliness_task : SampleKind → Option String → F → Option (MeshTask F D)
  liveliness_task kind none now = none
  liveliness_task delete (some node_id) now = some (deathrattle_task node_id now)
  liveliness_task put (some node_id) now = some (alive_task node_id)

  unfoldable pub on_liveliness : Session → Bool → SampleKind → String → F → Option (MeshTask F D)
  unfolding split part_at
  on_liveliness s is_running kind key_expr now =
      if s.loop && is_running
      then liveliness_task kind (part_at 3 (split b'/' key_expr)) now
      else none
