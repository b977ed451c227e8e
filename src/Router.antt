-- ===== src/Router.antt =====
-- The mesh router (packages/scheduler/src/scheduler/core/zenoh_router.py) over the registry. The
-- store answers without a suspension, so the lock of the registry is always free and a handler
-- runs without another in between. A handler that returns early is `failed ignored`; the other
-- failures are exceptions that end the handler's task. A clock is read where the code reads it.
pub mod Topics
pub mod Evidence
pub mod Changes
pub mod Eviction
pub mod Beating
pub mod Session
mod Tests
use mathlib.Core.Option
use public_intelligence.Prelude.{
  ℕ, ◌≡◌, String, Bool, true, false, not, ◌&&◌, ◌||◌, Option, none, some, List, [], ◌∷◌, str_eq,
  is_truthy, if◌then◌else◌,
}
use public_intelligence.Prelude.Dict.{Dict, lookup, insert, erase}
use public_intelligence.Prelude.Except.{Except, done, failed, ◌>>=◌, ◌>>◌, check, or_fail, then_do}
use public_intelligence.Prelude.Float.{Floats}
use public_intelligence.Models.{Node, Heartbeat, Reading, number, text, Telemetry}
use public_intelligence.Mesh.Values.{Json}
use public_intelligence.Registry.{
  Registry, ok, err, exists, get_node_token, mark_mesh_reachable, update_heartbeat, unregister_node,
  list_nodes,
}
use public_intelligence.Envelope.{
  AuthError, not_utf8, Payloads, Ciphers, open_envelope, purpose_heartbeat, purpose_telemetry,
}
use public_intelligence.Router.Topics.{node_id_from_topic}

-- Why a handler changed nothing. A UnicodeDecodeError and the exceptions of `fromtimestamp` at a
-- number out of its range are not caught.
pub data Dropped : Type 0 where
  ignored undecodable out_of_range : Dropped

-- `Heartbeat(**data)`, with `none` for what pydantic raises.
pub record Heartbeats (F : Type 0) : Type 0 where
  pub validate : Telemetry F → Option (Heartbeat F)

-- The datetimes of the library; `fromisoformat` has `none` for its ValueError and takes a time
-- without a zone as UTC.
pub record Dates (F D : Type 0) : Type 0 where
  pub fromtimestamp : F → Option D
  pub fromisoformat : String → Option D
  pub seconds_since : D → D → F

pub record Router (F P : Type 0) : Type 0 where
  pub registry : Registry F P
  pub last_verified_heartbeat : Dict F
  pub node_stale_after_seconds : F

-- `except MeshAuthError`
abbrev is_mesh_auth_error : AuthError → Bool
is_mesh_auth_error not_utf8 = false
is_mesh_auth_error _ = true

abbrev pub auth_result : {A : Type 0} → Except AuthError A → Except Dropped A
auth_result (done a) = done a
auth_result (failed e) = failed (if is_mesh_auth_error e then ignored else undecodable)

-- `if not token: return None`
abbrev pub credential : Option String → Except Dropped String
credential none = failed ignored
credential (some token) = if is_truthy token then done token else failed ignored

module _ {F D : Type 0} ⦃da : Dates F D⦄ where
  abbrev pub instant : Option (Reading F) → Except Dropped D
  instant none = failed ignored
  instant (some (number x)) = or_fail (da.fromtimestamp x) out_of_range
  instant (some (text s)) = or_fail (da.fromisoformat s) ignored

module _ {F : Type 0} ⦃fl : Floats F⦄ where
  -- `age > 30.0 or age < -10.0`
  abbrev is_out_of_window : F → Bool
  is_out_of_window age = fl.lt (fl.of_ℕ 30) age || fl.lt age (fl.sub (fl.decimal 0 1) (fl.of_ℕ 10))

  -- `age is not None and age < node_stale_after_seconds`
  abbrev pub is_recent : Option F → F → F → Bool
  is_recent none now node_stale_after_seconds = false
  is_recent (some last_seen) now node_stale_after_seconds =
      fl.lt (fl.sub now last_seen) node_stale_after_seconds

module _ {F P : Type 0} ⦃fl : Floats F⦄ ⦃j : Json F⦄ ⦃ci : Ciphers⦄ ⦃pl : Payloads F⦄ where
  unfoldable pub open_from_node :
      String → String → String → Registry F P → Except Dropped (Telemetry F)
  open_from_node raw node_id purpose registry = do
    check (exists node_id registry) ignored
    token ← credential (get_node_token node_id registry)
    auth_result (open_envelope raw node_id token purpose)

  -- The heartbeat of a message that passes every check.
  unfoldable pub heartbeat_in :
      ⦃h : Heartbeats F⦄ → String → String → Registry F P → Except Dropped (Heartbeat F)
  heartbeat_in ⦃h⦄ raw key_expr registry = do
    node_id ← or_fail (node_id_from_topic key_expr 2) ignored
    body ← open_from_node raw node_id purpose_heartbeat registry
    heartbeat ← or_fail (h.validate body) ignored
    check (str_eq heartbeat.node_id node_id) ignored
    done heartbeat

  -- The sender and the body of a telemetry message that passes every check.
  unfoldable pub telemetry_in :
      {D : Type 0} ⦃da : Dates F D⦄
      → String
      → String
      → D
      → Registry F P
      → Except Dropped (String × Telemetry F)
  telemetry_in ⦃da⦄ raw key_expr now registry = do
    node_id ← or_fail (node_id_from_topic key_expr 3) ignored
    body ← open_from_node raw node_id purpose_telemetry registry
    sent ← instant (lookup "timestamp" body)
    check (not (is_out_of_window (da.seconds_since now sent))) ignored
    done (node_id, body)

module _ {F P : Type 0} ⦃fl : Floats F⦄ where
  unfoldable pub accept_heartbeat :
      Heartbeat F → F → Router F P → Except Dropped (Unit {0}) × Router F P
  unfolding update_heartbeat mark_mesh_reachable
  accept_heartbeat heartbeat now r =
      let (result, registry) = update_heartbeat heartbeat r.registry in
      elim result [
        | err _ ↦ (failed ignored, record r { registry = registry })
        | ok _ ↦ (
          done tt,
          record r {
            registry = mark_mesh_reachable heartbeat.node_id registry;
            last_verified_heartbeat = insert heartbeat.node_id now r.last_verified_heartbeat;
          },
        )
      ]

  unfoldable pub accept_telemetry :
      String × Telemetry F → Router F P → Except Dropped (Unit {0}) × Router F P
  unfolding mark_mesh_reachable
  accept_telemetry (node_id, body) r = (
    done tt,
    record r {
      registry =
          mark_mesh_reachable node_id
            (record r.registry { telemetry = insert node_id body r.registry.telemetry });
    },
  )

  -- A verified heartbeat came in the last seconds.
  unfoldable pub is_fresh : String → F → Router F P → Bool
  is_fresh node_id now r =
      is_recent (lookup node_id r.last_verified_heartbeat) now r.node_stale_after_seconds

  unfoldable pub evict_if_stale : String → F → Router F P → Bool × Router F P
  unfolding exists unregister_node
  evict_if_stale node_id now r =
      if is_fresh node_id now r
      then (false, r)
      else if not (exists node_id r.registry)
      then (false, r)
      else let (removed, registry) = unregister_node node_id r.registry in
        if removed
        then (
          true,
          record r {
            registry = registry;
            last_verified_heartbeat = erase node_id r.last_verified_heartbeat;
          },
        )
        else (false, record r { registry = registry })

  -- The loop of the sweep; the clock is read at the turn of each node.
  unfoldable pub sweep_nodes : (String → F) → List (Node F) → Router F P → Router F P
  sweep_nodes clock [] r = r
  sweep_nodes clock (node ∷ nodes) r =
      sweep_nodes clock nodes (evict_if_stale node.node_id (clock node.node_id) r).1

  -- A lost liveliness token makes the router check, and evict only a stale node.
  abbrev pub process_deathrattle : String → F → Router F P → Router F P
  process_deathrattle node_id now r = (evict_if_stale node_id now r).1

  unfoldable pub sweep_stale_nodes : (String → F) → Router F P → Router F P
  sweep_stale_nodes clock r = sweep_nodes clock (list_nodes r.registry) r

module _ {F P : Type 0} where
  -- It logs, and changes nothing.
  abbrev pub process_liveliness_alive : String → Router F P → Router F P
  process_liveliness_alive node_id r = r

-- The tasks that the callbacks and the sweep loop start, with the clock that they read.
pub data MeshTask (F D : Type 0) : Type 0 where
  heartbeat_task : String → String → F → MeshTask F D
  telemetry_task : String → String → D → MeshTask F D
  deathrattle_task : String → F → MeshTask F D
  alive_task : String → MeshTask F D
  sweep_task : (String → F) → MeshTask F D

module _ {F P : Type 0} ⦃fl : Floats F⦄ ⦃j : Json F⦄ ⦃ci : Ciphers⦄ ⦃pl : Payloads F⦄
    ⦃h : Heartbeats F⦄ where
  unfoldable pub process_heartbeat :
      String → String → F → Router F P → Except Dropped (Unit {0}) × Router F P
  process_heartbeat raw key_expr now r =
      then_do (heartbeat_in raw key_expr r.registry, r)
        (λ heartbeat r. accept_heartbeat heartbeat now r)

  module _ {D : Type 0} ⦃da : Dates F D⦄ where
    unfoldable pub process_telemetry :
        String → String → D → Router F P → Except Dropped (Unit {0}) × Router F P
    process_telemetry raw key_expr now r =
        then_do (telemetry_in raw key_expr now r.registry, r)
          (λ message r. accept_telemetry message r)

    unfoldable pub perform : MeshTask F D → Router F P → Router F P
    perform (heartbeat_task raw key_expr now) r = (process_heartbeat raw key_expr now r).1
    perform (telemetry_task raw key_expr now) r = (process_telemetry raw key_expr now r).1
    perform (deathrattle_task node_id now) r = process_deathrattle node_id now r
    perform (alive_task node_id) r = process_liveliness_alive node_id r
    perform (sweep_task clock) r = sweep_stale_nodes clock r

    unfoldable pub perform_all : List (MeshTask F D) → Router F P → Router F P
    perform_all [] r = r
    perform_all (task ∷ tasks) r = perform_all tasks (perform task r)
