-- ===== src/Router/Beating.antt =====
-- No task of the router evicts a node that keeps sending heartbeats.
use public_intelligence.Prelude.{
  ◌≡◌, refl, sym, subst, ap, ◌∙◌, String, Bool, true, some, List, [], ◌∷◌, str_eq, arith, inl, inr,
  Bool-cases, eq_iff, eq_refl,
}
use public_intelligence.Prelude.Dict.{lookup, contains, lookup-insert}
use public_intelligence.Prelude.Except.{Except-cases}
use public_intelligence.Prelude.Float.{Floats}
use public_intelligence.Models.{Node, Heartbeat, Telemetry}
use public_intelligence.Mesh.Values.{Json}
use public_intelligence.Registry.{mark_mesh_reachable, update_heartbeat, list_nodes}
use public_intelligence.Envelope.{Payloads, Ciphers}
use public_intelligence.Router.{
  Heartbeats, Dates, Router, heartbeat_in, telemetry_in, accept_heartbeat, accept_telemetry,
  is_fresh, evict_if_stale, sweep_nodes, sweep_stale_nodes, MeshTask, heartbeat_task,
  telemetry_task, deathrattle_task, alive_task, sweep_task, process_heartbeat, process_telemetry,
  perform, perform_all,
}
use public_intelligence.Router.Evidence.{observed}
use public_intelligence.Router.Changes.{
  observed-accept_heartbeat, observed-evict_if_stale, evict_if_stale-fresh,
  evict_if_stale-threshold, observed-sweep_nodes,
}

module _ {F P : Type 0} where
  -- A registered node whose last verified heartbeat came at one of the times.
  pub record IsBeating (is_time : F → Bool) (k : String) (r : Router F P) : Type 0 where
    pub last_seen : F
    pub registered : contains k r.registry.nodes ≡ true
    pub seen : lookup k r.last_verified_heartbeat ≡ some last_seen
    pub in_time : is_time last_seen ≡ true

module _ {F D : Type 0} where
  -- The clock reads one of the times wherever the task reads it for heartbeats.
  abbrev pub IsTimed : (F → Bool) → MeshTask F D → Type 0
  IsTimed is_time (heartbeat_task raw key_expr now) = is_time now ≡ true
  IsTimed is_time (telemetry_task raw key_expr now) = Unit
  IsTimed is_time (deathrattle_task node_id now) = is_time now ≡ true
  IsTimed is_time (alive_task node_id) = Unit
  IsTimed is_time (sweep_task clock) = (k : String) → is_time (clock k) ≡ true

  abbrev pub AreTimed : (F → Bool) → List (MeshTask F D) → Type 0
  AreTimed is_time [] = Unit
  AreTimed is_time (task ∷ tasks) = IsTimed is_time task × AreTimed is_time tasks

module _ {F P : Type 0} ⦃fl : Floats F⦄ where
  sweep_nodes-threshold :
      (clock : String → F) (nodes : List (Node F)) (r : Router F P)
      → (sweep_nodes clock nodes r).node_stale_after_seconds ≡ r.node_stale_after_seconds
  unfolding sweep_nodes
  sweep_nodes-threshold clock [] r = refl
  sweep_nodes-threshold clock (node ∷ nodes) r =
      let now = clock node.node_id in
      sweep_nodes-threshold clock nodes (evict_if_stale node.node_id now r).1
      ∙ evict_if_stale-threshold node.node_id now r

  -- Nothing but what is observed of the node decides whether it is beating.
  IsBeating-observed :
      (is_time : F → Bool) (k : String) (r r' : Router F P)
      → observed k r' ≡ observed k r
      → IsBeating is_time k r
      → IsBeating is_time k r'
  IsBeating-observed is_time k r r' same b = record {
    last_seen = b.last_seen;
    registered = ap (λ o. o.registered) same ∙ b.registered;
    seen = ap (λ o. o.last_verified) same ∙ b.seen;
    in_time = b.in_time;
  }

  accept_heartbeat-IsBeating :
      (is_time : F → Bool) (heartbeat : Heartbeat F) (now : F) (r : Router F P)
      → is_time now ≡ true
      → IsBeating is_time heartbeat.node_id r
      → IsBeating is_time heartbeat.node_id (accept_heartbeat heartbeat now r).1
  unfolding accept_heartbeat update_heartbeat mark_mesh_reachable
  accept_heartbeat-IsBeating is_time heartbeat now r t b =
      let registered = b.registered in
      record {
        last_seen = now;
        registered = ground arith;
        seen = ground (
          arith,
          lookup-insert heartbeat.node_id heartbeat.node_id now r.last_verified_heartbeat,
          eq_refl heartbeat.node_id,
        );
        in_time = t;
      }

  is_fresh-IsBeating :
      (is_time : F → Bool) (k : String) (now : F) (r : Router F P)
      → ((a b : F)
          → is_time a ≡ true
          → is_time b ≡ true
          → fl.lt (fl.sub b a) r.node_stale_after_seconds ≡ true)
      → is_time now ≡ true
      → IsBeating is_time k r
      → is_fresh k now r ≡ true
  unfolding is_fresh
  is_fresh-IsBeating is_time k now r close t b =
      rw (is_fresh, b.seen) (close b.last_seen now b.in_time t)

  -- A telemetry message leaves the nodes and the times of their heartbeats as they are.
  accept_telemetry-kept :
      (message : String × Telemetry F) (r : Router F P)
      → let r' = (accept_telemetry message r).1 in
        (r'.registry.nodes ≡ r.registry.nodes)
        × (r'.last_verified_heartbeat ≡ r.last_verified_heartbeat)
  unfolding accept_telemetry mark_mesh_reachable
  accept_telemetry-kept message r = (refl, refl)

module _ {F P D : Type 0} ⦃fl : Floats F⦄ ⦃j : Json F⦄ ⦃ci : Ciphers⦄ ⦃pl : Payloads F⦄
    ⦃h : Heartbeats F⦄ ⦃da : Dates F D⦄ where
  perform-threshold :
      (task : MeshTask F D) (r : Router F P)
      → (perform task r).node_stale_after_seconds ≡ r.node_stale_after_seconds
  unfolding perform process_heartbeat process_telemetry sweep_stale_nodes accept_heartbeat
      accept_telemetry
  perform-threshold (heartbeat_task raw key_expr now) r =
      elim (Except-cases (heartbeat_in raw key_expr r.registry)) [
        | inr (bad, e) ↦ ground arith
        | inl (heartbeat, e) ↦ ground arith
      ]
  perform-threshold (telemetry_task raw key_expr now) r =
      elim (Except-cases (telemetry_in raw key_expr now r.registry)) [
        | inr (bad, e) ↦ ground arith
        | inl (message, e) ↦ ground arith
      ]
  perform-threshold (deathrattle_task node_id now) r = evict_if_stale-threshold node_id now r
  perform-threshold (alive_task node_id) r = refl
  perform-threshold (sweep_task clock) r = sweep_nodes-threshold clock (list_nodes r.registry) r

  perform-IsBeating :
      (is_time : F → Bool) (k : String) (task : MeshTask F D) (r : Router F P)
      → ((a b : F)
          → is_time a ≡ true
          → is_time b ≡ true
          → fl.lt (fl.sub b a) r.node_stale_after_seconds ≡ true)
      → IsTimed is_time task
      → IsBeating is_time k r
      → IsBeating is_time k (perform task r)
  unfolding perform process_heartbeat process_telemetry sweep_stale_nodes
  perform-IsBeating is_time k (heartbeat_task raw key_expr now) r close t b =
      let r' = (process_heartbeat raw key_expr now r).1 in
      elim (Except-cases (heartbeat_in raw key_expr r.registry)) [
        | inr (bad, e) ↦ IsBeating-observed is_time k r r' (rw (process_heartbeat, e)) b
        | inl (heartbeat, e) ↦
            let accepted : r' ≡ (accept_heartbeat heartbeat now r).1 = rw (process_heartbeat, e) in
            elim (Bool-cases (str_eq heartbeat.node_id k)) [
              | inr apart ↦
                  IsBeating-observed is_time k r r'
                    (ap (observed k) accepted ∙ observed-accept_heartbeat heartbeat now r k apart) b
              | inl same ↦
                  let named : heartbeat.node_id ≡ k = ground (arith, eq_iff heartbeat.node_id k) in
                  let beating = subst (λ n. IsBeating is_time n r) (sym named) b in
                  subst (IsBeating is_time k) (sym accepted) (
                    subst (λ n. IsBeating is_time n (accept_heartbeat heartbeat now r).1) named
                      (accept_heartbeat-IsBeating is_time heartbeat now r t beating))
            ]
      ]
  perform-IsBeating is_time k (telemetry_task raw key_expr now) r close t b =
      let r' = (process_telemetry raw key_expr now r).1 in
      elim (Except-cases (telemetry_in raw key_expr now r.registry)) [
        | inr (bad, e) ↦ IsBeating-observed is_time k r r' (rw (process_telemetry, e)) b
        | inl (message, e) ↦
            let accepted : r' ≡ (accept_telemetry message r).1 = rw (process_telemetry, e) in
            record {
              last_seen = b.last_seen;
              registered =
                  ap (λ x. contains k x.registry.nodes) accepted
                  ∙ (ap (contains k) (accept_telemetry-kept message r).0 ∙ b.registered);
              seen =
                  ap (λ x. lookup k x.last_verified_heartbeat) accepted
                  ∙ (ap (lookup k) (accept_telemetry-kept message r).1 ∙ b.seen);
              in_time = b.in_time;
            }
      ]
  perform-IsBeating is_time k (deathrattle_task node_id now) r close t b =
      elim (Bool-cases (str_eq node_id k)) [
        | inr apart ↦
            IsBeating-observed is_time k r (evict_if_stale node_id now r).1
              (observed-evict_if_stale node_id now r k apart) b
        | inl same ↦
            let named : node_id ≡ k = ground (arith, eq_iff node_id k) in
            let fresh =
              is_fresh-IsBeating is_time node_id now r close t
                (subst (λ n. IsBeating is_time n r) (sym named) b) in
            subst (IsBeating is_time k) (sym (evict_if_stale-fresh node_id now r fresh)) b
      ]
  perform-IsBeating is_time k (alive_task node_id) r close t b = b
  perform-IsBeating is_time k (sweep_task clock) r close t b =
      let fresh = is_fresh-IsBeating is_time k (clock k) r close (t k) b in
      IsBeating-observed is_time k r (sweep_stale_nodes clock r)
        (observed-sweep_nodes clock (list_nodes r.registry) r k fresh) b

  -- While any two of the times at which the router reads its clock are less than the threshold apart,
  -- no messages, lost liveliness tokens and sweeps evict a registered node whose last verified
  -- heartbeat came at one of these times.
  pub perform_all-IsBeating :
      (is_time : F → Bool) (k : String) (tasks : List (MeshTask F D)) (r : Router F P)
      → ((a b : F)
          → is_time a ≡ true
          → is_time b ≡ true
          → fl.lt (fl.sub b a) r.node_stale_after_seconds ≡ true)
      → AreTimed is_time tasks
      → IsBeating is_time k r
      → IsBeating is_time k (perform_all tasks r)
  unfolding perform_all
  perform_all-IsBeating is_time k [] r close t b = b
  perform_all-IsBeating is_time k (task ∷ tasks) r close t b =
      perform_all-IsBeating is_time k tasks (perform task r) (rw (perform-threshold task r) close)
        t.1 (perform-IsBeating is_time k task r close t.0 b)
