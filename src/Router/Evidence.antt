-- ===== src/Router/Evidence.antt =====
-- What a message must show before the router takes it, and what one task can change of a node.
use public_intelligence.Prelude.{
  ◌≡◌, sym, subst, String, Bool, true, Option, none, some, is_truthy, arith, inl, inr, Option-cases,
  eq_iff,
}
use public_intelligence.Prelude.Dict.{lookup, contains}
use public_intelligence.Prelude.Except.{Except, done, failed, Except-cases}
use public_intelligence.Prelude.Float.{Floats}
use public_intelligence.Models.{Node, Heartbeat, Telemetry}
use public_intelligence.Mesh.Values.{Json}
use public_intelligence.Store.{Tables}
use public_intelligence.Registry.{Registry, exists, get_node_token}
use public_intelligence.Envelope.{
  AuthError, Payloads, Ciphers, open_envelope, purpose_heartbeat, purpose_telemetry,
}
use public_intelligence.Router.Topics.{node_id_from_topic}
use public_intelligence.Router.{
  Heartbeats, Dates, Router, auth_result, instant, open_from_node, heartbeat_in, telemetry_in,
}

-- The rows of a node in the store.
abbrev pub rows_of :
    {F P : Type 0} → String → Option (Tables F P) → Option (Option P × Option String)
rows_of k none = none
rows_of k (some s) = some (lookup k s.nodes, lookup k s.node_tokens)

-- Everything that the router, the registry and its store hold of a node.
pub record Observed (F P : Type 0) : Type 0 where
  pub registered : Bool
  pub node : Option (Node F)
  pub heartbeat : Option (Heartbeat F)
  pub dampener : Option F
  pub telemetry : Option (Telemetry F)
  pub token : Option String
  pub reachable : Bool
  pub rows : Option (Option P × Option String)
  pub last_verified : Option F

auth_result-done :
    {A : Type 0} (m : Except AuthError A) (a : A) → auth_result m ≡ done a → m ≡ done a
auth_result-done (done b) a h = ground arith
auth_result-done (failed e) a h = cc

module _ {F P : Type 0} where
  abbrev pub observed : String → Router F P → Observed F P
  observed k r = record {
    registered = contains k r.registry.nodes;
    node = lookup k r.registry.nodes;
    heartbeat = lookup k r.registry.heartbeats;
    dampener = lookup k r.registry.dampeners;
    telemetry = lookup k r.registry.telemetry;
    token = lookup k r.registry.node_tokens;
    reachable = contains k r.registry.mesh_nodes;
    rows = rows_of k r.registry.store;
    last_verified = lookup k r.last_verified_heartbeat;
  }

module _ {F P : Type 0} ⦃fl : Floats F⦄ ⦃j : Json F⦄ ⦃ci : Ciphers⦄ ⦃pl : Payloads F⦄ where
  -- A message that opens with the credential that the registry holds of a node.
  pub record IsVerified (raw node_id purpose : String) (registry : Registry F P)
      (body : Telemetry F) : Type 0 where
    pub token : String
    pub registered : contains node_id registry.nodes ≡ true
    pub stored : lookup node_id registry.node_tokens ≡ some token
    pub configured : is_truthy token ≡ true
    pub opened : open_envelope raw node_id token purpose ≡ done body

  open_from_node-IsVerified :
      (raw node_id purpose : String) (registry : Registry F P) (body : Telemetry F)
      → open_from_node raw node_id purpose registry ≡ done body
      → IsVerified raw node_id purpose registry body
  unfolding open_from_node exists get_node_token
  open_from_node-IsVerified raw node_id purpose registry body h =
      elim (Option-cases (lookup node_id registry.node_tokens)) [
        | inl e ↦ absurd (ground arith)
        | inr (token, e) ↦ record {
          token = token;
          registered = ground arith;
          stored = e;
          configured = ground arith;
          opened = auth_result-done (open_envelope raw node_id token purpose) body (ground arith);
        }
      ]

  pub heartbeat_in-done :
      ⦃h : Heartbeats F⦄ (raw key_expr : String) (registry : Registry F P) (heartbeat : Heartbeat F)
      → heartbeat_in raw key_expr registry ≡ done heartbeat
      → (node_id_from_topic key_expr 2 ≡ some heartbeat.node_id)
        × ((body : Telemetry F) × (h.validate body ≡ some heartbeat)
            × IsVerified raw heartbeat.node_id purpose_heartbeat registry body)
  unfolding heartbeat_in
  heartbeat_in-done ⦃h⦄ raw key_expr registry heartbeat e =
      elim (Option-cases (node_id_from_topic key_expr 2)) [
        | inl t ↦ absurd (ground arith)
        | inr (node_id, t) ↦
            elim (Except-cases (open_from_node raw node_id purpose_heartbeat registry)) [
              | inr (bad, o) ↦ absurd (ground arith)
              | inl (body, o) ↦ elim (Option-cases (h.validate body)) [
                | inl v ↦ absurd (ground arith)
                | inr (found, v) ↦
                    let same : found ≡ heartbeat = ground arith in
                    let named : heartbeat.node_id ≡ node_id =
                      ground (arith, eq_iff found.node_id node_id) in
                    let verified =
                      open_from_node-IsVerified raw node_id purpose_heartbeat registry body o in
                    (
                      rw named t,
                      (
                        body,
                        rw (← same) v,
                        subst (λ n. IsVerified raw n purpose_heartbeat registry body) (sym named)
                            verified,
                      ),
                    )
              ]
            ]
      ]

  pub telemetry_in-done :
      {D : Type 0} ⦃da : Dates F D⦄ (raw key_expr : String) (now : D) (registry : Registry F P)
      (node_id : String) (body : Telemetry F)
      → telemetry_in raw key_expr now registry ≡ done (node_id, body)
      → (node_id_from_topic key_expr 3 ≡ some node_id)
        × IsVerified raw node_id purpose_telemetry registry body
  unfolding telemetry_in
  telemetry_in-done ⦃da⦄ raw key_expr now registry node_id body e =
      elim (Option-cases (node_id_from_topic key_expr 3)) [
        | inl t ↦ absurd (ground arith)
        | inr (sender, t) ↦
            elim (Except-cases (open_from_node raw sender purpose_telemetry registry)) [
              | inr (bad, o) ↦ absurd (ground arith)
              | inl (read, o) ↦ elim (Except-cases (instant ⦃da = da⦄ (lookup "timestamp" read))) [
                | inr (bad, i) ↦ absurd (ground arith)
                | inl (sent, i) ↦
                    let same : (sender ≡ node_id) × (read ≡ body) = ground arith in
                    let verified =
                      open_from_node-IsVerified raw sender purpose_telemetry registry read o in
                    (
                      rw (← same.0) t,
                      subst (λ n. IsVerified raw n purpose_telemetry registry body) same.0
                          (subst (λ b. IsVerified raw sender purpose_telemetry registry b) same.1
                            verified),
                    )
              ]
            ]
      ]
