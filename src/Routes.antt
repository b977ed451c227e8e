-- ===== src/Routes.antt =====
-- Routes of the Scheduler that change its state (packages/scheduler/src/scheduler/api/nodes.py,
-- heartbeat.py, schedule.py and auth.py). A route holds no await at which another runs, since the
-- store answers without a suspension. An HTTPException is its status beside the state that the
-- route reached; the bodies are validated by pydantic before.
pub mod Codes
pub mod Admission
mod Tests
use public_intelligence.Prelude.{
  ℕ, ◌≡◌, String, Bool, true, false, not, ◌&&◌, Option, none, some, List, [], ◌∷◌, map, str_eq,
  is_truthy, if◌then◌else◌,
}
use public_intelligence.Prelude.Except.{Except, done, failed, check, or_fail, then_do}
use public_intelligence.Prelude.Float.{Floats}
use public_intelligence.Models.{Node, Heartbeat, InviteCode}
use public_intelligence.Store.{Codec}
use public_intelligence.Registry.{
  Registry, Result, ok, err, set_node_token, register, unregister, get, list_nodes,
  is_mesh_reachable, set_available_models, update_heartbeat,
}
use public_intelligence.Invites.{InviteRegistry, enforcing, verify, redeem}
use public_intelligence.Matchmaker.{text_or}
use public_intelligence.Selection.{select_node}

pub data HttpError : Type 0 where
  unauthorized_401 forbidden_403 not_found_404 conflict_409 : HttpError

-- `app.state`
pub record AppState (F P : Type 0) : Type 0 where
  pub registry : Registry F P
  pub invites : Option (InviteRegistry F P)

-- The headers of a registration.
pub record RegisterHeaders : Type 0 where
  pub x_network_auth_token : Option String
  pub x_node_credential : Option String
  pub x_invite_code : Option String

abbrev same_text : Option String → String → Bool
same_text none s = false
same_text (some t) s = str_eq t s

-- `network_auth_token` is the setting.
unfoldable pub verify_auth_token : Option String → Option String → Except HttpError (Unit {0})
verify_auth_token x_network_auth_token none = done tt
verify_auth_token x_network_auth_token (some network_auth_token) =
    check (same_text x_network_auth_token network_auth_token) unauthorized_401

abbrev is_some : {A : Type 0} → Option A → Bool
is_some none = false
is_some (some a) = true

module _ {F P : Type 0} (hash : String → String) where
  -- A registration without a usable code, while codes are enforced.
  abbrev pub is_refused : Option (InviteRegistry F P) → Option String → Bool
  is_refused none x_invite_code = false
  is_refused (some invites) x_invite_code =
      enforcing invites && not (is_some (verify hash x_invite_code invites))

  -- The use of a code after a registration.
  abbrev pub redeemed : Option (InviteRegistry F P) → Option String → Option (InviteRegistry F P)
  redeemed none x_invite_code = none
  redeemed (some invites) none = some invites
  redeemed (some invites) (some code) =
      some (if enforcing invites && is_truthy code then (redeem hash code invites).1 else invites)

  module _ ⦃fl : Floats F⦄ ⦃c : Codec F P⦄ where
    unfoldable pub register_node :
        RegisterHeaders → Node F → AppState F P → Except HttpError (Node F) × AppState F P
    register_node headers node s =
        let token = text_or headers.x_node_credential headers.x_network_auth_token in
        let r = set_node_token node.node_id token s.registry in
        let (result, r') = register node r in
        if is_refused s.invites headers.x_invite_code
        then (failed forbidden_403, s)
        else elim result [
          | err _ ↦ (failed conflict_409, record s { registry = r' })
          | ok _ ↦ (
            done node,
            record { registry = r'; invites = redeemed s.invites headers.x_invite_code },
          )
        ]

    -- `POST /nodes/register` with its dependency.
    unfoldable pub post_register :
        Option String
        → RegisterHeaders
        → Node F
        → AppState F P
        → Except HttpError (Node F) × AppState F P
    unfolding register_node
    post_register network_auth_token headers node s =
        then_do (verify_auth_token headers.x_network_auth_token network_auth_token, s)
          (λ _ s. register_node headers node s)

module _ {A F P : Type 0} where
  -- What a ValueError of the registry becomes.
  abbrev or_not_found : Result A × Registry F P → Except HttpError A × Registry F P
  or_not_found (ok a, r) = (done a, r)
  or_not_found (err e, r) = (failed not_found_404, r)

-- `NodeView.from_node` with how a node is reachable.
abbrev NodeView : Type 0 → Type 0
NodeView F = Node F × Bool

module _ {F P : Type 0} ⦃fl : Floats F⦄ where
  -- `schedule_request`; the response repeats fields of the node.
  unfoldable pub schedule_request : String → Registry F P → Except HttpError (Node F) × Registry F P
  schedule_request model_name r =
      let (chosen, r') = select_node model_name r in (or_fail chosen not_found_404, r')

module _ {F P : Type 0} where
  abbrev view_of : Registry F P → Node F → NodeView F
  view_of r node = (node, is_mesh_reachable node.node_id r)

  unfoldable pub list_views : Registry F P → List (NodeView F)
  list_views r = map (view_of r) (list_nodes r)

  unfoldable pub get_node : String → Registry F P → Except HttpError (NodeView F)
  get_node node_id r = elim (get node_id r) [
    | none ↦ failed not_found_404
    | some node ↦ done (node, is_mesh_reachable node_id r)
  ]

  -- `unregister_node` of the route
  unfoldable pub delete_node_route :
      String → Registry F P → Except HttpError (Unit {0}) × Registry F P
  delete_node_route node_id r = or_not_found (unregister node_id r)

  module _ ⦃fl : Floats F⦄ where
    unfoldable pub receive_heartbeat :
        Heartbeat F → Registry F P → Except HttpError (Unit {0}) × Registry F P
    receive_heartbeat heartbeat r = or_not_found (update_heartbeat heartbeat r)

  module _ ⦃fl : Floats F⦄ ⦃c : Codec F P⦄ where
    unfoldable pub update_node_models :
        String → List String → Registry F P → Except HttpError (NodeView F) × Registry F P
    unfolding get_node
    update_node_models node_id models r =
        then_do (or_not_found (set_available_models node_id models r))
          (λ _ r'. (get_node node_id r', r'))
