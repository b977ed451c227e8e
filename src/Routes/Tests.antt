-- ===== src/Routes/Tests.antt =====
-- Runs of the routes, and their theorem at a concrete input.
use public_intelligence.Prelude.{ℕ, ◌≡◌, ◌≤◌, refl, String, true, false, some, none, List, [], ◌∷◌}
use public_intelligence.Prelude.Dict.{lookup, contains, insert, erase}
use public_intelligence.Prelude.Except.{done, failed}
use public_intelligence.Models.{Node}
use public_intelligence.Registry.{
  new_registry, set_node_token, register, unregister, get, get_node_token, list_nodes,
  is_mesh_reachable, set_available_models, update_heartbeat,
}
use public_intelligence.Invites.{InviteRegistry, enforcing, verify, redeem}
use public_intelligence.Invites.Limit.{remaining}
use public_intelligence.Routes.{
  HttpError, AppState, RegisterHeaders, verify_auth_token, register_node, post_register, get_node,
  list_views, delete_node_route, receive_heartbeat, update_node_models,
}
use public_intelligence.Routes.Admission.{Attempt, registrations, registrations-le-remaining}
use public_intelligence.Examples.{tenths, plain, node_a, node_b, beat_a}

program : Unit {0}
unfolding lookup contains insert erase set_node_token register unregister get get_node_token
    list_nodes is_mesh_reachable set_available_models update_heartbeat enforcing verify redeem
    remaining verify_auth_token register_node post_register get_node list_views delete_node_route
    receive_heartbeat update_node_models registrations
program = tt

abbrev same : String → String
same s = s

-- One code with one use.
abbrev one_code : InviteRegistry ℕ (Node ℕ)
one_code = record {
  store = none;
  invites =
      (
        "code",
        record {
          code_hash = "code";
          label = "friend";
          max_uses = 1;
          uses = 0;
          revoked = false;
          created_at = 0;
        },
      )
      ∷ [];
}

abbrev state : AppState ℕ (Node ℕ)
state = record { registry = new_registry none; invites = some one_code }

abbrev with_code : RegisterHeaders
with_code = record {
  x_network_auth_token = some "fleet";
  x_node_credential = some "own";
  x_invite_code = some "code";
}

abbrev without_code : RegisterHeaders
without_code = record with_code { x_invite_code = none }

abbrev joined : AppState ℕ (Node ℕ)
joined = (register_node same with_code node_a state).1

admitted_once : (register_node same with_code node_a state).0 ≡ done node_a
unfolding program
admitted_once = refl

credential_kept : get_node_token "a" joined.registry ≡ some "own"
unfolding program
credential_kept = refl

used_up : (register_node same with_code node_b joined).0 ≡ failed HttpError.forbidden_403
unfolding program
used_up = refl

no_code : register_node same without_code node_a state ≡ (failed HttpError.forbidden_403, state)
unfolding program
no_code = refl

wrong_token :
    post_register same (some "other") with_code node_a state
    ≡ (failed HttpError.unauthorized_401, state)
unfolding program
wrong_token = refl

unknown_beat : (receive_heartbeat beat_a state.registry).0 ≡ failed HttpError.not_found_404
unfolding program
unknown_beat = refl

-- A second registration under the id of a node is refused, but its credential takes the place of the
-- node's.
taken_over :
    let open_state : AppState ℕ (Node ℕ) = record { registry = joined.registry; invites = none } in
    let stranger = record with_code { x_node_credential = some "stranger" } in
    let (result, after) = register_node same stranger node_a open_state in
    (result ≡ failed HttpError.conflict_409) × (get_node_token "a" after.registry ≡ some "stranger")
unfolding program
taken_over = (refl, refl)

enforced : enforcing one_code ≡ true
unfolding program
enforced = refl

abbrev attempts : List (Attempt ℕ)
attempts =
    record { headers = with_code; node = node_a }
    ∷ record { headers = with_code; node = node_b }
    ∷ []

one_registered : registrations same "code" attempts state ≡ 1
unfolding program
one_registered = refl

registrations-le-remaining_example :
    registrations same "code" attempts state ≤ remaining "code" one_code
registrations-le-remaining_example =
    registrations-le-remaining same "code" attempts state one_code refl enforced
