-- ===== src/Dispatch/Tests.antt =====
-- Runs of the dispatch, and its theorem at a concrete input.

use public_intelligence.Prelude.{ℕ, ◌≡◌, refl, String, Bool, true, some, none, [], ◌∷◌}
use public_intelligence.Prelude.Dict.{lookup, contains, insert}
use public_intelligence.Prelude.Except.{Except, done, failed}
use public_intelligence.Canary.{TextMethods}
use public_intelligence.Models.{Node}
use public_intelligence.Registry.{
  Registry, new_registry, register, mark_mesh_reachable, is_mesh_reachable, get_node_token,
}
use public_intelligence.Stream.Replies.{Reply, ReplyJson, error_reply, encode_result, encode_error}
use public_intelligence.Stream.{drain, start_query, first_reply, infer}
use public_intelligence.Stream.Server.{
  Failure, other_error, serve_once, starts_with, is_within, failure_status,
}
use public_intelligence.Dispatch.{
  Settings, MeshClient, not_json, Http, resolve_token, use_mesh, http_infer_once, infer_once,
  drop_text, http_chunks, http_stream,
}
use public_intelligence.Dispatch.Client.{mesh_client, answering}
use public_intelligence.Examples.{tenths, plain, node_a}

program : Unit {0}
unfolding lookup contains insert register mark_mesh_reachable is_mesh_reachable get_node_token
    encode_result encode_error drain start_query first_reply infer serve_once starts_with is_within
    failure_status resolve_token use_mesh http_infer_once infer_once drop_text http_chunks
    http_stream
program = tt

instance abbrev as_it_is : ReplyJson Reply
as_it_is = record { encode = λ reply. reply; decode_reply = λ reply. some reply }

instance abbrev same_text : TextMethods
same_text = record { strip = λ s. s; lower = λ s. s }

-- A node that answers over HTTP with its address.
instance abbrev echo : Http
echo = record {
  post = λ url token model prompt.
      done (record { status_code = 200; text = ""; json = some (none, some url) });
  parse_line = λ s. not_json;
  decimal = λ n. "8001";
}

abbrev settings : Settings
settings = record { network_auth_token = none; mesh_inference_enabled = true; node_api_port = 8001 }

abbrev registry : Registry ℕ (Node ℕ)
registry = mark_mesh_reachable "a" (register node_a (new_registry none)).1

abbrev encode : String → String → String → String → Bool → Reply
encode node_id token model prompt stream = error_reply "query" 0

abbrev broken : Except Failure (String × String)
broken = failed (other_error "out of memory")

abbrev client : MeshClient
client = mesh_client (some (answering broken)) encode

-- Nothing answers on the mesh, so the node is dialled.
fallen_back :
    infer_once registry settings
      (some (mesh_client {B = Reply} none encode))
      "a"
      "10.0.0.1"
      "m"
      "hi"
    ≡ done ("m", "http://10.0.0.1:8001/infer")
unfolding program
fallen_back = refl

framing : http_chunks ("session_id: 1" ∷ "" ∷ "data: Hel" ∷ "lo" ∷ []) ≡ ("Hel" ∷ "lo" ∷ [])
unfolding program
framing = refl
