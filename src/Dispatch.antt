-- ===== src/Dispatch.antt =====
-- The choice of how to reach a node, and the request to it
-- (packages/scheduler/src/scheduler/core/node_dispatch.py). The mesh client is an interface that
-- Dispatch/Client fills from Stream; HTTP is a parameter.
pub mod Client
mod Tests
use Prim.Native.String.{◌++◌ as text_append}
use mathlib.Core.Option
use public_intelligence.Prelude.{
  ℕ, zero, suc, ◌≡◌, String, Bool, true, false, not, ◌&&◌, ◌||◌, Option, none, some, List, [], ◌∷◌,
  ◌==◌, is_truthy, if◌then◌else◌,
}
use public_intelligence.Prelude.Except.{Except, done, failed, ◌>>=◌, or_fail, then_do}
use public_intelligence.Canary.{TextMethods}
use public_intelligence.Matchmaker.{text_or}
use public_intelligence.Registry.{Registry, get_node_token, is_mesh_reachable}
use public_intelligence.Prelude.Float.{Floats}
use public_intelligence.Models.{Node}
use public_intelligence.Selection.{select_node}
use public_intelligence.Stream.{
  ClientError, unavailable, node_error, MeshStream, Next, yielded, stopped, raised, waiting,
}
use public_intelligence.Stream.Server.{starts_with}

-- A NodeDispatchError has a text and a status. `unreadable_answer` is another exception, which is
-- not caught: that of `response.json()` at an answer that is no JSON, or of `get` at one that is no
-- object.
pub data NodeDispatchError : Type 0 where
  dispatch_error : String → ℕ → NodeDispatchError
  unreadable_answer : NodeDispatchError

pub record Settings : Type 0 where
  pub network_auth_token : Option String
  pub mesh_inference_enabled : Bool
  pub node_api_port : ℕ

-- The mesh client: the calls take a node id, a token, a model and a prompt.
pub record MeshClient : Type 0 where
  pub infer : String → String → String → String → Except ClientError (String × String)
  pub open_stream : String → String → String → String → Except ClientError MeshStream

-- The answer of a node to `POST /infer`, with what `str` prints of the keys `model` and `response`
-- of its JSON object; `json` is `none` where the answer is no JSON object.
pub record HttpResponse : Type 0 where
  pub status_code : ℕ
  pub text : String
  pub json : Option (Option String × Option String)

-- What `json.loads` makes of a line; a key may be missing, or null.
pub data Line : Type 0 where
  not_json not_an_object : Line
  an_object : Option (Option String) → Option (Option String) → Line

-- httpx, for an address, a token, a model and a prompt; `post` fails with
-- the text of a RequestError. `decimal` prints a number.
pub record Http : Type 0 where
  pub post : String → Option String → String → String → Except String HttpResponse
  pub parse_line : String → Line
  pub decimal : ℕ → String

abbrev node_infer_url : ⦃h : Http⦄ → String → ℕ → String
node_infer_url ⦃h⦄ ip_address node_api_port =
    if starts_with "http://" ip_address || starts_with "https://" ip_address
    then text_append ip_address "/infer"
    else text_append "http://"
        (text_append ip_address (text_append ":" (text_append (h.decimal node_api_port) "/infer")))

-- `{...} if token else {}`
abbrev header_of : Option String → Option String
header_of none = none
header_of (some token) = if is_truthy token then some token else none

module _ {F P : Type 0} where
  unfoldable pub resolve_token : Registry F P → String → Settings → Option String
  resolve_token r node_id settings = text_or (get_node_token node_id r) settings.network_auth_token

  unfoldable pub use_mesh : Registry F P → String → Settings → Option MeshClient → Bool
  use_mesh r node_id settings none = false
  use_mesh r node_id settings (some client) =
      settings.mesh_inference_enabled && is_mesh_reachable node_id r

module _ ⦃h : Http⦄ where
  abbrev json_of :
      String → Option (Option String × Option String) → Except NodeDispatchError (String × String)
  json_of model none = failed unreadable_answer
  json_of model (some (named, response)) =
      done (Option.get_or named model, Option.get_or response "")

  abbrev of_response :
      String → Except String HttpResponse → Except NodeDispatchError (String × String)
  of_response model (failed e) =
      failed (dispatch_error (text_append "Failed to communicate with compute node: " e) 502)
  of_response model (done r) =
      if not (r.status_code == 200)
      then failed (dispatch_error (text_append "Compute node error: " r.text) r.status_code)
      else json_of model r.json

  unfoldable pub http_infer_once :
      Settings
      → String
      → String
      → String
      → Option String
      → Except NodeDispatchError (String × String)
  http_infer_once settings ip_address model prompt token =
      let url = node_infer_url ip_address settings.node_api_port in
      of_response model (h.post url (header_of token) model prompt)

-- What a stream of a dispatch reads: the mesh, or the HTTP answer of a node.
pub data Source : Type 0 where
  mesh_source : MeshStream → Source
  http_source : String → Option String → Source

-- A mesh call that was answered, or the fallback where nothing answered.
abbrev pub or_fallback :
    {A B : Type 0}
    → Except ClientError A
    → (A → Except NodeDispatchError B)
    → Except NodeDispatchError B
    → Except NodeDispatchError B
or_fallback (done a) f fallback = f a
or_fallback (failed unavailable) f fallback = fallback
or_fallback (failed (node_error detail status)) f fallback = failed (dispatch_error detail status)

-- A call of the client, where the mesh is used.
abbrev on_mesh :
    {A : Type 0}
    → Bool
    → Option MeshClient
    → (MeshClient → Except ClientError A)
    → Except ClientError A
on_mesh reachable none call = failed unavailable
on_mesh reachable (some client) call = if reachable then call client else failed unavailable

module _ {F P : Type 0} ⦃h : Http⦄ where
  unfoldable pub infer_once :
      Registry F P
      → Settings
      → Option MeshClient
      → String
      → String
      → String
      → String
      → Except NodeDispatchError (String × String)
  unfolding http_infer_once resolve_token use_mesh
  infer_once r settings mesh_client node_id ip_address model prompt =
      let token = resolve_token r node_id settings in
      or_fallback
        (on_mesh (use_mesh r node_id settings mesh_client) mesh_client
          (λ client. client.infer node_id (Option.get_or token "") model prompt))
        done (http_infer_once settings ip_address model prompt token)

  unfoldable pub open_inference_stream :
      Registry F P
      → Settings
      → Option MeshClient
      → String
      → String
      → String
      → String
      → Except NodeDispatchError Source
  unfolding resolve_token use_mesh
  open_inference_stream r settings mesh_client node_id ip_address model prompt =
      let token = resolve_token r node_id settings in
      or_fallback
        (on_mesh (use_mesh r node_id settings mesh_client) mesh_client
          (λ client. client.open_stream node_id (Option.get_or token "") model prompt))
        (λ stream. done (mesh_source stream))
        (done (http_source (node_infer_url ip_address settings.node_api_port) (header_of token)))

module _ {F P : Type 0} ⦃fl : Floats F⦄ ⦃h : Http⦄ where
  -- `proxy_inference` of scheduler/api/schedule.py: the node that is selected and its answer.
  unfoldable pub proxy_inference :
      Registry F P
      → Settings
      → Option MeshClient
      → String
      → String
      → Except NodeDispatchError (String × (String × String)) × Registry F P
  unfolding infer_once
  proxy_inference r settings mesh_client model prompt =
      then_do
        (or_fail (select_node model r).0 (dispatch_error "No node" 404), (select_node model r).1)
        (λ node r'. (
          infer_once r' settings mesh_client node.node_id node.ip_address model prompt >>= λ result.
              done (node.node_id, result),
          r',
        ))

-- The streamed answer of a node over HTTP.
pub record HttpStream : Type 0 where
  pub status_code : ℕ
  pub error_text : String
  pub lines : List String

unfoldable pub drop_text : ℕ → String → String
drop_text zero s = s
drop_text (suc n) String.[] = String.[]
drop_text (suc n) (String.◌∷◌ c s) = drop_text n s

module _ ⦃h : Http⦄ ⦃tm : TextMethods⦄ where
  -- `str(value)` at a value that may be null.
  abbrev shown : Option String → String
  shown value = Option.get_or value ""

  abbrev chunk_of : String → Line → String
  chunk_of clean not_json = clean
  chunk_of clean not_an_object = clean
  chunk_of clean (an_object (some response) text) = shown response
  chunk_of clean (an_object none (some text)) = shown text
  chunk_of clean (an_object none none) = clean

  -- The loop over the lines of an HTTP stream.
  unfoldable pub http_chunks : List String → List String
  unfolding drop_text
  http_chunks [] = []
  http_chunks (line ∷ lines) =
      let rest = http_chunks lines in
      let clean = if starts_with "data: " line then tm.strip (drop_text 6 line) else line in
      if not (is_truthy (tm.strip line))
      then rest
      else if starts_with "session_id:" clean
      then rest
      else chunk_of clean (h.parse_line clean) ∷ rest

  unfoldable pub http_stream : HttpStream → Except NodeDispatchError (List String)
  unfolding http_chunks
  http_stream r =
      if not (r.status_code == 200)
      then failed (dispatch_error r.error_text r.status_code)
      else done (http_chunks r.lines)
