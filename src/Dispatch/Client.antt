-- ===== src/Dispatch/Client.antt =====
-- The mesh client of Stream as the client of the dispatch, and a dispatch to a node that serves.
use Prim.Native.String.{◌++◌ as text_append}
use public_intelligence.Prelude.{String, Bool, true, false, Option, some, map}
use public_intelligence.Prelude.Except.{Except, done, failed}
use public_intelligence.Canary.{TextMethods}
use public_intelligence.Registry.{Registry}
use public_intelligence.Stream.Replies.{ReplyJson}
use public_intelligence.Stream.{sample, ZenohSession, infer, open_stream}
use public_intelligence.Stream.Server.{Failure, failure_status, failure_text, serve_once}
use public_intelligence.Dispatch.{NodeDispatchError, dispatch_error, MeshClient}

-- `infer_key_expr`
abbrev pub infer_key_expr : String → String
infer_key_expr node_id = text_append "public-intelligence/net/" (text_append node_id "/infer")

module _ {B : Type 0} ⦃j : ReplyJson B⦄ where
  -- `encode` is `encode_request` with its clock and its nonces, of a node id, a token, a model, a
  -- prompt and whether to stream.
  abbrev pub mesh_client :
      Option (ZenohSession B) → (String → String → String → String → Bool → B) → MeshClient
  mesh_client session encode = record {
    infer = λ node_id token model prompt.
        infer session (infer_key_expr node_id) (encode node_id token model prompt false) model;
    open_stream = λ node_id token model prompt.
        open_stream session (infer_key_expr node_id) (encode node_id token model prompt true);
  }

  -- A session on which a node answers once.
  abbrev pub answering : ⦃tm : TextMethods⦄ → Except Failure (String × String) → ZenohSession B
  answering outcome = λ key_expr payload.
      some
        (record { replies = map sample (serve_once outcome); breaks_off = false; is_late = false })

-- What the caller gets of the outcome of the model backend.
abbrev pub dispatched :
    ⦃tm : TextMethods⦄
    → Except Failure (String × String)
    → Except NodeDispatchError (String × String)
dispatched (done answer) = done answer
dispatched (failed e) = failed (dispatch_error (failure_text e) (failure_status e))
