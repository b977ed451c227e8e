-- ===== src/Stream/Server.antt =====
-- The server of inference over the mesh
-- (packages/node/src/node/clients/mesh_inference_server.py): the replies that a query gets, in the
-- order in which they are sent.
use Prim.Native.Char.{code}
use Prim.Native.String.{◌++◌ as text_append}
use public_intelligence.Prelude.{
  ℕ, ◌+◌, String, Bool, true, false, ◌&&◌, ◌||◌, Option, none, some, List, [], ◌∷◌, ◌++◌, ◌==◌,
  if◌then◌else◌,
}
use public_intelligence.Prelude.Except.{Except, done, failed}
use public_intelligence.Canary.{TextMethods}
use public_intelligence.Mesh.Values.{
  MeshInferenceRequest, Outcome, returned, raised, MeshError, status,
}
use public_intelligence.Stream.Replies.{
  ReplyJson, encode_result, encode_chunk, encode_done, encode_error,
}

-- The exceptions of the model backend, with their texts.
pub data Failure : Type 0 where
  ollama_error other_error : String → Failure

-- What a streaming generation gives: chunks, and the exception that ends it, if one does.
pub record Generation : Type 0 where
  pub chunks : List String
  pub failure : Option Failure

-- The client of the model backend, and the texts of the exceptions of the verification.
pub record Backend : Type 0 where
  pub generate : String → String → Except Failure (String × String)
  pub generate_stream : String → String → Generation
  pub describe : MeshError → String

unfoldable pub starts_with : String → String → Bool
starts_with String.[] s = true
starts_with (String.◌∷◌ c t) String.[] = false
starts_with (String.◌∷◌ c t) (String.◌∷◌ d s) = code c == code d && starts_with t s

-- `t in s`
unfoldable pub is_within : String → String → Bool
unfolding starts_with
is_within t String.[] = starts_with t String.[]
is_within t (String.◌∷◌ c s) = starts_with t (String.◌∷◌ c s) || is_within t s

module _ ⦃tm : TextMethods⦄ where
  unfoldable pub failure_status : Failure → ℕ
  unfolding is_within
  failure_status (ollama_error e) = if is_within "not found" (tm.lower e) then 404 else 500
  failure_status (other_error e) = 500

abbrev pub failure_text : Failure → String
failure_text (ollama_error e) = e
failure_text (other_error e) = text_append "Node inference failed: " e

module _ {B : Type 0} ⦃j : ReplyJson B⦄ where
  unfoldable pub serve_chunks : ℕ → List String → List B
  unfolding encode_chunk
  serve_chunks index [] = []
  serve_chunks index (chunk ∷ chunks) = encode_chunk index chunk ∷ serve_chunks (index + 1) chunks

  module _ ⦃tm : TextMethods⦄ where
    -- The reply that reports an exception.
    abbrev pub serve_failure : Failure → B
    unfolding encode_error
    serve_failure e = encode_error (failure_text e) (failure_status e)

    unfoldable pub serve_stream : Generation → List B
    unfolding serve_chunks encode_done
    serve_stream g = elim g.failure [
      | none ↦ serve_chunks 0 g.chunks ++ (encode_done ∷ [])
      | some e ↦ serve_chunks 0 g.chunks ++ (serve_failure e ∷ [])
    ]

    unfoldable pub serve_once : Except Failure (String × String) → List B
    unfolding encode_result
    serve_once (done (model, response)) = encode_result model response ∷ []
    serve_once (failed e) = serve_failure e ∷ []

    -- The outcome is that of the verification. An exception without a status is not caught, and the
    -- query gets no reply.
    unfoldable pub serve : Backend → Outcome MeshInferenceRequest → List B
    unfolding serve_stream serve_once status
    serve backend (raised e) = elim (status e) [
      | none ↦ []
      | some code ↦ encode_error (backend.describe e) code ∷ []
    ]
    serve backend (returned request) =
        if request.stream
        then serve_stream (backend.generate_stream request.model request.prompt)
        else serve_once (backend.generate request.model request.prompt)
