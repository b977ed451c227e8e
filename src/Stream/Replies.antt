-- ===== src/Stream/Replies.antt =====
-- The replies to an inference request over the mesh
-- (packages/shared/src/pi_shared/mesh_protocol.py).
use public_intelligence.Prelude.{ℕ, String, Bool, true, false, Option, none, some}

-- What is read of the JSON object of a reply. `ok` and `done` are false where they are missing; a
-- chunk that is null counts as missing.
pub record Reply : Type 0 where
  pub is_ok : Bool
  pub is_done : Bool
  pub i : Option ℕ
  pub chunk : Option String
  pub status : Option ℕ
  pub error : Option String
  pub model : Option String
  pub response : Option String

abbrev empty_reply : Reply
empty_reply = record {
  is_ok = true;
  is_done = false;
  i = none;
  chunk = none;
  status = none;
  error = none;
  model = none;
  response = none;
}

-- `json.dumps(reply).encode("utf-8")`, and `decode_reply` with `none` for what it raises.
pub record ReplyJson (B : Type 0) : Type 0 where
  pub encode : Reply → B
  pub decode_reply : B → Option Reply

abbrev pub result_reply : String → String → Reply
result_reply model response = record empty_reply { model = some model; response = some response }

abbrev pub chunk_reply : ℕ → String → Reply
chunk_reply index chunk = record empty_reply { i = some index; chunk = some chunk }

abbrev pub done_reply : Reply
done_reply = record empty_reply { is_done = true }

abbrev pub error_reply : String → ℕ → Reply
error_reply message status = record empty_reply {
  is_ok = false;
  status = some status;
  error = some message;
}

module _ {B : Type 0} ⦃j : ReplyJson B⦄ where
  unfoldable pub encode_result : String → String → B
  encode_result model response = j.encode (result_reply model response)

  unfoldable pub encode_chunk : ℕ → String → B
  encode_chunk index chunk = j.encode (chunk_reply index chunk)

  unfoldable pub encode_done : B
  encode_done = j.encode done_reply

  unfoldable pub encode_error : String → ℕ → B
  encode_error message status = j.encode (error_reply message status)
