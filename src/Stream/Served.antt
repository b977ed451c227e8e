-- ===== src/Stream/Served.antt =====
-- What the server of a node sends, the client of the Scheduler hands on.
use public_intelligence.Prelude.{
  ℕ, suc, ◌+◌, ◌≡◌, refl, ap, ◌∙◌, String, Bool, true, false, Option, none, some, List, [], ◌∷◌,
  ◌++◌, map, length, if◌then◌else◌, Option-cases, inl, inr,
}
use public_intelligence.Prelude.Except.{Except, done, failed, ◌>>=◌}
use public_intelligence.Canary.{TextMethods}
use public_intelligence.Stream.Replies.{
  Reply, ReplyJson, chunk_reply, done_reply, error_reply, encode_chunk, encode_done, encode_error,
}
use public_intelligence.Stream.{
  ClientError, node_error, sample, Item, answer, trouble, ended, ZenohSession, drain, start_query,
  first_reply, opened_stream, MeshStream, open_stream, Next, yielded, stopped, raised, next_item,
  anext, after, iterate,
}
use public_intelligence.Stream.Server.{
  Failure, Generation, failure_status, failure_text, serve_chunks, serve_failure, serve_stream,
}
use public_intelligence.Stream.Ended.{behind, iterate-behind, next_item-chunk}

-- The chunks that reach the requester and how the stream ends, where a stream is opened.
abbrev pub consume : ℕ → Except ClientError MeshStream → List String × Next
consume rounds (failed e) = ([], raised e)
consume rounds (done s) = iterate rounds s

-- How the stream of a generation ends.
abbrev pub ending : ⦃tm : TextMethods⦄ → Option Failure → Next
ending none = stopped
ending (some e) = raised (node_error (failure_text e) (failure_status e))

abbrev last_reply : ⦃tm : TextMethods⦄ → Option Failure → Reply
last_reply none = done_reply
last_reply (some e) = error_reply (failure_text e) (failure_status e)

-- The queue of a generation that is served, from a chunk on.
abbrev chunk_items : ℕ → List String → List Item → List Item
chunk_items index [] rest = rest
chunk_items index (chunk ∷ chunks) rest =
    answer (chunk_reply index chunk) ∷ chunk_items (index + 1) chunks rest

module _ {B : Type 0} ⦃j : ReplyJson B⦄ where
  drain-serve_chunks :
      (law : (reply : Reply) → j.decode_reply (j.encode reply) ≡ some reply) (index : ℕ)
      (chunks : List String) (rest : List B)
      → drain (map sample (serve_chunks index chunks ++ rest)) false
        ≡ chunk_items index chunks (drain (map sample rest) false)
  unfolding drain serve_chunks encode_chunk
  drain-serve_chunks law index [] rest = refl
  drain-serve_chunks law index (chunk ∷ chunks) rest =
      rw (law (chunk_reply index chunk), drain-serve_chunks law (index + 1) chunks rest)

module _ (B : Type 0) ⦃j : ReplyJson B⦄ where
  drain-serve_stream :
      ⦃tm : TextMethods⦄ (law : (reply : Reply) → j.decode_reply (j.encode reply) ≡ some reply)
      (g : Generation)
      → drain (map sample (serve_stream {B = B} g)) false
        ≡ chunk_items 0 g.chunks (answer (last_reply g.failure) ∷ ended ∷ [])
  unfolding serve_stream drain encode_done encode_error
  drain-serve_stream law g = elim (Option-cases g.failure) [
    | inl e ↦ rw (e, drain-serve_chunks law 0 g.chunks (encode_done ∷ []), law done_reply)
    | inr (f, e) ↦ rw (
      e,
      drain-serve_chunks law 0 g.chunks (serve_failure f ∷ []),
      law (error_reply (failure_text f) (failure_status f)),
    )
  ]

-- The chunks of a queue, and then what the rest of it brings.
iterate-chunk_items :
    (index : ℕ) (chunks : List String) (rest : List Item) (last : Next)
    → iterate 1 (behind rest) ≡ ([], last)
    → iterate (suc (length chunks)) (behind (chunk_items index chunks rest)) ≡ (chunks, last)
iterate-chunk_items index [] rest last h = h
iterate-chunk_items index (chunk ∷ chunks) rest last h =
    let queue = chunk_items (index + 1) chunks rest in
    iterate-behind (suc (length chunks)) (answer (chunk_reply index chunk) ∷ queue)
    ∙ (ap (λ n. after n.0 (iterate (suc (length chunks)) n.1))
          (next_item-chunk (chunk_reply index chunk) queue chunk refl refl refl)
        ∙ ap (after (yielded chunk)) (iterate-chunk_items (index + 1) chunks rest last h))

iterate-last_reply :
    ⦃tm : TextMethods⦄ (failure : Option Failure)
    → iterate 1 (behind (answer (last_reply failure) ∷ ended ∷ [])) ≡ ([], ending failure)
unfolding iterate anext next_item
iterate-last_reply none = refl
iterate-last_reply (some e) = refl

-- The queue of a generation that is served.
abbrev served_items : ⦃tm : TextMethods⦄ → List String → Option Failure → List Item
served_items chunks failure = chunk_items 0 chunks (answer (last_reply failure) ∷ ended ∷ [])

consume-served_items :
    ⦃tm : TextMethods⦄ (chunks : List String) (failure : Option Failure)
    → consume
        (suc (length chunks))
        (first_reply (served_items chunks failure, false) >>= λ first. opened_stream first)
      ≡ (chunks, ending failure)
unfolding first_reply opened_stream iterate anext
consume-served_items [] none = refl
consume-served_items [] (some e) = refl
consume-served_items (chunk ∷ chunks) failure =
    let rest = answer (last_reply failure) ∷ ended ∷ [] in
    ap (after (yielded chunk))
      (iterate-chunk_items 1 chunks rest (ending failure) (iterate-last_reply failure))

module _ {B : Type 0} ⦃j : ReplyJson B⦄ ⦃tm : TextMethods⦄ where
  -- The network brings the query every reply that the node sends for the generation, in the order
  -- of the sending, and each within the timeout.
  abbrev pub DeliversAll : ZenohSession B → String → B → Generation → Type 0
  DeliversAll session key_expr payload g =
      session key_expr payload
      ≡ some (record { replies = map sample (serve_stream g); breaks_off = false; is_late = false })

  -- Where a reply decodes to what was encoded, and the network loses no reply, keeps their order and
  -- is in time, the requester gets exactly the chunks of a streaming generation, and then the end of
  -- it: StopAsyncIteration, or the error of the model backend with its text and status.
  pub consume-serve_stream :
      (law : (reply : Reply) → j.decode_reply (j.encode reply) ≡ some reply) (g : Generation)
      (session : ZenohSession B) (key_expr : String) (payload : B)
      → DeliversAll session key_expr payload g
      → consume (suc (length g.chunks)) (open_stream (some session) key_expr payload)
        ≡ (g.chunks, ending g.failure)
  unfolding open_stream start_query
  consume-serve_stream law g session key_expr payload delivered =
      rw (open_stream, start_query, delivered, drain-serve_stream B law g)
        (consume-served_items g.chunks g.failure)

-- The error at the end of a stream without a terminator, by whether the iterator broke off.
abbrev pub cut_off : Bool → ClientError
cut_off false = node_error "Node stopped streaming without completing the response." 502
cut_off true = node_error "Mesh stream failed" 502

iterate-cut_off :
    (breaks_off : Bool)
    → iterate 1 (behind (if breaks_off then trouble ∷ ended ∷ [] else ended ∷ []))
      ≡ ([], raised (cut_off breaks_off))
unfolding iterate anext next_item
iterate-cut_off false = refl
iterate-cut_off true = refl

module _ (B : Type 0) ⦃j : ReplyJson B⦄ where
  drain-cut :
      (law : (reply : Reply) → j.decode_reply (j.encode reply) ≡ some reply) (index : ℕ)
      (chunks : List String) (breaks_off : Bool)
      → drain (map sample (serve_chunks {B = B} index chunks)) breaks_off
        ≡ chunk_items index chunks (if breaks_off then trouble ∷ ended ∷ [] else ended ∷ [])
  unfolding drain serve_chunks encode_chunk
  drain-cut law index [] breaks_off = refl
  drain-cut law index (chunk ∷ chunks) breaks_off =
      rw (law (chunk_reply index chunk), drain-cut law (index + 1) chunks breaks_off)

module _ {B : Type 0} ⦃j : ReplyJson B⦄ where
  -- A session on which some chunks of a stream arrive, and no reply behind them.
  abbrev pub cutting : List String → Bool → ZenohSession B
  cutting chunks breaks_off = λ key_expr payload. some (record {
    replies = map sample (serve_chunks 0 chunks);
    breaks_off = breaks_off;
    is_late = false;
  })

  -- Where a reply decodes to what was encoded and the replies stop after some chunks, the requester
  -- gets these chunks and then a MeshNodeError with status 502, and never a clean end.
  pub consume-serve_chunks :
      (law : (reply : Reply) → j.decode_reply (j.encode reply) ≡ some reply) (chunk : String)
      (chunks : List String) (breaks_off : Bool) (key_expr : String) (payload : B)
      → consume
          (suc (length (chunk ∷ chunks)))
          (open_stream (some (cutting (chunk ∷ chunks) breaks_off)) key_expr payload)
        ≡ (chunk ∷ chunks, raised (cut_off breaks_off))
  unfolding open_stream start_query first_reply opened_stream iterate anext
  consume-serve_chunks law chunk chunks breaks_off key_expr payload =
      let rest = if breaks_off then trouble ∷ ended ∷ [] else ended ∷ [] in
      rw (open_stream, start_query, drain-cut B law 0 (chunk ∷ chunks) breaks_off)
        (ap (after (yielded chunk)) (
          iterate-chunk_items 1 chunks rest (raised (cut_off breaks_off))
            (iterate-cut_off breaks_off)))
