-- ===== src/Stream.antt =====
-- The client of inference over the mesh
-- (packages/scheduler/src/scheduler/core/mesh_inference_client.py). The drain thread runs to its
-- end, so a query's queue is the list of all that it puts; waiting at an empty queue is
-- `waiting`. The index of a chunk only feeds a log line.
pub mod Replies
pub mod Server
pub mod Ended
pub mod Served
mod Tests
use mathlib.Core.Option
use public_intelligence.Prelude.{
  ℕ, zero, suc, String, Bool, true, false, not, Option, none, some, List, [], ◌∷◌, ◌++◌,
  if◌then◌else◌,
}
use public_intelligence.Prelude.Except.{Except, done, failed, ◌>>=◌, ◌>>◌, check, or_fail}
use public_intelligence.Stream.Replies.{Reply, ReplyJson}

-- `MeshUnavailableError`, after which the caller may fall back, and `MeshNodeError` with its
-- message and status.
pub data ClientError : Type 0 where
  unavailable : ClientError
  node_error : String → ℕ → ClientError

-- What Zenoh's reply iterator gives; `neither` is a reply without a sample.
pub data ZenohReply (B : Type 0) : Type 0 where
  reply_err : ZenohReply B
  sample : B → ZenohReply B
  neither : ZenohReply B

-- What the drain thread puts into the queue.
pub data Item : Type 0 where
  answer : Reply → Item
  trouble : Item
  ended : Item

-- What a query that was sent brings: the replies, whether the iterator breaks off with an
-- exception, and whether the first item comes after the timeout.
pub record Answers (B : Type 0) : Type 0 where
  pub replies : List (ZenohReply B)
  pub breaks_off : Bool
  pub is_late : Bool

-- A Zenoh session: what it brings for a key expression and a payload, or `none` for an exception.
abbrev pub ZenohSession : Type 0 → Type 0
ZenohSession B = String → B → Option (Answers B)

abbrev decoded : Option Reply → Item
decoded none = trouble
decoded (some reply) = answer reply

module _ {B : Type 0} ⦃j : ReplyJson B⦄ where
  unfoldable pub drain : List (ZenohReply B) → Bool → List Item
  drain [] breaks_off = if breaks_off then trouble ∷ ended ∷ [] else ended ∷ []
  drain (reply_err ∷ replies) breaks_off = trouble ∷ drain replies breaks_off
  drain (neither ∷ replies) breaks_off = drain replies breaks_off
  drain (sample payload ∷ replies) breaks_off =
      decoded (j.decode_reply payload) ∷ drain replies breaks_off

  -- The queue, and whether the wait for its first item times out.
  unfoldable pub start_query :
      Option (ZenohSession B) → String → B → Except ClientError (List Item × Bool)
  unfolding drain
  start_query session key_expr payload = do
    get ← or_fail session unavailable
    answers ← or_fail (get key_expr payload) unavailable
    done (drain answers.replies answers.breaks_off, answers.is_late)

-- The first reply and the rest of the queue.
unfoldable pub first_reply : List Item × Bool → Except ClientError (Reply × List Item)
first_reply (queue, true) = failed unavailable
first_reply ([], false) = failed unavailable
first_reply (answer reply ∷ queue, false) = done (reply, queue)
first_reply (trouble ∷ queue, false) = failed unavailable
first_reply (ended ∷ queue, false) = failed unavailable

abbrev pub error_of : Reply → ClientError
error_of reply =
    node_error (Option.get_or reply.error "Node reported an error.")
      (Option.get_or reply.status 500)

pub record MeshStream : Type 0 where
  pub first_chunk : Option String
  pub queue : List Item
  pub finished : Bool

module _ {B : Type 0} ⦃j : ReplyJson B⦄ where
  unfoldable pub infer :
      Option (ZenohSession B) → String → B → String → Except ClientError (String × String)
  unfolding start_query first_reply
  infer session key_expr payload model = do
    started ← start_query session key_expr payload
    first ← first_reply started
    check first.0.is_ok (error_of first.0)
    done (Option.get_or first.0.model model, Option.get_or first.0.response "")

-- A stream whose first chunk has arrived.
abbrev pub opened_at : Option String → List Item → Except ClientError MeshStream
opened_at none queue = failed (node_error "Node sent a reply with no content." 502)
opened_at (some chunk) queue =
    done (record { first_chunk = some chunk; queue = queue; finished = false })

-- The stream over a first reply and the rest of its queue.
unfoldable pub opened_stream : Reply × List Item → Except ClientError MeshStream
opened_stream (reply, queue) =
    if not reply.is_ok
    then failed (error_of reply)
    else if reply.is_done
    then done (record { first_chunk = none; queue = queue; finished = true })
    else opened_at reply.chunk queue

module _ {B : Type 0} ⦃j : ReplyJson B⦄ where
  unfoldable pub open_stream : Option (ZenohSession B) → String → B → Except ClientError MeshStream
  unfolding start_query first_reply opened_stream
  open_stream session key_expr payload = do
    started ← start_query session key_expr payload
    first ← first_reply started
    opened_stream first

-- What `__anext__` does: it returns a chunk, raises StopAsyncIteration or a MeshNodeError, or waits.
pub data Next : Type 0 where
  yielded : String → Next
  stopped : Next
  raised : ClientError → Next
  waiting : Next

-- The loop over the queue.
unfoldable pub next_item : List Item → Next × MeshStream
next_item [] = (waiting, record { first_chunk = none; queue = []; finished = false })
next_item (ended ∷ queue) = (
  raised (node_error "Node stopped streaming without completing the response." 502),
  record { first_chunk = none; queue = queue; finished = true },
)
next_item (trouble ∷ queue) = (
  raised (node_error "Mesh stream failed" 502),
  record { first_chunk = none; queue = queue; finished = true },
)
next_item (answer reply ∷ queue) =
    let rest = next_item queue in
    if not reply.is_ok
    then (raised (error_of reply), record { first_chunk = none; queue = queue; finished = true })
    else if reply.is_done
    then (stopped, record { first_chunk = none; queue = queue; finished = true })
    else elim reply.chunk [
      | none ↦ rest
      | some chunk ↦ (yielded chunk, record { first_chunk = none; queue = queue; finished = false })
    ]

-- `__anext__`
unfoldable pub anext : MeshStream → Next × MeshStream
unfolding next_item
anext s = elim s.first_chunk [
  | some chunk ↦ (yielded chunk, record s { first_chunk = none })
  | none ↦ if s.finished then (stopped, s) else next_item s.queue
]

-- The chunks of an `async for` from one step on, and how it ends.
abbrev pub after : Next → List String × Next → List String × Next
after (yielded chunk) (chunks, last) = (chunk ∷ chunks, last)
after stopped rest = ([], stopped)
after (raised e) rest = ([], raised e)
after waiting rest = ([], waiting)

-- The chunks of an `async for` over the stream and how it ends, for a number of rounds; `yielded`
-- says that the rounds ran out.
unfoldable pub iterate : ℕ → MeshStream → List String × Next
unfolding anext
iterate zero s = ([], yielded "")
iterate (suc rounds) s = let rest = iterate rounds (anext s).1 in after (anext s).0 rest
