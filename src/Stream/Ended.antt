-- ===== src/Stream/Ended.antt =====
-- A stream over the mesh comes to an end.
use public_intelligence.Prelude.{
  ℕ, zero, suc, ◌+◌, ◌≡◌, ◌<◌, refl, sym, subst, String, Bool, true, false, Option, none, some,
  List, [], ◌∷◌, length, arith, Option-cases, Bool-cases, ◌⊎◌, inl, inr,
}
use public_intelligence.Prelude.Except.{done, Except-cases}
use public_intelligence.Stream.Replies.{Reply, ReplyJson}
use public_intelligence.Stream.{
  ZenohReply, reply_err, sample, neither, Item, answer, trouble, ended, ZenohSession, drain,
  start_query, first_reply, opened_stream, MeshStream, open_stream, Next, yielded, stopped, raised,
  waiting, error_of, after, next_item, anext, iterate,
}

-- Whether the end of the replies stands in a queue.
abbrev pub is_closed : List Item → Bool
is_closed [] = false
is_closed (ended ∷ queue) = true
is_closed (answer reply ∷ queue) = is_closed queue
is_closed (trouble ∷ queue) = is_closed queue

abbrev pub is_end : Next → Bool
is_end (yielded chunk) = false
is_end stopped = true
is_end (raised e) = true
is_end waiting = false

drain-closed :
    {B : Type 0} ⦃j : ReplyJson B⦄ (replies : List (ZenohReply B)) (breaks_off : Bool)
    → is_closed (drain replies breaks_off) ≡ true
unfolding drain
drain-closed [] breaks_off = ground arith
drain-closed (reply_err ∷ replies) breaks_off = drain-closed replies breaks_off
drain-closed (neither ∷ replies) breaks_off = drain-closed replies breaks_off
drain-closed ⦃j⦄ (sample payload ∷ replies) breaks_off =
    let rest = drain-closed replies breaks_off in
    elim (Option-cases (j.decode_reply payload)) [ inl e ↦ rw e rest | inr (reply, e) ↦ rw e rest ]

abbrev pub behind : List Item → MeshStream
behind queue = record { first_chunk = none; queue = queue; finished = false }

next_item-error :
    (reply : Reply) (queue : List Item)
    → reply.is_ok ≡ false
    → (next_item (answer reply ∷ queue)).0 ≡ raised (error_of reply)
unfolding next_item
next_item-error reply queue e = ground arith

next_item-done :
    (reply : Reply) (queue : List Item)
    → reply.is_ok ≡ true
    → reply.is_done ≡ true
    → (next_item (answer reply ∷ queue)).0 ≡ stopped
unfolding next_item
next_item-done reply queue e d = ground arith

next_item-null :
    (reply : Reply) (queue : List Item)
    → reply.is_ok ≡ true
    → reply.is_done ≡ false
    → reply.chunk ≡ none
    → next_item (answer reply ∷ queue) ≡ next_item queue
unfolding next_item
next_item-null reply queue e d c = rw (next_item, e, d, c)

pub next_item-chunk :
    (reply : Reply) (queue : List Item) (chunk : String)
    → reply.is_ok ≡ true
    → reply.is_done ≡ false
    → reply.chunk ≡ some chunk
    → next_item (answer reply ∷ queue) ≡ (yielded chunk, behind queue)
unfolding next_item
next_item-chunk reply queue chunk e d c = rw (next_item, e, d, c)

pub iterate-behind :
    (rounds : ℕ) (queue : List Item)
    → iterate (suc rounds) (behind queue)
      ≡ after (next_item queue).0 (iterate rounds (next_item queue).1)
unfolding iterate anext
iterate-behind rounds queue = refl

is_end-after :
    (chunk : String) (rest : List String × Next)
    → is_end (after (yielded chunk) rest).1 ≡ is_end rest.1
is_end-after chunk rest = refl

-- Each round takes an item from the queue.
iterate-closed :
    (rounds : ℕ) (queue : List Item)
    → is_closed queue ≡ true
    → length queue < rounds
    → is_end (iterate rounds (behind queue)).1 ≡ true
unfolding next_item
iterate-closed zero queue c h = absurd (omega arith)
iterate-closed (suc rounds) [] c h = cc
iterate-closed (suc rounds) (ended ∷ queue) c h = rw (iterate-behind rounds (ended ∷ queue))
iterate-closed (suc rounds) (trouble ∷ queue) c h = rw (iterate-behind rounds (trouble ∷ queue))
iterate-closed (suc rounds) (answer reply ∷ queue) c h =
    let step = iterate-behind rounds (answer reply ∷ queue) in
    let more = iterate-closed (suc rounds) queue c (omega arith) in
    elim (Bool-cases reply.is_ok) [
      | inr e ↦ rw (step, next_item-error reply queue e)
      | inl e ↦ elim (Bool-cases reply.is_done) [
        | inl d ↦ rw (step, next_item-done reply queue e d)
        | inr d ↦ elim (Option-cases reply.chunk) [
          | inl n ↦
              rw (step, next_item-null reply queue e d n) (rw (iterate-behind rounds queue) at more)
          | inr (chunk, n) ↦
              rw (step, next_item-chunk reply queue chunk e d n)
                (iterate-closed rounds queue c (omega arith))
        ]
      ]
    ]

opened_stream-cases :
    (reply : Reply) (queue : List Item) (s : MeshStream)
    → opened_stream (reply, queue) ≡ done s
    → (s ≡ record { first_chunk = none; queue = queue; finished = true })
      ⊎ ((chunk : String) × (s
            ≡ record { first_chunk = some chunk; queue = queue; finished = false }))
unfolding opened_stream
opened_stream-cases reply queue s h = elim (Bool-cases reply.is_ok) [
  | inr e ↦ absurd (ground arith)
  | inl e ↦ elim (Bool-cases reply.is_done) [
    | inl d ↦ inl (ground arith)
    | inr d ↦ elim (Option-cases reply.chunk) [
      | inl n ↦ absurd (ground arith)
      | inr (chunk, n) ↦ inr (chunk, ground arith)
    ]
  ]
]

first_reply-closed :
    (queue rest : List Item) (is_late : Bool) (reply : Reply)
    → first_reply (queue, is_late) ≡ done (reply, rest)
    → is_closed queue ≡ true
    → is_closed rest ≡ true
unfolding first_reply
first_reply-closed queue rest true reply h c = cc
first_reply-closed [] rest false reply h c = cc
first_reply-closed (ended ∷ queue) rest false reply h c = cc
first_reply-closed (trouble ∷ queue) rest false reply h c = cc
first_reply-closed (answer found ∷ queue) rest false reply h c = ground arith

start_query-closed :
    {B : Type 0} ⦃j : ReplyJson B⦄ (session : Option (ZenohSession B)) (key_expr : String)
    (payload : B) (queue : List Item) (is_late : Bool)
    → start_query session key_expr payload ≡ done (queue, is_late)
    → is_closed queue ≡ true
unfolding start_query
start_query-closed none key_expr payload queue is_late h = cc
start_query-closed (some get) key_expr payload queue is_late h =
    elim (Option-cases (get key_expr payload)) [
      | inl e ↦ absurd (ground arith)
      | inr (answers, e) ↦
          let closed = drain-closed answers.replies answers.breaks_off in ground arith
    ]

pub iterate-finished :
    (rounds : ℕ) (queue : List Item)
    → 0 < rounds
    → iterate rounds (record { first_chunk = none; queue = queue; finished = true }) ≡ ([], stopped)
unfolding iterate anext
iterate-finished zero queue h = absurd (omega arith)
iterate-finished (suc rounds) queue h = refl

pub iterate-first :
    (rounds : ℕ) (chunk : String) (queue : List Item)
    → iterate (suc rounds) (record { first_chunk = some chunk; queue = queue; finished = false })
      ≡ after (yielded chunk) (iterate rounds (behind queue))
unfolding iterate anext
iterate-first rounds chunk queue = refl

iterate-first_closed :
    (rounds : ℕ) (chunk : String) (queue : List Item)
    → is_closed queue ≡ true
    → length queue + 1 < rounds
    → is_end
        (iterate rounds (record { first_chunk = some chunk; queue = queue; finished = false })).1
      ≡ true
iterate-first_closed zero chunk queue c h = absurd (omega arith)
iterate-first_closed (suc rounds) chunk queue c h =
    rw (iterate-first rounds chunk queue) (iterate-closed rounds queue c (omega arith))

-- However the replies to a query come, an `async for` over a stream that was opened ends, with
-- StopAsyncIteration or a MeshNodeError, after at most two steps more than the queue has items, and
-- never waits forever.
pub iterate-open_stream :
    {B : Type 0} ⦃j : ReplyJson B⦄ (session : Option (ZenohSession B)) (key_expr : String)
    (payload : B) (s : MeshStream) (rounds : ℕ)
    → open_stream session key_expr payload ≡ done s
    → length s.queue + 1 < rounds
    → is_end (iterate rounds s).1 ≡ true
unfolding open_stream
iterate-open_stream session key_expr payload s rounds h enough =
    elim (Except-cases (start_query session key_expr payload)) [
      | inr (e, bad) ↦ absurd (ground arith)
      | inl ((queue, is_late), started) ↦ elim (Except-cases (first_reply (queue, is_late))) [
        | inr (e, bad) ↦ absurd (ground arith)
        | inl ((reply, rest), first) ↦
            let closed =
              first_reply-closed queue rest is_late reply first
                (start_query-closed session key_expr payload queue is_late started) in
            elim (opened_stream-cases reply rest s (ground arith)) [
              | inl same ↦
                  let finished = iterate-finished rounds rest (omega arith) in
                  subst (λ x. is_end (iterate rounds x).1 ≡ true) (sym same) (rw finished)
              | inr (chunk, same) ↦
                  let room : length rest + 1 < rounds =
                    subst (λ x. length x.queue + 1 < rounds) same enough in
                  subst (λ x. is_end (iterate rounds x).1 ≡ true) (sym same)
                    (iterate-first_closed rounds chunk rest closed room)
            ]
      ]
    ]
