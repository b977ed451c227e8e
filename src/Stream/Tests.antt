-- ===== src/Stream/Tests.antt =====
-- Runs of the client against the server, and their theorems at concrete inputs. A reply travels as
-- it is.
use public_intelligence.Prelude.{
  ◌≡◌, refl, true, false, some, none, [], ◌∷◌, map, length, drop, ◌+◌, ◌<◌, arith,
}
use public_intelligence.Prelude.Except.{done, failed}
use public_intelligence.Canary.{TextMethods}
use public_intelligence.Mesh.Values.{status}
use public_intelligence.Stream.Replies.{
  Reply, ReplyJson, encode_result, encode_chunk, encode_done, encode_error, error_reply,
}
use public_intelligence.Stream.{
  unavailable, node_error, sample, ZenohSession, drain, start_query, first_reply, infer,
  opened_stream, MeshStream, open_stream, stopped, raised, next_item, anext, iterate,
}
use public_intelligence.Stream.Server.{
  ollama_error, Generation, starts_with, is_within, failure_status, serve_chunks, serve_stream,
  serve_once, serve,
}
use public_intelligence.Stream.Ended.{is_end, iterate-open_stream}
use public_intelligence.Stream.Served.{
  consume, cutting, cut_off, consume-serve_stream, consume-serve_chunks,
}

program : Unit {0}
unfolding encode_result encode_chunk encode_done encode_error drain start_query first_reply infer
    opened_stream open_stream next_item anext iterate starts_with is_within failure_status
    serve_chunks serve_stream serve_once serve status
program = tt

instance abbrev as_it_is : ReplyJson Reply
as_it_is = record { encode = λ reply. reply; decode_reply = λ reply. some reply }

instance abbrev lower_case : TextMethods
lower_case = record { strip = λ s. s; lower = λ s. s }

abbrev greeting : Generation
greeting = record { chunks = "Hel" ∷ "lo" ∷ []; failure = none }

abbrev missing_model : Generation
missing_model = record { chunks = []; failure = some (ollama_error "model not found") }

abbrev ask : Reply
ask = error_reply "query" 0

-- A network that loses and delays nothing.
abbrev serving : Generation → ZenohSession Reply
serving g = λ key_expr payload.
    some (record { replies = map sample (serve_stream g); breaks_off = false; is_late = false })

-- A model that is not there is reported with status 404 before any chunk.
not_found :
    consume 1 (open_stream (some (serving missing_model)) "key" ask)
    ≡ ([], raised (node_error "model not found" 404))
unfolding program
not_found = refl

no_session : open_stream none "key" ask ≡ failed unavailable
unfolding program
no_session = refl

consume-serve_stream_example :
    consume 3 (open_stream (some (serving greeting)) "key" ask) ≡ ("Hel" ∷ "lo" ∷ [], stopped)
consume-serve_stream_example =
    consume-serve_stream (λ reply. refl) greeting (serving greeting) "key" ask refl

consume-serve_chunks_example :
    consume 3 (open_stream (some (cutting ("Hel" ∷ "lo" ∷ []) false)) "key" ask)
    ≡ ("Hel" ∷ "lo" ∷ [], raised (cut_off false))
consume-serve_chunks_example =
    consume-serve_chunks (λ reply. refl) "Hel" ("lo" ∷ []) false "key" ask

abbrev greeted : MeshStream
greeted = record {
  first_chunk = some "Hel";
  queue = drain {B = Reply} (map sample (drop 1 (serve_stream greeting))) false;
  finished = false;
}

greeted_opened : open_stream (some (serving greeting)) "key" ask ≡ done greeted
unfolding program
greeted_opened = refl

enough : length greeted.queue + 1 < 5
unfolding program
enough = omega arith

iterate-open_stream_example : is_end (iterate 5 greeted).1 ≡ true
iterate-open_stream_example =
    iterate-open_stream (some (serving greeting)) "key" ask greeted 5 greeted_opened enough
