-- ===== src/Server/Chat/Events.antt =====
-- What a reader of the chat's event stream gets to see.
use tfai_go.Base.{
  ◌≡◌, ◌≢◌, ◌∙◌, sym, refl, ap, arith, ℕ, ◌⊎◌, inl, inr, bytes_eq_nil, bytes_eq, Bool-cases, Bool,
  true, false, Option, none, some, List, [], ◌∷◌, ◌++◌, append_assoc, append-nil, Bytes, codes, map,
  trim_right_byte, length, All, Result, ok, err,
}
use tfai_go.Path.{clean, is_abs}
use tfai_go.Disk.{Tree}
use tfai_go.Server.Stream.{Client, newline, sse_frame, event_frame}
use tfai_go.Server.Stream.Decode.{
  decode, SseEvent, message, carriage_return, IsOneLine, decode-sse_frame, decode-event_frame,
  decode-last_frame,
}
use tfai_go.Server.Chat.{
  Answer, finish, write, Outcome, run_answer, close_stream, send, Connection, ChatRequest, streamed,
  allowed_origin, handle_chat, stream_answer,
}

-- A client that takes every frame.
abbrev pub patient : Client
patient sent frame = none

abbrev pub patient_connection : Bytes → Bool → Connection
patient_connection origin expired = record {
  client = patient;
  flushes = true;
  origin = origin;
  expired = expired;
}

-- The texts that the querier writes when each write succeeds, and the result it ends with.
unfoldable pub texts_of : Answer → List Bytes
texts_of (finish tree result) = []
texts_of (write p next) = p ∷ texts_of (next (ok (length p)))

unfoldable pub result_of : Answer → Result Bool
result_of (finish tree result) = result
result_of (write p next) = result_of (next (ok (length p)))

pub closing_events : Result Bool → List SseEvent
closing_events (err e) = record { name = codes "error"; text = e } ∷ []
closing_events (ok true) =
    record { name = codes "files_written"; text = codes "true" }
    ∷ record { name = codes "done"; text = codes "[DONE]" }
    ∷ []
closing_events (ok false) = record { name = codes "done"; text = codes "[DONE]" } ∷ []

-- The error of the result, if it is one, is a single line.
abbrev pub IsReadable : Result Bool → Type 0
IsReadable (ok files_written) = Unit
IsReadable (err e) = IsOneLine e

closing_bytes : Result Bool → Bytes
closing_bytes (err e) = event_frame (codes "error") e
closing_bytes (ok true) =
    event_frame (codes "files_written") (codes "true")
    ++ event_frame (codes "done") (codes "[DONE]")
closing_bytes (ok false) = event_frame (codes "done") (codes "[DONE]")

stream_of : Answer → Bytes
unfolding closing_bytes
stream_of (finish tree result) = closing_bytes result
stream_of (write p next) = sse_frame p ++ stream_of (next (ok (length p)))

close_stream-closing_bytes :
    (expired : Bool) (sent : Bytes) (result : Result Bool)
    → (close_stream patient expired sent result).0 ≡ sent ++ closing_bytes result
unfolding close_stream send closing_bytes
close_stream-closing_bytes expired sent (err e) = refl
close_stream-closing_bytes expired sent (ok true) = append_assoc sent _ _
close_stream-closing_bytes expired sent (ok false) = refl

run_answer-stream_of :
    (expired : Bool) (sent : Bytes) (answer : Answer)
    → (run_answer patient expired sent answer).1.0 ≡ sent ++ stream_of answer
unfolding run_answer stream_of
run_answer-stream_of expired sent (finish tree result) =
    close_stream-closing_bytes expired sent result
run_answer-stream_of expired sent (write p next) =
    run_answer-stream_of expired (sent ++ sse_frame p) (next (ok (length p)))
    ∙ append_assoc sent (sse_frame p) (stream_of (next (ok (length p))))

decode_done :
    decode (event_frame (codes "done") (codes "[DONE]"))
    ≡ record { name = codes "done"; text = codes "[DONE]" } ∷ []
decode_done = decode-last_frame (codes "done") (codes "[DONE]") (ground arith) (ground arith)

decode-closing_bytes :
    (result : Result Bool)
    → IsReadable result
    → decode (closing_bytes result) ≡ closing_events result
unfolding closing_bytes closing_events
decode-closing_bytes (err e) h = decode-last_frame (codes "error") e (ground arith) h
decode-closing_bytes (ok true) h =
    decode-event_frame (codes "files_written") (codes "true")
      (event_frame (codes "done") (codes "[DONE]")) (ground arith) (ground arith)
    ∙ ap (λ es. record { name = codes "files_written"; text = codes "true" } ∷ es) decode_done
decode-closing_bytes (ok false) h = decode_done

decode-stream_of :
    (answer : Answer)
    → All (All (λ c. c ≢ carriage_return)) (texts_of answer)
    → IsReadable (result_of answer)
    → decode (stream_of answer)
      ≡ map (λ p. message (trim_right_byte newline p)) (texts_of answer)
        ++ closing_events (result_of answer)
unfolding stream_of texts_of result_of
decode-stream_of (finish tree result) h r = decode-closing_bytes result r
decode-stream_of (write p next) (hp, h) r =
    decode-sse_frame p (stream_of (next (ok (length p)))) hp
    ∙ ap (λ es. message (trim_right_byte newline p) ∷ es)
        (decode-stream_of (next (ok (length p))) h r)

-- A chat request with a message, and a workspace directory that is empty or absolute, on a writer that can
-- be flushed and with a client that takes every frame, is answered by a stream that a reader decodes to
-- the texts that the querier writes, in order and each without the newlines at its end, then
-- `files_written` if files were written, and `done`, or one `error` event with the error; provided that
-- no text holds a carriage return and the error is a single line.
pub handle_chat-decode :
    (port : ℕ) (query : Tree → Bytes → Bytes → Answer) (origin : Bytes) (expired : Bool)
    (tree : Tree) (req : ChatRequest)
    → req.message ≢ []
    → (req.workspace_dir ≡ []) ⊎ (is_abs (clean req.workspace_dir) ≡ true)
    → let answer = query tree req.message req.workspace_dir in
      All (All (λ c. c ≢ carriage_return)) (texts_of answer)
      → IsReadable (result_of answer)
      → (body : Bytes) × (outcome : Outcome) × ((handle_chat port query
            (patient_connection origin expired)
            tree
            (some req)).1
          ≡ streamed (allowed_origin port origin) body outcome)
        × (decode body
            ≡ map (λ p. message (trim_right_byte newline p)) (texts_of answer)
              ++ closing_events (result_of answer))
unfolding handle_chat stream_answer tfai_go.Base.bytes_eq
handle_chat-decode port query origin expired tree req m d h r =
    let answer = query tree req.message req.workspace_dir in
    let run = run_answer patient expired [] answer in
    (
      run.1.0,
      run.1.1,
      rw (bytes_eq_nil req.message m) (elim d [
        | inl e ↦ rw e refl
        | inr e ↦ elim (Bool-cases (bytes_eq req.workspace_dir [])) [
          | inl b ↦ rw b refl
          | inr b ↦ rw (b, e) refl
        ]
      ]),
      ap decode (run_answer-stream_of expired [] answer) ∙ decode-stream_of answer h r,
    )
