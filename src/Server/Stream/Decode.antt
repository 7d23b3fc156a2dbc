-- ===== src/Server/Stream/Decode.antt =====
-- What a reader of an event stream makes of the frames, by the rules of the WHATWG standard: lines end at
-- CR, LF or both, a field is what stands before the first colon, an empty line dispatches the event if it
-- has data, and other fields than `event` and `data` do not matter to the events.
use tfai_go.Base.{
  sym, join_with-split, trim_right_byte-All, split-All, split, split-cons, trim_right_byte,
  All-append, ℕ, Bool, false, ◌≡◌, ◌≢◌, ◌∙◌, refl, ap, arith, List, [], ◌∷◌, ◌++◌, append_assoc,
  append-nil, Bytes, codes, bytes_eq, join_with, All, ◌==◌, ◌&&◌, ◌||◌, if◌then◌else◌,
}
use tfai_go.Server.Stream.{event_frame, sse_frame, newline, data_lines}

abbrev pub carriage_return : ℕ
carriage_return = 13

-- An event; the name of an event without one is empty.
pub record SseEvent : Type 0 where
  pub name : Bytes
  pub text : Bytes

-- The fields since the last empty line.
record Fields : Type 0 where
  event : Bytes
  lines : List Bytes

abbrev no_fields : Fields
no_fields = record { event = []; lines = [] }

-- A byte before the line that ends first; bytes that no line end follows are dropped.
onto_first : ℕ → List Bytes → List Bytes
onto_first c [] = []
onto_first c (line ∷ lines) = (c ∷ line) ∷ lines

-- The lines, behind a CR or not.
lines_of : Bool → Bytes → List Bytes
unfolding onto_first
lines_of after_cr [] = []
lines_of after_cr (c ∷ s) =
    let rest = lines_of (c == carriage_return) s in
    if after_cr && c == newline
    then rest
    else if c == newline || c == carriage_return
    then [] ∷ rest
    else onto_first c rest

-- One space behind the colon does not belong to the value.
value_of : Bytes → Bytes
value_of [] = []
value_of (c ∷ s) = if c == b' ' then s else c ∷ s

field_of : Bytes → Bytes × Bytes
unfolding value_of
field_of [] = ([], [])
field_of (c ∷ s) =
    let (name, value) = field_of s in if c == b':' then ([], value_of s) else (c ∷ name, value)

put_field : Fields → Bytes × Bytes → Fields
put_field b (name, value) =
    if bytes_eq name (codes "event")
    then record b { event = value }
    else if bytes_eq name (codes "data")
    then record b { lines = b.lines ++ value ∷ [] }
    else b

dispatch : Fields → List SseEvent → List SseEvent
dispatch b rest = elim b.lines [
  | [] ↦ rest
  | ◌∷◌ line lines ↦ record { name = b.event; text = join_with newline (line ∷ lines) } ∷ rest
]

decode_lines : Fields → List Bytes → List SseEvent
unfolding dispatch field_of put_field
decode_lines b [] = []
decode_lines b (line ∷ lines) =
    let rest =
      decode_lines (if bytes_eq line [] then no_fields else put_field b (field_of line)) lines in
    if bytes_eq line [] then dispatch b rest else rest

-- The events of a stream.
unfoldable pub decode : Bytes → List SseEvent
unfolding decode_lines lines_of
decode s = decode_lines no_fields (lines_of false s)

abbrev pub message : Bytes → SseEvent
message text = record { name = []; text = text }

-- No line ends in the text.
abbrev pub IsOneLine : Bytes → Type 0
IsOneLine = All (λ c. (c ≢ carriage_return) × (c ≢ newline))

lines_of-line :
    (line s : Bytes)
    → IsOneLine line
    → lines_of false (line ++ newline ∷ s) ≡ line ∷ lines_of false s
unfolding lines_of onto_first
lines_of-line [] s h = refl
lines_of-line (c ∷ line) s ((cr, lf), h) = ground (arith, lines_of-line line s h)

module _ (prefix : Bytes) (one : IsOneLine prefix) where
  lines_of-prefix :
      (line s : Bytes)
      → IsOneLine line
      → lines_of false ((prefix ++ line) ++ newline ∷ s) ≡ (prefix ++ line) ∷ lines_of false s
  lines_of-prefix line s h =
      lines_of-line (prefix ++ line) s
        (All-append (λ c. (c ≢ carriage_return) × (c ≢ newline)) prefix line one h)

decode_data_line :
    (b : Fields) (line : Bytes) (lines : List Bytes)
    → decode_lines b ((codes "data: " ++ line) ∷ lines)
      ≡ decode_lines (record b { lines = b.lines ++ line ∷ [] }) lines
unfolding decode_lines field_of put_field value_of bytes_eq
decode_data_line b line lines = refl

decode_end :
    (b : Fields) (s : Bytes) → decode_lines b (lines_of false (newline ∷ s)) ≡ dispatch b (decode s)
unfolding decode_lines lines_of decode bytes_eq
decode_end b s = refl

-- The lines of a frame, put one by one behind those that were read.
decode-data_lines :
    (b : Fields) (lines : List Bytes) (s : Bytes)
    → All IsOneLine lines
    → decode_lines b (lines_of false (data_lines lines ++ s))
      ≡ dispatch (record b { lines = b.lines ++ lines }) (decode s)
unfolding data_lines
decode-data_lines b [] s h = rw append-nil (decode_end b s)
decode-data_lines b (line ∷ lines) s (l, h) =
    rw (append_assoc line (newline ∷ data_lines lines) s) (
      ap (decode_lines b)
        (lines_of-prefix (codes "data: ") data_prefix line (data_lines lines ++ s) l)
      ∙ decode_data_line b line (lines_of false (data_lines lines ++ s))
      ∙ decode-data_lines (record b { lines = b.lines ++ line ∷ [] }) lines s h
      ∙ rw (append_assoc b.lines (line ∷ []) lines) refl)
  where
    data_prefix : IsOneLine (codes "data: ")
    data_prefix = ground arith

dispatch_lines :
    (event : Bytes) (lines : List Bytes) (q : Bytes) (qs : List Bytes) (rest : List SseEvent)
    → lines ≡ q ∷ qs
    → dispatch (record { event = event; lines = lines }) rest
      ≡ record { name = event; text = join_with newline lines } ∷ rest
unfolding dispatch
dispatch_lines event [] q qs rest h = cc
dispatch_lines event (line ∷ lines) q qs rest h = refl

-- The frame of a text is read as one event: the text without the newlines at its end.
pub decode-sse_frame :
    (p s : Bytes)
    → All (λ c. c ≢ carriage_return) p
    → decode (sse_frame p ++ s) ≡ message (trim_right_byte newline p) ∷ decode s
unfolding decode sse_frame
decode-sse_frame p s h =
    let body = trim_right_byte newline p in
    let (q, qs, cons) = split-cons newline body in
    decode-data_lines no_fields (split body newline) s (
      split-All (λ c. c ≢ carriage_return) newline body
        (trim_right_byte-All (λ c. c ≢ carriage_return) newline p h))
    ∙ dispatch_lines [] (split body newline) q qs (decode s) cons
    ∙ ap (λ text. message text ∷ decode s) (join_with-split newline body)

decode_event_line :
    (b : Fields) (name : Bytes) (lines : List Bytes)
    → decode_lines b ((codes "event: " ++ name) ∷ lines)
      ≡ decode_lines (record b { event = name }) lines
unfolding decode_lines field_of put_field value_of bytes_eq
decode_event_line b name lines = refl

event_frame_shape :
    (name text s : Bytes)
    → event_frame name text ++ s
      ≡ (codes "event: " ++ name) ++ newline ∷ (data_lines (text ∷ []) ++ s)
unfolding event_frame
event_frame_shape name text s =
    ap (λ r. codes "event: " ++ r) (append_assoc name (newline ∷ data_lines (text ∷ [])) s)

pub decode-event_frame :
    (name text s : Bytes)
    → IsOneLine name
    → IsOneLine text
    → decode (event_frame name text ++ s) ≡ record { name = name; text = text } ∷ decode s
unfolding decode dispatch join_with
decode-event_frame name text s n t =
    ap decode (event_frame_shape name text s)
    ∙ ap (decode_lines no_fields)
        (lines_of-prefix (codes "event: ") event_prefix name (data_lines (text ∷ []) ++ s) n)
    ∙ decode_event_line no_fields name (lines_of false (data_lines (text ∷ []) ++ s))
    ∙ decode-data_lines (record no_fields { event = name }) (text ∷ []) s (t, tt)
  where
    event_prefix : IsOneLine (codes "event: ")
    event_prefix = ground arith

pub decode-last_frame :
    (name text : Bytes)
    → IsOneLine name
    → IsOneLine text
    → decode (event_frame name text) ≡ record { name = name; text = text } ∷ []
unfolding decode
decode-last_frame name text n t =
    ap decode (sym (append-nil (event_frame name text))) ∙ decode-event_frame name text [] n t
