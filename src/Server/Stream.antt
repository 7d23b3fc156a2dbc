-- ===== src/Server/Stream.antt =====
-- sseWriter of internal/server/server.go: the frames of the chat's event stream. A client that breaks off
-- takes some first bytes of a frame, and the write ends with an error.
pub mod Decode
use tfai_go.Base.{
  ℕ, Option, none, some, List, [], ◌∷◌, ◌++◌, Bytes, codes, split, trim_right_byte, length, take,
  Result, ok, err,
}

abbrev pub newline : ℕ
newline = 10

-- How many bytes of the next frame the client takes, behind those sent, before the write fails with a
-- message.
abbrev pub Client : Type 0
Client = Bytes → Bytes → Option (ℕ × Bytes)

-- `data: ` before each line, and an empty line behind the last one
unfoldable pub data_lines : List Bytes → Bytes
data_lines [] = newline ∷ []
data_lines (line ∷ lines) = codes "data: " ++ line ++ newline ∷ data_lines lines

unfoldable pub sse_frame : Bytes → Bytes
unfolding data_lines
sse_frame p = data_lines (split (trim_right_byte newline p) newline)

-- A frame of an event with a name, as handleChat spells out three of them.
unfoldable pub event_frame : Bytes → Bytes → Bytes
unfolding data_lines
event_frame name text = codes "event: " ++ (name ++ newline ∷ data_lines (text ∷ []))

-- fmt.Fprint to the client
unfoldable pub fprint : Bytes → Bytes → Option (ℕ × Bytes) → Bytes × Option Bytes
fprint sent frame none = (sent ++ frame, none)
fprint sent frame (some (n, message)) = (sent ++ take n frame, some message)

unfoldable pub count_of : ℕ → Bytes × Option Bytes → Bytes × Result ℕ
count_of n (sent, none) = (sent, ok n)
count_of n (sent, some message) = (sent, err message)

-- Write
unfoldable pub sse_write : Client → Bytes → Bytes → Bytes × Result ℕ
unfolding fprint count_of sse_frame
sse_write client sent p =
    let frame = sse_frame p in count_of (length p) (fprint sent frame (client sent frame))
