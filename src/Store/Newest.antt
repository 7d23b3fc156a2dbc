-- ===== src/Store/Newest.antt =====
-- Recent gives the newest messages of a workspace, in the order in which they were appended.
use mathlib.Core.List.{reverse, reverse-reverse}
use tfai_go.Base.{
  ◌≡◌, ◌∙◌, refl, ap, inl, inr, arith, ℕ, ◌≤◌, ◌<◌, Option, none, some, List, [], ◌∷◌, ◌++◌,
  append_assoc, append-nil, map, take, Bytes, bytes_eq, ok, ℤ, pos, negsuc, All, All-append,
  Bool-cases, Option-cases, if◌then◌else◌, ◌&&◌,
}
use tfai_go.Store.{
  Message, Row, Table, new_table, is_role, insert_row, append, of_workspace, order_by, ascending,
  descending, limit, message_of, recent,
}
use tfai_go.Store.Last.{newest, map-newest}
use tfai_go.Store.Order.{
  Pairs, NotBefore, Pairs-snoc, Pairs-take, Pairs-of_workspace, Pairs-reverse, order_by-reverse,
}

-- The rows in the order in which they were inserted, with ids below the next one and no row from the
-- future.
record IsHistory (t : Table) (now : ℕ) : Type 0 where
  ordered : Pairs (NotBefore descending) t.rows
  past : All (λ r. (r.id < t.next_id) × (r.created_at ≤ now)) t.rows

All-map : {P Q : Row → Type 0} (xs : List Row) → ((r : Row) → P r → Q r) → All P xs → All Q xs
All-map [] f h = tt
All-map (x ∷ xs) f (p, h) = (f x p, All-map xs f h)

not_before :
    (r new : Row) → r.id < new.id → r.created_at ≤ new.created_at → NotBefore descending r new
unfolding descending ascending
not_before r new i c = ground arith

insert_row-IsHistory :
    (t : Table) (last now : ℕ) (workspace role content : Bytes)
    → last ≤ now
    → IsHistory t last
    → IsHistory (insert_row t now workspace role content) now
unfolding insert_row
insert_row-IsHistory t last now workspace role content le h =
    let new : Row = record {
      id = t.next_id;
      workspace = workspace;
      role = role;
      content = content;
      created_at = now;
    } in
    record {
      ordered =
          Pairs-snoc (NotBefore descending) t.rows new h.ordered
            (All-map t.rows (λ r p. not_before r new p.0 (omega (arith, p.1, le))) h.past);
      past =
          All-append _ t.rows (new ∷ [])
            (All-map t.rows (λ r p. (omega (arith, p.0), omega (arith, p.1, le))) h.past)
            ((omega arith, omega arith), tt);
    }

recent-newest :
    (n : ℤ) (rows : List Row)
    → Pairs (NotBefore descending) rows
    → order_by ascending (limit n (order_by descending rows)) ≡ newest n rows
unfolding limit newest descending
recent-newest (pos n) rows p = rw (order_by-reverse descending rows p) (
    order_by-reverse ascending (take n (reverse rows)) (
      Pairs-take (NotBefore ascending) n (reverse rows)
        (Pairs-reverse (NotBefore descending) rows p)))
recent-newest (negsuc n) rows p = rw (order_by-reverse descending rows p) (
    order_by-reverse ascending (reverse rows) (Pairs-reverse (NotBefore descending) rows p)
    ∙ reverse-reverse rows)

-- A call of Append: its time, the error of the database if there is one, and its arguments.
pub record Call : Type 0 where
  pub now : ℕ
  pub failed : Option Bytes
  pub workspace : Bytes
  pub role : Bytes
  pub content : Bytes

-- The clock does not go back.
abbrev pub IsTimed : ℕ → List Call → Type 0
IsTimed last [] = Unit
IsTimed last (c ∷ calls) = (last ≤ c.now) × IsTimed c.now calls

unfoldable pub run : Table → List Call → Table
run t [] = t
run t (c ∷ calls) = run (append t c.failed c.now c.workspace c.role c.content).0 calls

-- The specification: the messages that were accepted for the workspace, one behind the other.
unfoldable pub kept : Bytes → Call → List Message
kept workspace c = elim c.failed [
  | some e ↦ []
  | none ↦
      if is_role c.role && bytes_eq c.workspace workspace
      then record { role = c.role; content = c.content; created_at = c.now } ∷ []
      else []
]

unfoldable pub history : Bytes → List Call → List Message
unfolding kept
history workspace [] = []
history workspace (c ∷ calls) = kept workspace c ++ history workspace calls

messages : Bytes → Table → List Message
messages workspace t = map message_of (of_workspace workspace t.rows)

of_workspace-snoc :
    (w : Bytes) (rows : List Row) (r : Row)
    → map message_of (of_workspace w (rows ++ r ∷ []))
      ≡ map message_of (of_workspace w rows)
        ++ (if bytes_eq r.workspace w then message_of r ∷ [] else [])
unfolding of_workspace
of_workspace-snoc w [] r = elim (Bool-cases (bytes_eq r.workspace w)) [
  | inl e ↦ rw e refl
  | inr e ↦ rw e refl
]
of_workspace-snoc w (x ∷ rows) r = elim (Bool-cases (bytes_eq x.workspace w)) [
  | inl e ↦ rw e (ap (λ ms. message_of x ∷ ms) (of_workspace-snoc w rows r))
  | inr e ↦ rw e (of_workspace-snoc w rows r)
]

-- One call adds its message, if it is kept, and leaves a history.
append_lem :
    (t : Table) (last : ℕ) (w : Bytes) (c : Call)
    → last ≤ c.now
    → IsHistory t last
    → IsHistory (append t c.failed c.now c.workspace c.role c.content).0 c.now
      × (messages w (append t c.failed c.now c.workspace c.role c.content).0
          ≡ messages w t ++ kept w c)
unfolding append kept messages message_of
append_lem t last w c le h = elim (Option-cases c.failed) [
  | inl e ↦ elim (Bool-cases (is_role c.role)) [
    | inl r ↦
        rw (e, r)
          (
            insert_row-IsHistory t last c.now c.workspace c.role c.content le h,
            of_workspace-snoc w t.rows (record {
              id = t.next_id;
              workspace = c.workspace;
              role = c.role;
              content = c.content;
              created_at = c.now;
            }),
          )
    | inr r ↦ rw (e, r) (later, rw append-nil refl)
  ]
  | inr (m, e) ↦ rw e (later, rw append-nil refl)
]
  where
    later : IsHistory t c.now
    later = record {
      ordered = h.ordered;
      past = All-map t.rows (λ r p. (p.0, omega (arith, p.1, le))) h.past;
    }

run_lem :
    (t : Table) (last : ℕ) (w : Bytes) (calls : List Call)
    → IsTimed last calls
    → IsHistory t last
    → ((now : ℕ) × IsHistory (run t calls) now)
      × (messages w (run t calls) ≡ messages w t ++ history w calls)
unfolding run history
run_lem t last w [] timed h = ((last, h), rw append-nil refl)
run_lem t last w (c ∷ calls) (le, timed) h =
    let t' = (append t c.failed c.now c.workspace c.role c.content).0 in
    let (h', one) = append_lem t last w c le h in
    let (later, all) = run_lem t' c.now w calls timed h' in
    (
      later,
      all
          ∙ ap (λ ms. ms ++ history w calls) one
          ∙ append_assoc (messages w t) (kept w c) (history w calls),
    )

-- The table refines a list for each workspace: after any calls of Append on a new database, some of which
-- the database or the CHECK on the role refuses, on a clock that does not go back, Recent gives the newest
-- n messages that were accepted for the workspace (all of them where n is negative), oldest first, whatever
-- was appended for other workspaces and also within one second.
pub recent-history :
    (calls : List Call) (workspace : Bytes) (n : ℤ)
    → IsTimed 0 calls
    → recent (run new_table calls) none workspace n ≡ ok (newest n (history workspace calls))
unfolding recent new_table messages of_workspace
recent-history calls workspace n timed =
    let ((now, h), all) =
      run_lem new_table 0 workspace calls timed (record { ordered = tt; past = tt }) in
    let rows = (run new_table calls).rows in
    ap (λ rs. ok (map message_of rs))
      (recent-newest n (of_workspace workspace rows)
        (Pairs-of_workspace (NotBefore descending) workspace rows h.ordered))
    ∙ ap ok (map-newest message_of n (of_workspace workspace rows) ∙ ap (newest n) all)
