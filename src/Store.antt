-- ===== src/Store.antt =====
-- internal/store/store.go: the conversation history in its table, by the meaning of the two SQL statements.
-- A call may fail in the database, with a message. Times are in seconds.
pub mod Order
pub mod Last
pub mod Newest
mod Tests
use mathlib.Core.List.{reverse}
use tfai_go.Base.{
  ℕ, ◌+◌, Bool, true, false, Option, none, some, List, [], ◌∷◌, ◌++◌, map, take, Bytes, codes,
  bytes_eq, ltb, ◌==◌, Result, ok, err, ℤ, pos, negsuc, ◌&&◌, ◌||◌, if◌then◌else◌,
}
use tfai_go.Path.{join}
use tfai_go.Disk.{Tree, Os, mkdir_all}

-- Message
pub record Message : Type 0 where
  pub role : Bytes
  pub content : Bytes
  pub created_at : ℕ

-- A row of the table `conversations`.
pub record Row : Type 0 where
  pub id : ℕ
  pub workspace : Bytes
  pub role : Bytes
  pub content : Bytes
  pub created_at : ℕ

-- The table, and the id that AUTOINCREMENT gives next.
pub record Table : Type 0 where
  pub rows : List Row
  pub next_id : ℕ

-- CREATE TABLE IF NOT EXISTS, on a new database
pub new_table : Table
new_table = record { rows = []; next_id = 1 }

-- CHECK(role IN ('user','assistant'))
unfoldable pub is_role : Bytes → Bool
is_role role = bytes_eq role (codes "user") || bytes_eq role (codes "assistant")

unfoldable pub insert_row : Table → ℕ → Bytes → Bytes → Bytes → Table
insert_row t now workspace role content = record {
  rows =
      t.rows
      ++ record {
        id = t.next_id;
        workspace = workspace;
        role = role;
        content = content;
        created_at = now;
      }
        ∷ [];
  next_id = t.next_id + 1;
}

-- Append, at a time, with the error of the database if there is one
unfoldable pub append : Table → Option Bytes → ℕ → Bytes → Bytes → Bytes → Table × Option Bytes
unfolding insert_row is_role
append t (some e) now workspace role content = (t, some (codes "store: append: " ++ e))
append t none now workspace role content =
    if is_role role
    then (insert_row t now workspace role content, none)
    else (t, some (codes "store: append: CHECK constraint failed"))

-- WHERE workspace = ?
pub of_workspace : Bytes → List Row → List Row
of_workspace workspace [] = []
of_workspace workspace (r ∷ rows) =
    let rest = of_workspace workspace rows in
    if bytes_eq r.workspace workspace then r ∷ rest else rest

-- ORDER BY, with the rows that come first by a Boolean order
pub insert_by : (Row → Row → Bool) → Row → List Row → List Row
insert_by before x [] = x ∷ []
insert_by before x (y ∷ ys) =
    let rest = insert_by before x ys in if before x y then x ∷ y ∷ ys else y ∷ rest

pub order_by : (Row → Row → Bool) → List Row → List Row
unfolding insert_by
order_by before [] = []
order_by before (x ∷ xs) = insert_by before x (order_by before xs)

-- created_at ASC, id ASC
pub ascending : Row → Row → Bool
ascending a b = ltb a.created_at b.created_at || (a.created_at == b.created_at && ltb a.id b.id)

-- created_at DESC, id DESC
pub descending : Row → Row → Bool
unfolding ascending
descending a b = ascending b a

-- LIMIT, which is no limit where it is negative
pub limit : ℤ → List Row → List Row
limit (pos n) rows = take n rows
limit (negsuc n) rows = rows

pub message_of : Row → Message
message_of r = record { role = r.role; content = r.content; created_at = r.created_at }

-- Recent
unfoldable pub recent : Table → Option Bytes → Bytes → ℤ → Result (List Message)
unfolding order_by descending ascending limit of_workspace message_of
recent t (some e) workspace n = err (codes "store: recent: " ++ e)
recent t none workspace n = ok (
    map message_of
      (order_by ascending (limit n (order_by descending (of_workspace workspace t.rows)))))

pub default_path : Bytes → Tree × Result (Unit {0}) → Tree × Result Bytes
default_path dir (tree, ok _) = (tree, ok (join dir (codes "history.db")))
default_path dir (tree, err e) =
    (tree, err (codes "store: could not create " ++ dir ++ codes ": " ++ e))

-- DefaultDBPath, of what os.UserHomeDir gives
pub default_db_path : Os → Tree → Result Bytes → Tree × Result Bytes
unfolding default_path
default_db_path os tree (err e) =
    (tree, err (codes "store: could not determine home directory: " ++ e))
default_db_path os tree (ok home) =
    let dir = join home (codes ".tfai") in default_path dir (mkdir_all os tree dir)
