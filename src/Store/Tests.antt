-- ===== src/Store/Tests.antt =====
-- A run of the store at a concrete input.
use tfai_go.Base.{◌≡◌, List, [], ◌∷◌, Bytes, codes, none, some, ok, pos, arith}
use tfai_go.Store.{new_table, recent}
use tfai_go.Store.Last.{newest}
use tfai_go.Store.Newest.{Call, run, history, recent-history}

abbrev call : Bytes → Bytes → Call
call workspace content = record {
  now = 7;
  failed = none;
  workspace = workspace;
  role = codes "user";
  content = content;
}

abbrev calls : List Call
calls =
    call (codes "/a") (codes "one")
    ∷ call (codes "/b") (codes "two")
    ∷ call (codes "/a") (codes "three")
    ∷ record (call (codes "/a") (codes "lost")) { failed = some (codes "locked") }
    ∷ []

recent-history_example :
    recent (run new_table calls) none (codes "/a") (pos 1)
    ≡ ok (newest (pos 1) (history (codes "/a") calls))
recent-history_example = recent-history calls (codes "/a") (pos 1) (omega arith)
