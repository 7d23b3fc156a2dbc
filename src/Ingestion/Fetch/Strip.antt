-- ===== src/Ingestion/Fetch/Strip.antt =====
-- stripHTML of internal/ingestion/pipeline.go: the text it gives has nothing left to strip.
use tfai_go.Base.{
  ◌++◌, ◌≢◌, ℕ, trim_space_idem, trim_space, trim_right, ◌≡◌, refl, true, false, [], ◌∷◌, Bytes,
  arith,
}
use tfai_go.Ingestion.Fetch.{strip_html, collapse_blanks, has_close, opens_tag, replace_tags}
use tfai_go.Ingestion.Fetch.Bare.{
  IsUntagged, IsCollapsed, replace_tags-IsUntagged, replace_tags_fixed, collapse_blanks-IsUntagged,
  collapse_blanks-IsCollapsed, collapse_blanks_fixed, trim_right-Both, trim_left-Both,
}

strip_html-Both : (raw : Bytes) → IsUntagged (strip_html raw) × IsCollapsed (strip_html raw)
unfolding strip_html trim_space
strip_html-Both raw =
    let tagless = replace_tags false raw in
    let (u, c) =
      trim_right-Both (collapse_blanks false tagless)
        (collapse_blanks-IsUntagged false tagless (replace_tags-IsUntagged false raw))
        (collapse_blanks-IsCollapsed false tagless) in
    trim_left-Both (trim_right (collapse_blanks false tagless)) u c

-- A `<`, another byte than `>`, and a `>` after it.
abbrev pub HasTag : Bytes → Type 0
HasTag s =
    (u : Bytes) × (c : ℕ) × (m : Bytes) × (v : Bytes) × (c ≢ b'>')
    × (s ≡ u ++ b'<' ∷ c ∷ m ++ b'>' ∷ v)

abbrev pub IsStripped : Bytes → Type 0
IsStripped text = (¬ HasTag text) × (strip_html text ≡ text)

has_close-append : (m v : Bytes) → has_close (m ++ b'>' ∷ v) ≡ true
unfolding has_close
has_close-append [] v = refl
has_close-append (c ∷ m) v = ground (arith, has_close-append m v)

IsUntagged-append :
    (u : Bytes) (c : ℕ) (m v : Bytes) → c ≢ b'>' → ¬ IsUntagged (u ++ b'<' ∷ c ∷ m ++ b'>' ∷ v)
unfolding opens_tag
IsUntagged-append [] c m v n (h, hs) = ground (arith, has_close-append m v)
IsUntagged-append (d ∷ u) c m v n (h, hs) = IsUntagged-append u c m v n hs

IsUntagged-HasTag : (s : Bytes) → IsUntagged s → ¬ HasTag s
IsUntagged-HasTag s h (u, c, m, v, n, e) = IsUntagged-append u c m v n (rw e at h)

strip_html_idem : (raw : Bytes) → strip_html (strip_html raw) ≡ strip_html raw
unfolding strip_html
strip_html_idem raw =
    let (u, c) = strip_html-Both raw in
    rw (replace_tags_fixed (strip_html raw) u) (
      rw (collapse_blanks_fixed (strip_html raw) c)
        (trim_space_idem (collapse_blanks false (replace_tags false raw))))

-- The text that stripHTML gives for any page has no tag, that is no `<` with another byte than `>` directly after it
-- and a `>` after that one, and stripHTML, applied to the text again, does not change it.
pub strip_html-IsStripped : (raw : Bytes) → IsStripped (strip_html raw)
strip_html-IsStripped raw =
    (IsUntagged-HasTag (strip_html raw) ((strip_html-Both raw).0), strip_html_idem raw)
