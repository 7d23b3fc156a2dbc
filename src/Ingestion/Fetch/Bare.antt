-- ===== src/Ingestion/Fetch/Bare.antt =====
-- stripHTML of internal/ingestion/pipeline.go, step by step: texts in which no `<` opens a tag and no two blanks
-- stand side by side, and what each step makes of them.
use tfai_go.Base.{
  not, ℕ, trim_left, trim_right, keep_right, ◌≡◌, refl, ap, inl, inr, Bool, true, false, [], ◌∷◌,
  Bytes, ◌&&◌, ◌||◌, ◌==◌, Bool-cases, arith,
}
use tfai_go.Ingestion.Fetch.{
  collapse_blanks, has_close, opens_tag, replace_tags, is_blank, starts_blank,
}

-- No `<` opens a tag.
abbrev pub IsUntagged : Bytes → Type 0
IsUntagged [] = Unit
IsUntagged (c ∷ s) = ((c == b'<') && opens_tag s ≡ false) × IsUntagged s

-- No two blanks stand side by side.
abbrev pub IsCollapsed : Bytes → Type 0
IsCollapsed [] = Unit
IsCollapsed (c ∷ s) = (is_blank c && starts_blank s ≡ false) × IsCollapsed s

-- A text without a `>` opens no tag.
opens_tag-has_close : (s : Bytes) → has_close s ≡ false → opens_tag s ≡ false
unfolding has_close opens_tag
opens_tag-has_close [] h = refl
opens_tag-has_close (c ∷ s) h = ground arith

has_close-replace_tags :
    (inside : Bool) (s : Bytes) → has_close s ≡ false → has_close (replace_tags inside s) ≡ false
unfolding has_close replace_tags
has_close-replace_tags inside [] h = refl
has_close-replace_tags true (c ∷ s) h =
    ground (arith, has_close-replace_tags true s, has_close-replace_tags false s)
has_close-replace_tags false (c ∷ s) h =
    ground (arith, has_close-replace_tags true s, has_close-replace_tags false s)

opens_tag-replace_tags :
    (s : Bytes) → opens_tag s ≡ false → opens_tag (replace_tags false s) ≡ false
unfolding has_close replace_tags opens_tag
opens_tag-replace_tags [] h = refl
opens_tag-replace_tags (c ∷ s) h =
    ground (arith, has_close-replace_tags true s, has_close-replace_tags false s)

pub replace_tags-IsUntagged : (inside : Bool) (s : Bytes) → IsUntagged (replace_tags inside s)
unfolding replace_tags
replace_tags-IsUntagged inside [] = tt
replace_tags-IsUntagged true (c ∷ s) = elim (Bool-cases (c == b'>')) [
  | inl e ↦ rw e (replace_tags-IsUntagged false s)
  | inr e ↦ rw e (replace_tags-IsUntagged true s)
]
replace_tags-IsUntagged false (c ∷ s) = elim (Bool-cases ((c == b'<') && opens_tag s)) [
  | inl e ↦ rw e (refl, replace_tags-IsUntagged true s)
  | inr e ↦ rw e (ground (arith, opens_tag-replace_tags s), replace_tags-IsUntagged false s)
]

pub replace_tags_fixed : (s : Bytes) → IsUntagged s → replace_tags false s ≡ s
unfolding replace_tags
replace_tags_fixed [] h = refl
replace_tags_fixed (c ∷ s) (h, hs) = rw h (ap (λ r. c ∷ r) (replace_tags_fixed s hs))

has_close-collapse_blanks :
    (inside : Bool) (s : Bytes) → has_close s ≡ false → has_close (collapse_blanks inside s) ≡ false
unfolding has_close collapse_blanks
has_close-collapse_blanks inside [] h = refl
has_close-collapse_blanks true (c ∷ s) h =
    ground (arith, has_close-collapse_blanks true s, has_close-collapse_blanks false s)
has_close-collapse_blanks false (c ∷ s) h =
    ground (arith, has_close-collapse_blanks true s, has_close-collapse_blanks false s)

opens_tag-collapse_blanks :
    (s : Bytes) → opens_tag s ≡ false → opens_tag (collapse_blanks false s) ≡ false
unfolding has_close collapse_blanks opens_tag is_blank
opens_tag-collapse_blanks [] h = refl
opens_tag-collapse_blanks (c ∷ s) h =
    ground (arith, has_close-collapse_blanks true s, has_close-collapse_blanks false s)

pub collapse_blanks-IsUntagged :
    (inside : Bool) (s : Bytes) → IsUntagged s → IsUntagged (collapse_blanks inside s)
unfolding collapse_blanks
collapse_blanks-IsUntagged inside [] h = tt
collapse_blanks-IsUntagged true (c ∷ s) (h, hs) = elim (Bool-cases (is_blank c)) [
  | inl e ↦ rw e (collapse_blanks-IsUntagged true s hs)
  | inr e ↦
      rw e (ground (arith, opens_tag-collapse_blanks s), collapse_blanks-IsUntagged false s hs)
]
collapse_blanks-IsUntagged false (c ∷ s) (h, hs) =
    elim (Bool-cases (is_blank c && starts_blank s)) [
      | inl e ↦ rw e (refl, collapse_blanks-IsUntagged true s hs)
      | inr e ↦
          rw e (ground (arith, opens_tag-collapse_blanks s), collapse_blanks-IsUntagged false s hs)
    ]

starts_blank-collapsed : (s : Bytes) → starts_blank (collapse_blanks true s) ≡ false
unfolding collapse_blanks starts_blank
starts_blank-collapsed [] = refl
starts_blank-collapsed (c ∷ s) = ground (arith, starts_blank-collapsed s)

starts_blank-collapse_blanks :
    (s : Bytes) → starts_blank s ≡ false → starts_blank (collapse_blanks false s) ≡ false
unfolding collapse_blanks starts_blank
starts_blank-collapse_blanks [] h = refl
starts_blank-collapse_blanks (c ∷ s) h = ground arith

pub collapse_blanks-IsCollapsed :
    (inside : Bool) (s : Bytes) → IsCollapsed (collapse_blanks inside s)
unfolding collapse_blanks is_blank
collapse_blanks-IsCollapsed inside [] = tt
collapse_blanks-IsCollapsed true (c ∷ s) = elim (Bool-cases (is_blank c)) [
  | inl e ↦ rw e (collapse_blanks-IsCollapsed true s)
  | inr e ↦ rw e (ground arith, collapse_blanks-IsCollapsed false s)
]
collapse_blanks-IsCollapsed false (c ∷ s) = elim (Bool-cases (is_blank c && starts_blank s)) [
  | inl e ↦ rw e (starts_blank-collapsed s, collapse_blanks-IsCollapsed true s)
  | inr e ↦
      rw e (ground (arith, starts_blank-collapse_blanks s), collapse_blanks-IsCollapsed false s)
]

pub collapse_blanks_fixed : (s : Bytes) → IsCollapsed s → collapse_blanks false s ≡ s
unfolding collapse_blanks
collapse_blanks_fixed [] h = refl
collapse_blanks_fixed (c ∷ s) (h, hs) = rw h (ap (λ r. c ∷ r) (collapse_blanks_fixed s hs))

-- What both predicates say of a byte and the text after it, kept by strings.TrimSpace.
has_close-keep_right :
    (c : ℕ) (s : Bytes) → (c == b'>') || has_close s ≡ false → has_close (keep_right c s) ≡ false
unfolding has_close keep_right
has_close-keep_right c [] h = ground arith
has_close-keep_right c (d ∷ s) h = h

has_close-trim_right : (s : Bytes) → has_close s ≡ false → has_close (trim_right s) ≡ false
unfolding has_close trim_right
has_close-trim_right [] h = refl
has_close-trim_right (c ∷ s) h =
    has_close-keep_right c (trim_right s) (ground (arith, has_close-trim_right s))

opens_tag-trim_right : (s : Bytes) → opens_tag s ≡ false → opens_tag (trim_right s) ≡ false
unfolding has_close trim_right opens_tag keep_right
opens_tag-trim_right [] h = refl
opens_tag-trim_right (c ∷ s) h =
    opens_tag-keep_right (trim_right s) (ground (arith, has_close-trim_right s))
  where
    opens_tag-keep_right :
        (r : Bytes) → not (c == b'>') && has_close r ≡ false → opens_tag (keep_right c r) ≡ false
    opens_tag-keep_right [] g = ground arith
    opens_tag-keep_right (d ∷ r) g = g

starts_blank-trim_right : (s : Bytes) → starts_blank s ≡ false → starts_blank (trim_right s) ≡ false
unfolding trim_right starts_blank keep_right
starts_blank-trim_right [] h = refl
starts_blank-trim_right (c ∷ s) h = starts_blank-keep_right (trim_right s)
  where
    starts_blank-keep_right : (r : Bytes) → starts_blank (keep_right c r) ≡ false
    starts_blank-keep_right [] = ground arith
    starts_blank-keep_right (d ∷ r) = h

pub trim_right-Both :
    (s : Bytes)
    → IsUntagged s
    → IsCollapsed s
    → IsUntagged (trim_right s) × IsCollapsed (trim_right s)
unfolding trim_right keep_right
trim_right-Both [] h g = (tt, tt)
trim_right-Both (c ∷ s) (h, hs) (g, gs) =
    let (us, cs) = trim_right-Both s hs gs in
    keep (trim_right s) (ground (arith, opens_tag-trim_right s)) us
      (ground (arith, starts_blank-trim_right s)) cs
  where
    keep :
        (r : Bytes)
        → ((c == b'<') && opens_tag r ≡ false)
        → IsUntagged r
        → (is_blank c && starts_blank r ≡ false)
        → IsCollapsed r
        → IsUntagged (keep_right c r) × IsCollapsed (keep_right c r)
    keep [] a u b v = ground arith
    keep (d ∷ r) a u b v = ((a, u), (b, v))

pub trim_left-Both :
    (s : Bytes)
    → IsUntagged s
    → IsCollapsed s
    → IsUntagged (trim_left s) × IsCollapsed (trim_left s)
unfolding trim_left
trim_left-Both [] h g = (tt, tt)
trim_left-Both (c ∷ s) (h, hs) (g, gs) = ground (arith, trim_left-Both s)
