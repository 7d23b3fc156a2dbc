-- ===== src/Agent/Messages/Limits.antt =====
-- The limits of the workspace context.
use tfai_go.Base.{
  ◌||◌, not, codes, has_suffix, leb, ltb, Bool-cases, ap, ℕ, ◌+◌, ◌≤◌, ◌≡◌, refl, inl, inr, Option,
  none, some, List, [], ◌∷◌, length, All, arith, Bytes,
}
use tfai_go.Agent.Messages.{
  max_workspace_files, max_workspace_total_bytes, max_workspace_file_bytes, ltb, Entry, Included,
  Step, next, stop, include, include_read, step_sized, step, walk_step, included,
}

-- The size that the file system gives for an entry is the length of the content read from it.
abbrev pub SizeIsLength : Entry → Type 0
SizeIsLength e = (n : ℕ) (c : Bytes) → e.size ≡ some n → e.content ≡ some c → length c ≡ n

abbrev pub total_length : List Included → ℕ
total_length [] = 0
total_length (f ∷ files) = length f.content + total_length files

include_read-include :
    (r c : Option Bytes) (f : Included) → include_read r c ≡ include f → c ≡ some f.content
unfolding include_read
include_read-include none none f h = cc
include_read-include none (some c) f h = cc
include_read-include (some r) none f h = cc
include_read-include (some r) (some c) f h = ap content_of h
  where
    content_of : Step → Option Bytes
    content_of next = none
    content_of stop = none
    content_of (include g) = some g.content

step_sized-include :
    (b : ℕ) (e : Entry) (size : Option ℕ) (f : Included)
    → step_sized b e size ≡ include f
    → (n : ℕ) × (size ≡ some n) × (b + n ≤ 1048576) × (e.content ≡ some f.content)
unfolding step_sized
step_sized-include b e none f h = cc
step_sized-include b e (some n) f h = elim (Bool-cases (ltb max_workspace_file_bytes n)) [
  | inl t ↦ cc (rw t at h)
  | inr t ↦ elim (Bool-cases (ltb max_workspace_total_bytes (b + n))) [
    | inl u ↦ cc (rw (t, u) at h)
    | inr u ↦ (n, refl, ground arith, include_read-include e.relative e.content f (rw (t, u) at h))
  ]
]

-- A file is taken up only below both limits.
step-include :
    (n b : ℕ) (e : Entry) (f : Included)
    → SizeIsLength e
    → step n b e ≡ include f
    → (n + 1 ≤ 50) × (b + length f.content ≤ 1048576)
unfolding step
step-include n b e f same h = elim (Bool-cases e.unreadable) [
  | inl t ↦ cc (rw t at h)
  | inr t ↦ elim (Bool-cases (e.is_dir || not (has_suffix e.name (codes ".tf")))) [
    | inl u ↦ cc (rw (t, u) at h)
    | inr u ↦ elim (Bool-cases (leb max_workspace_files n)) [
      | inl v ↦ cc (rw (t, u, v) at h)
      | inr v ↦
          let (k, sized, fits, read) = step_sized-include b e e.size f (rw (t, u, v) at h) in
          (ground arith, omega (arith, fits, same k f.content sized read))
    ]
  ]
]

walk_step-limits :
    (s : Step) (rest : ℕ → ℕ → List Included) (n b : ℕ)
    → n ≤ 50
    → b ≤ 1048576
    → ((f : Included) → s ≡ include f → (n + 1 ≤ 50) × (b + length f.content ≤ 1048576))
    → ((m c : ℕ)
        → m ≤ 50
        → c ≤ 1048576
        → (m + length (rest m c) ≤ 50) × (c + total_length (rest m c) ≤ 1048576))
    → (n + length (walk_step s rest n b) ≤ 50) × (b + total_length (walk_step s rest n b) ≤ 1048576)
unfolding walk_step
walk_step-limits next rest n b hn hb h k = k n b hn hb
walk_step-limits stop rest n b hn hb h k = (ground arith, ground arith)
walk_step-limits (include f) rest n b hn hb h k =
    let (few, small) = h f refl in
    let (count, bytes) = k (n + 1) (b + length f.content) few small in
    (ground (arith, count), ground (arith, bytes))

included-limits :
    (n b : ℕ) (entries : List Entry)
    → n ≤ 50
    → b ≤ 1048576
    → All SizeIsLength entries
    → (n + length (included n b entries) ≤ 50) × (b + total_length (included n b entries) ≤ 1048576)
unfolding included
included-limits n b [] hn hb same = (ground arith, ground arith)
included-limits n b (e ∷ entries) hn hb (here, later) =
    walk_step-limits (step n b e) (λ m c. included m c entries) n b hn hb
      (λ f h. step-include n b e f here h) (λ m c hm hc. included-limits m c entries hm hc later)

-- Whatever the walk meets, where the sizes of the files are the lengths of what is read from them, the
-- workspace context takes up at most 50 files and at most 1 MiB of content.
pub included_limits :
    (entries : List Entry)
    → All SizeIsLength entries
    → (length (included 0 0 entries) ≤ 50) × (total_length (included 0 0 entries) ≤ 1048576)
included_limits entries same =
    let (count, bytes) = included-limits 0 0 entries (omega arith) (omega arith) same in
    (ground (arith, count), ground (arith, bytes))
