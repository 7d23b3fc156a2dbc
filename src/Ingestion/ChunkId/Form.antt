-- ===== src/Ingestion/ChunkId/Form.antt =====
-- The form of the id that chunkID gives.
use tfai_go.Agent.Messages.{decimal}
use tfai_go.Base.{
  length-drop, length-take, ap, ◌∙◌, refl, ◌*◌, arith, ◌≡◌, ◌≤◌, ◌<◌, ◌⊎◌, inl, inr, All,
  Bool-cases, length, suc, ℕ, zero, ◌+◌, ◌/◌, ◌%◌, ltb, [], ◌∷◌, ◌++◌, Bytes, take, drop,
}
use tfai_go.Ingestion.ChunkId.{hex_digit, hex, update_at, version_bits, variant_bits, chunk_id}

length-hex : (s : Bytes) → length (hex s) ≡ 2 * length s
unfolding hex
length-hex [] = refl
length-hex (c ∷ s) = omega (arith, length-hex s)

length-update_at : (i : ℕ) (f : ℕ → ℕ) (s : Bytes) → length (update_at i f s) ≡ length s
unfolding update_at
length-update_at i f [] = refl
length-update_at zero f (c ∷ s) = refl
length-update_at (suc i) f (c ∷ s) = omega (arith, length-update_at i f s)

-- A slice inside the digest, printed.
length-group : (j k : ℕ) (h : Bytes) → j + k ≤ length h → length (hex (take k (drop j h))) ≡ 2 * k
length-group j k h l =
    length-hex (take k (drop j h))
    ∙ ap (λ n. 2 * n) (length-take k (drop j h) ∙ rw (length-drop j h) (omega arith))

drop-update_at :
    (n m i : ℕ) (f : ℕ → ℕ) (s : Bytes)
    → m ≡ n + i
    → drop n (update_at m f s) ≡ update_at i f (drop n s)
unfolding update_at
drop-update_at zero m i f s e = ap (λ j. update_at j f s) (omega arith)
drop-update_at (suc n) m i f [] e = refl
drop-update_at (suc n) zero i f (c ∷ s) e = absurd (omega arith)
drop-update_at (suc n) (suc m) i f (c ∷ s) e = drop-update_at n m i f s (omega arith)

-- A digit of the base sixteen, and one that may begin the group of the variant: 8, 9, a or b.
abbrev pub IsHexDigit : ℕ → Type 0
IsHexDigit d = ((b'0' ≤ d) × (d ≤ b'9')) ⊎ ((b'a' ≤ d) × (d ≤ b'f'))

abbrev pub IsVariant : ℕ → Type 0
IsVariant d = ((b'8' ≤ d) × (d ≤ b'9')) ⊎ ((b'a' ≤ d) × (d ≤ b'b'))

hex_digit-IsHexDigit : (d : ℕ) → d < 16 → IsHexDigit (hex_digit d)
unfolding hex_digit
hex_digit-IsHexDigit d h = elim (Bool-cases (ltb d 10)) [
  | inl e ↦ rw e (inl (omega arith, ground arith))
  | inr e ↦ rw e (inr (omega arith, omega arith))
]

hex-IsHexDigit : (s : Bytes) → All IsHexDigit (hex s)
unfolding hex
hex-IsHexDigit [] = tt
hex-IsHexDigit (c ∷ s) = (
  hex_digit-IsHexDigit (c / 16 % 16) (omega arith),
  (hex_digit-IsHexDigit (c % 16) (omega arith), hex-IsHexDigit s),
)

-- The first digit of the byte with the variant.
hex_digit-IsVariant : (d : ℕ) → 8 ≤ d → d < 12 → IsVariant (hex_digit d)
unfolding hex_digit
hex_digit-IsVariant d l h = elim (Bool-cases (ltb d 10)) [
  | inl e ↦ rw e (inl (omega arith, ground arith))
  | inr e ↦ rw e (inr (ground arith, omega arith))
]

-- The group of the bytes 8 and 9 begins with the variant.
fourth_group :
    (s : Bytes)
    → 2 ≤ length s
    → (v : ℕ) × (d : Bytes) × IsVariant v
      × (length d ≡ 3)
      × All IsHexDigit d
      × (hex (take 2 (update_at 0 variant_bits s)) ≡ v ∷ d)
unfolding update_at hex variant_bits
fourth_group [] l = absurd (omega arith)
fourth_group (c ∷ []) l = absurd (omega arith)
fourth_group (c ∷ d ∷ s) l = (
  hex_digit ((c % 64 + 128) / 16 % 16),
  hex_digit ((c % 64 + 128) % 16) ∷ hex (d ∷ []),
  hex_digit-IsVariant ((c % 64 + 128) / 16 % 16) (omega arith) (omega arith),
  refl,
  (hex_digit-IsHexDigit ((c % 64 + 128) % 16) (omega arith), hex-IsHexDigit (d ∷ [])),
  refl,
)

fourth_of :
    (h : Bytes)
    → 10 ≤ length h
    → (v : ℕ) × (d : Bytes) × IsVariant v
      × (length d ≡ 3)
      × All IsHexDigit d
      × (hex (take 2 (drop 8 (update_at 8 variant_bits h))) ≡ v ∷ d)
fourth_of h l =
    rw (drop-update_at 8 8 0 variant_bits h refl)
      (fourth_group (drop 8 h) (rw (length-drop 8 h) (omega arith)))

-- The group of the bytes 6 and 7 begins with the version.
version_group :
    (f : ℕ → ℕ) (s : Bytes)
    → 2 ≤ length s
    → (c : Bytes) × (length c ≡ 3)
      × All IsHexDigit c
      × (hex (take 2 (update_at 2 f (update_at 0 version_bits s))) ≡ b'5' ∷ c)
unfolding update_at hex version_bits hex_digit
version_group f [] l = absurd (omega arith)
version_group f (c ∷ []) l = absurd (omega arith)
version_group f (c ∷ d ∷ s) l = (
  hex_digit ((c % 16 + 80) % 16) ∷ hex (d ∷ []),
  length_three (hex_digit ((c % 16 + 80) % 16)) d,
  (hex_digit-IsHexDigit ((c % 16 + 80) % 16) (omega arith), hex-IsHexDigit (d ∷ [])),
  ap (λ v. hex_digit v ∷ hex_digit ((c % 16 + 80) % 16) ∷ hex (d ∷ [])) version_five,
)
  where
    length_three : (v w : ℕ) → length (v ∷ hex (w ∷ [])) ≡ 3
    length_three v w = refl

    version_five : (c % 16 + 80) / 16 % 16 ≡ 5
    version_five = omega arith

version_of :
    (h : Bytes)
    → 8 ≤ length h
    → (c : Bytes) × (length c ≡ 3)
      × All IsHexDigit c
      × (hex (take 2 (drop 6 (update_at 8 variant_bits (update_at 6 version_bits h)))) ≡ b'5' ∷ c)
version_of h l = rw (drop-update_at 6 8 2 variant_bits (update_at 6 version_bits h) refl) (
    rw (drop-update_at 6 6 0 version_bits h refl)
      (version_group variant_bits (drop 6 h) (rw (length-drop 6 h) (omega arith))))

-- Five groups of 8, 4, 4, 4 and 12 hexadecimal digits with dashes between them, the third with the digit of version 5
-- first, and the fourth with one of the variant.
abbrev pub IsUuid : Bytes → Type 0
IsUuid s =
    (a : Bytes) × (b : Bytes) × (c : Bytes) × (v : ℕ) × (d : Bytes) × (e : Bytes) × (length a ≡ 8)
    × (length b ≡ 4)
    × (length c ≡ 3)
    × (length d ≡ 3)
    × (length e ≡ 12)
    × IsVariant v
    × All IsHexDigit a
    × All IsHexDigit b
    × All IsHexDigit c
    × All IsHexDigit d
    × All IsHexDigit e
    × (s ≡ a ++ b'-' ∷ b ++ b'-' ∷ b'5' ∷ c ++ b'-' ∷ v ∷ d ++ b'-' ∷ e)

-- The id of a chunk, for any hash that gives digests of 32 bytes: five groups of 8, 4, 4, 4 and 12 of the digits
-- 0 to 9 and a to f, with dashes between them, the third with a 5 first, and the fourth with 8, 9, a or b first,
-- which is the form of a UUID of version 5.
pub chunk_id-IsUuid :
    (sum256 : Bytes → Bytes) (source_url : Bytes) (index : ℕ)
    → ((s : Bytes) → length (sum256 s) ≡ 32)
    → IsUuid (chunk_id sum256 source_url index)
unfolding chunk_id
chunk_id-IsUuid sum256 source_url index sized =
    let digest = sum256 (source_url ++ b'#' ∷ decimal index) in
    let h = update_at 8 variant_bits (update_at 6 version_bits digest) in
    let long =
      length-update_at 8 variant_bits (update_at 6 version_bits digest)
      ∙ length-update_at 6 version_bits digest
      ∙ sized (source_url ++ b'#' ∷ decimal index) in
    let (c, lc, hc, ec) =
      version_of digest (rw (sized (source_url ++ b'#' ∷ decimal index)) (omega arith)) in
    let (v, d, is_v, ld, hd, ed) = fourth_of (update_at 6 version_bits digest) (
      rw (length-update_at 6 version_bits digest ∙ sized (source_url ++ b'#' ∷ decimal index))
        (omega arith)) in
    (
      hex (take 4 h),
      hex (take 2 (drop 4 h)),
      c,
      v,
      d,
      hex (take 6 (drop 10 h)),
      length-group 0 4 h (omega arith),
      length-group 4 2 h (omega arith),
      lc,
      ld,
      length-group 10 6 h (omega arith),
      is_v,
      hex-IsHexDigit (take 4 h),
      hex-IsHexDigit (take 2 (drop 4 h)),
      hc,
      hd,
      hex-IsHexDigit (take 6 (drop 10 h)),
      λ i.
          hex (take 4 h)
          ++ b'-' ∷ hex (take 2 (drop 4 h))
          ++ b'-' ∷ ec i
          ++ b'-' ∷ ed i
          ++ b'-' ∷ hex (take 6 (drop 10 h)),
    )
