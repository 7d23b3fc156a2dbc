-- ===== src/Ingestion/Chunk.antt =====
-- The chunks of a text: their sizes, and that they cover the text with the given overlap.
use Prim.Native.Nat.{min}
use tfai_go.Base.{
  true, append-nil, ℕ, zero, suc, ◌+◌, ◌-◌, ◌≤◌, ◌<◌, ◌≡◌, refl, sym, ap, ◌∙◌, Option, some, List,
  [], ◌∷◌, ◌++◌, Bytes, length, take, drop, length-take, length-drop, drop-drop, drop-append,
  take-append-drop, take_all, trim_space, All, ℤ, pos_part, ltb, ◌==◌, Bool-cases, inl, inr, arith,
}
use tfai_go.Ingestion.{
  PipelineConfig, resolve_size, resolve_overlap, resolve_config, slice, prepend, chunk_from, chunk,
}

-- The chunks after the first, each without what it repeats of the one before.
pub tails : ℕ → List Bytes → Bytes
tails overlap [] = []
tails overlap (c ∷ cs) = drop overlap c ++ tails overlap cs

-- The text that chunks spell.
pub reassemble : ℕ → List Bytes → Bytes
unfolding tails
reassemble overlap [] = []
reassemble overlap (c ∷ cs) = c ++ tails overlap cs

==-refl : (n : ℕ) → (n == n) ≡ true
==-refl n = ground arith

-- What the loop gives from a start inside the text.
record Covers (size overlap : ℕ) (text : Bytes) (start : ℕ) (r : Option (List Bytes)) : Type 0 where
  first : Bytes
  others : List Bytes
  returned : r ≡ some (first ∷ others)
  long : length first ≡ min size (length text - start)
  spelled : first ++ tails overlap others ≡ drop start text
  small : All (λ c. length c ≤ size) (first ∷ others)

module _ (size overlap : ℕ) (text : Bytes) (less : overlap < size) where
  -- The last chunk.
  last_chunk :
      (start : ℕ)
      → start < length text
      → length text ≤ start + size
      → Covers size overlap text start (some (slice text start (length text) ∷ []))
  last_chunk start inside near = record {
    first = slice text start (length text);
    others = [];
    returned = refl;
    long = rw whole (omega (arith, length-drop start text));
    spelled = unfold tails in (append-nil (slice text start (length text)) ∙ whole);
    small = (rw whole (omega (arith, length-drop start text)), tt);
  }
    where
      whole : slice text start (length text) ≡ drop start text
      whole =
          take_all (length text - start) (drop start text) (omega (arith, length-drop start text))

  -- A chunk before others.
  inner_chunk :
      (start : ℕ) (r : Option (List Bytes))
      → start + size < length text
      → Covers size overlap text (start + (size - overlap)) r
      → Covers size overlap text start (prepend (slice text start (start + size)) r)
  inner_chunk start r far c = record {
    first = slice text start (start + size);
    others = c.first ∷ c.others;
    returned = unfold prepend in (rw c.returned refl);
    long = rw whole (omega (arith, length-take size (drop start text), length-drop start text));
    spelled = rw (whole, rest) (take-append-drop size (drop start text));
    small = (rw whole (omega (arith, length-take size (drop start text))), c.small);
  }
    where
      whole : slice text start (start + size) ≡ take size (drop start text)
      whole = ap (λ (n : ℕ). take n (drop start text)) (omega arith)

      rest : tails overlap (c.first ∷ c.others) ≡ drop size (drop start text)
      rest =
          unfold tails in
          (sym (drop-append overlap c.first (tails overlap c.others) (omega (arith, c.long)))
            ∙ ap (drop overlap) c.spelled
            ∙ drop-drop overlap (start + (size - overlap)) text
            ∙ ap (λ (n : ℕ). drop n text) (omega arith)
            ∙ sym (drop-drop size start text))

  chunk_from-Covers :
      (fuel start : ℕ)
      → start < length text
      → length text - start < fuel
      → Covers size overlap text start (chunk_from fuel size overlap text start)
  unfolding chunk_from
  chunk_from-Covers zero start inside enough = absurd (omega arith)
  chunk_from-Covers (suc fuel) start inside enough =
      elim (Bool-cases (ltb (length text) (start + size))) [
        | inl e ↦ rw (entered, e, ==-refl (length text)) (last_chunk start inside (ground arith))
        | inr e ↦ elim (Bool-cases ((start + size) == length text)) [
          | inl ends ↦
              let same : start + size ≡ length text = ground arith in
              rw (entered, e, ends) (rw same (last_chunk start inside (omega arith)))
          | inr goes_on ↦
              rw (entered, e, goes_on)
                (inner_chunk start (chunk_from fuel size overlap text (start + (size - overlap)))
                  (ground arith)
                  (chunk_from-Covers fuel (start + (size - overlap)) (ground arith) (ground arith)))
        ]
      ]
    where
      entered : ltb start (length text) ≡ true
      entered = ground arith

resolve_size_pos : (size : ℤ) → 0 < resolve_size size
unfolding resolve_size
resolve_size_pos size = ground arith

resolve_overlap-lt : (size : ℕ) (overlap : ℤ) → 0 < size → resolve_overlap size overlap < size
unfolding resolve_overlap
resolve_overlap-lt size overlap h = ground arith

-- Whatever the numbers in the configuration, NewPipeline makes the overlap smaller than the chunk
-- size, and chunk then ends: the chunks of a text, each without what it repeats of the one before,
-- spell the text with the white space around it cut off, none is longer than the chunk size, and a
-- blank text has no chunk.
pub chunk-reassemble :
    (cfg : PipelineConfig) (text : Bytes)
    → (cs : List Bytes) × (chunk (resolve_config cfg) text ≡ some cs)
      × (reassemble (pos_part (resolve_config cfg).chunk_overlap) cs ≡ trim_space text)
      × All (λ c. length c ≤ pos_part (resolve_config cfg).chunk_size) cs
      × (trim_space text ≡ [] → cs ≡ [])
unfolding chunk resolve_config
chunk-reassemble cfg text = by_text (trim_space text)
  where
    size : ℕ
    size = resolve_size cfg.chunk_size

    overlap : ℕ
    overlap = resolve_overlap size cfg.chunk_overlap

    by_text :
        (t : Bytes)
        → (cs : List Bytes) × (chunk_from (suc (length t)) size overlap t 0 ≡ some cs)
          × (reassemble overlap cs ≡ t)
          × All (λ c. length c ≤ size) cs
          × (t ≡ [] → cs ≡ [])
    by_text [] = ([], unfold chunk_from in refl, unfold reassemble in refl, tt, λ e. refl)
    by_text (b ∷ t) =
        let less : overlap < size =
          resolve_overlap-lt size cfg.chunk_overlap (resolve_size_pos cfg.chunk_size) in
        let c : Covers size overlap (b ∷ t) 0
            (chunk_from (suc (suc (length t))) size overlap (b ∷ t) 0) =
          chunk_from-Covers size overlap (b ∷ t) less (suc (suc (length t))) 0 (omega arith)
            (omega arith) in
        (c.first ∷ c.others, c.returned, unfold reassemble in c.spelled, c.small, λ e. cc)
