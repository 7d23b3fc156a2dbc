-- ===== src/Ingestion/ChunkId.antt =====
-- chunkID of internal/ingestion/pipeline.go: the id of a chunk from the hash of its page and index. SHA-256 is a
-- parameter, and its digest a list of bytes.
pub mod Form
use tfai_go.Agent.Messages.{decimal}
use tfai_go.Base.{
  ℕ, zero, suc, ◌+◌, ◌-◌, ◌/◌, ◌%◌, ltb, [], ◌∷◌, ◌++◌, Bytes, take, drop, if◌then◌else◌,
}

-- A digit of fmt's verb %x
pub hex_digit : ℕ → ℕ
hex_digit d = if ltb d 10 then b'0' + d else b'a' + (d - 10)

-- %0wx of bytes, two digits for each: the widths that chunkID gives are those of its slices.
pub hex : Bytes → Bytes
unfolding hex_digit
hex [] = []
hex (c ∷ s) = hex_digit (c / 16 % 16) ∷ hex_digit (c % 16) ∷ hex s

-- The assignment at an index.
pub update_at : ℕ → (ℕ → ℕ) → Bytes → Bytes
update_at i f [] = []
update_at zero f (c ∷ s) = f c ∷ s
update_at (suc i) f (c ∷ s) = c ∷ update_at i f s

-- (h[6] & 0x0f) | 0x50 and (h[8] & 0x3f) | 0x80
pub version_bits : ℕ → ℕ
version_bits c = c % 16 + 80

pub variant_bits : ℕ → ℕ
variant_bits c = c % 64 + 128

-- chunkID
pub chunk_id : (Bytes → Bytes) → Bytes → ℕ → Bytes
unfolding hex update_at version_bits variant_bits
chunk_id sum256 source_url index =
    let h =
      update_at 8 variant_bits
        (update_at 6 version_bits (sum256 (source_url ++ b'#' ∷ decimal index))) in
    hex (take 4 h)
    ++ b'-' ∷ hex (take 2 (drop 4 h))
    ++ b'-' ∷ hex (take 2 (drop 6 h))
    ++ b'-' ∷ hex (take 2 (drop 8 h))
    ++ b'-' ∷ hex (take 6 (drop 10 h))
