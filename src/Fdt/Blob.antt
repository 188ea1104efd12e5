-- ===== src/Fdt/Blob.antt =====
-- The blob that `vart_fdt_finish` makes: its header leads the reader to the two blocks.
use vart.Common.{
  ℕ, zero, suc, ◌+◌, ◌^◌, ◌<◌, ◌≡◌, refl, sym, ap, ◌∙◌, List, [], ◌∷◌, ◌++◌, arith, ==_refl, length,
  length-append, drop,
}
use vart.Fdt.Defs.{write_be32}
use vart.Fdt.Builder.{blob_bytes}
use vart.Fdt.Reader.{take_bytes, take_be32, be32_at, block_at, read_blob, read_events}
use vart.Fdt.Encode.{take_bytes-append, drop-append, append-nil}

drop-drop : (n k : ℕ) (xs : List ℕ) → drop (n + k) xs ≡ drop k (drop n xs)
drop-drop zero k xs = ap (λ i. drop i xs) (omega arith)
drop-drop (suc n) k [] = ap (λ i. drop i []) (sum n k) ∙ none_left k
  where
    sum : (n k : ℕ) → suc n + k ≡ suc (n + k)
    sum n k = omega arith

    none_left : (k : ℕ) → [] ≡ drop {A = ℕ} k []
    none_left zero = refl
    none_left (suc k) = refl
drop-drop (suc n) k (x ∷ xs) = ap (λ i. drop i (x ∷ xs)) (sum n k) ∙ drop-drop n k xs
  where
    sum : (n k : ℕ) → suc n + k ≡ suc (n + k)
    sum n k = omega arith

block_at-drop :
    (offset : ℕ) (blob bytes rest : List ℕ)
    → drop offset blob ≡ bytes ++ rest
    → block_at offset (length bytes) blob ≡ bytes
unfolding block_at
block_at-drop offset blob bytes rest e =
    rw (ap (take_bytes (length bytes)) e ∙ take_bytes-append bytes rest, block_at) refl

module _ (structure strings : List ℕ) (fits : 56 + length structure + length strings < 2 ^ 32) where
  abbrev blob : List ℕ
  blob = blob_bytes structure strings

  blob-header :
      (be32_at 0 blob ≡ 0xd00dfeed)
      × (be32_at 4 blob ≡ 56 + length structure + length strings)
      × (be32_at 24 blob ≡ 16)
      × (be32_at 8 blob ≡ 56)
      × (be32_at 12 blob ≡ 56 + length structure)
      × (be32_at 32 blob ≡ length strings)
      × (be32_at 36 blob ≡ length structure)
  unfolding be32_at take_be32 write_be32 blob_bytes
  blob-header = (refl, omega arith, refl, refl, omega arith, omega arith, omega arith)

  length-blob : length blob ≡ 56 + length structure + length strings
  unfolding write_be32 blob_bytes
  length-blob = omega (arith, length-append structure strings)

  structure-blob : block_at 56 (length structure) blob ≡ structure
  unfolding write_be32 blob_bytes
  structure-blob = block_at-drop 56 blob structure strings refl

  strings-blob : block_at (56 + length structure) (length strings) blob ≡ strings
  unfolding write_be32 blob_bytes
  strings-blob = block_at-drop (56 + length structure) blob strings [] (
      drop-drop 56 (length structure) blob
      ∙ (drop-append structure strings ∙ sym (append-nil strings)))

  pub read_blob-blob_bytes :
      read_blob blob ≡ read_events (56 + length structure + length strings) strings structure
  unfolding read_blob
  read_blob-blob_bytes =
      let (a, b, c, d, e, f, g) = blob-header in
      rw
        (
          a,
          b,
          c,
          d,
          e,
          f,
          g,
          length-blob,
          structure-blob,
          strings-blob,
          ==_refl (56 + length structure + length strings),
        )
        refl
