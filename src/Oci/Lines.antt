-- ===== src/Oci/Lines.antt =====
-- runtime/pullrun-oci/src/dockerfile.rs: logical lines, and the blocks that FROM lines start.
pub mod Kept
use pullrun.Base.{
  ℕ, Bool, true, false, ◌||◌, Option, none, some, List, [], ◌∷◌, ◌++◌, if◌then◌else◌,
}
use pullrun.Base.Words.{Bytes}
use pullrun.Base.Text.{starts_with}
use pullrun.Base.Trim.{trim}
use pullrun.Oci.Words.{is_empty, lines, to_uppercase, strip_suffix}

abbrev pub flush : Bytes → List Bytes → List Bytes
flush [] out = out
flush (c ∷ s) out = trim (c ∷ s) ∷ out

abbrev pub is_skipped : Bytes → Bool
is_skipped line = is_empty line || starts_with (b'#' ∷ []) line

unfoldable pub preprocess_loop : List Bytes → Bytes → List Bytes
preprocess_loop [] current = flush current []
preprocess_loop (raw ∷ raws) current = elim (is_skipped (trim raw)) [
  | true ↦ flush current (preprocess_loop raws [])
  | false ↦ elim (strip_suffix b'\\' (trim raw)) [
    | some stripped ↦ preprocess_loop raws (current ++ stripped ++ 32 ∷ [])
    | none ↦ trim (current ++ trim raw) ∷ preprocess_loop raws []
  ]
]

unfoldable pub preprocess_lines : Bytes → List Bytes
preprocess_lines content = preprocess_loop (lines content) []

abbrev pub is_from : Bytes → Bool
is_from line = starts_with (b'F' ∷ b'R' ∷ b'O' ∷ b'M' ∷ 32 ∷ []) (to_uppercase line)

abbrev pub close : List Bytes → List (List Bytes) → List (List Bytes)
close [] blocks = blocks
close (line ∷ current) blocks = (line ∷ current) ∷ blocks

unfoldable pub blocks_loop : List Bytes → List Bytes → List (List Bytes)
blocks_loop [] current = close current []
blocks_loop (line ∷ lines) current = elim (is_from line) [
  | true ↦ close current (blocks_loop lines (line ∷ []))
  | false ↦ blocks_loop lines (current ++ line ∷ [])
]

unfoldable pub split_into_blocks : List Bytes → List (List Bytes)
split_into_blocks lines = blocks_loop lines []
