-- ===== src/Oci/Lines/Kept.antt =====
-- runtime/pullrun-oci/src/dockerfile.rs: the blocks hold the lines, each once and in order.
use pullrun.Base.{
  ◌≡◌, refl, ap, ◌∙◌, inl, inr, List, [], ◌∷◌, ◌++◌, false, All, append_assoc, Bool-cases,
}
use pullrun.Base.Words.{Bytes}
use pullrun.Oci.Lines.{is_from, close, blocks_loop, split_into_blocks}

abbrev pub flatten : List (List Bytes) → List Bytes
flatten [] = []
flatten (block ∷ blocks) = block ++ flatten blocks

flatten-close :
    (current : List Bytes) (blocks : List (List Bytes))
    → flatten (close current blocks) ≡ current ++ flatten blocks
flatten-close [] blocks = refl
flatten-close (line ∷ current) blocks = refl

flatten-blocks_loop :
    (lines current : List Bytes) → flatten (blocks_loop lines current) ≡ current ++ lines
unfolding blocks_loop
flatten-blocks_loop [] current = flatten-close current []
flatten-blocks_loop (line ∷ lines) current = elim (Bool-cases (is_from line)) [
  | inl y ↦
      rw (blocks_loop, y)
        (flatten-close current (blocks_loop lines (line ∷ []))
          ∙ ap (λ t. current ++ t) (flatten-blocks_loop lines (line ∷ [])))
  | inr n ↦
      rw (blocks_loop, n)
        (flatten-blocks_loop lines (current ++ line ∷ []) ∙ append_assoc current (line ∷ []) lines)
]

-- The blocks, one behind the other, are the lines: no line is lost, and none moves.
pub flatten-split_into_blocks : (lines : List Bytes) → flatten (split_into_blocks lines) ≡ lines
unfolding split_into_blocks
flatten-split_into_blocks lines = flatten-blocks_loop lines []

-- Behind its first line a block has no FROM line.
abbrev pub OneFrom : List Bytes → Type 0
OneFrom [] = Unit
OneFrom (line ∷ lines) = All (λ l. is_from l ≡ false) lines

All-snoc :
    (lines : List Bytes) (line : Bytes)
    → All (λ l. is_from l ≡ false) lines
    → is_from line ≡ false
    → All (λ l. is_from l ≡ false) (lines ++ line ∷ [])
All-snoc [] line all h = (h, tt)
All-snoc (l ∷ lines) line (here, all) h = (here, All-snoc lines line all h)

OneFrom-snoc :
    (current : List Bytes) (line : Bytes)
    → OneFrom current
    → is_from line ≡ false
    → OneFrom (current ++ line ∷ [])
OneFrom-snoc [] line o h = tt
OneFrom-snoc (l ∷ lines) line o h = All-snoc lines line o h

close-OneFrom :
    (current : List Bytes) (blocks : List (List Bytes))
    → OneFrom current
    → All OneFrom blocks
    → All OneFrom (close current blocks)
close-OneFrom [] blocks o all = all
close-OneFrom (line ∷ current) blocks o all = (o, all)

blocks_loop-OneFrom :
    (lines current : List Bytes) → OneFrom current → All OneFrom (blocks_loop lines current)
unfolding blocks_loop
blocks_loop-OneFrom [] current o = close-OneFrom current [] o tt
blocks_loop-OneFrom (line ∷ lines) current o = elim (Bool-cases (is_from line)) [
  | inl y ↦
      rw (blocks_loop, y)
        (close-OneFrom current (blocks_loop lines (line ∷ [])) o
          (blocks_loop-OneFrom lines (line ∷ []) tt))
  | inr n ↦
      rw (blocks_loop, n)
        (blocks_loop-OneFrom lines (current ++ line ∷ []) (OneFrom-snoc current line o n))
]

pub split_into_blocks-OneFrom : (lines : List Bytes) → All OneFrom (split_into_blocks lines)
unfolding split_into_blocks
split_into_blocks-OneFrom lines = blocks_loop-OneFrom lines [] tt
