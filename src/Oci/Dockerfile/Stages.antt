-- ===== src/Oci/Dockerfile/Stages.antt =====
-- runtime/pullrun-oci/src/dockerfile.rs: the lines of which the stages are made.
use pullrun.Base.{
  ℕ, ◌≡◌, ◌≢◌, refl, subst, All, inl, inr, Bool, true, false, Option, List, [], ◌∷◌, if◌then◌else◌,
  Bool-cases, drop,
}
use pullrun.Base.Words.{Bytes}
use pullrun.Base.Text.{starts_with}
use pullrun.Base.Trim.{trim}
use pullrun.Oci.Lines.{preprocess_lines, is_from, split_into_blocks}
use pullrun.Oci.Lines.Kept.{flatten, flatten-split_into_blocks, OneFrom, split_into_blocks-OneFrom}
use pullrun.Oci.Instruction.{Instruction, Parsed, ok, err, panic, endless, parse_instruction}
use pullrun.Oci.Instruction.Flags.{parse_instruction-ends}
use pullrun.Oci.Dockerfile.{
  BuildStage, platform_flag, from_parts, parse_from, push_parsed, parse_instructions, make_stage,
  parse_block, push_stage, parse_blocks, some_stage, parse,
}

ok-inj {ℓ} : {A : Type ℓ} {a b : A} → ok a ≡ ok b → a ≡ b
ok-inj h = cc

from_parts-ends :
    (platform : Option Bytes) (parts : List Bytes) → from_parts platform parts ≢ endless
from_parts-ends platform [] = λ e. cc
from_parts-ends platform (image ∷ parts) = λ e. cc

parse_from-ends : (s : Bytes) → parse_from s ≢ endless
unfolding parse_from
parse_from-ends s e = elim (Bool-cases (starts_with platform_flag (trim s))) [
  | inl y ↦ from_parts-ends _ _ (rw y at e)
  | inr n ↦ from_parts-ends _ _ (rw n at e)
]

module _ (json : Bytes → Option (List Bytes)) (parse_u16 : Bytes → Option ℕ) where
  push_parsed-ends :
      (p : Parsed Instruction) (rest : Parsed (List Instruction))
      → p ≢ endless
      → rest ≢ endless
      → push_parsed json parse_u16 p rest ≢ endless
  push_parsed-ends (ok i) (ok is) f g = λ e. cc
  push_parsed-ends (ok i) (err x) f g = λ e. cc
  push_parsed-ends (ok i) panic f g = λ e. cc
  push_parsed-ends (ok i) endless f g = absurd (g refl)
  push_parsed-ends (err x) rest f g = λ e. cc
  push_parsed-ends panic rest f g = λ e. cc
  push_parsed-ends endless rest f g = absurd (f refl)

  parse_instructions-ends : (lines : List Bytes) → parse_instructions json parse_u16 lines ≢ endless
  parse_instructions-ends [] = λ e. cc
  parse_instructions-ends (line ∷ lines) =
      push_parsed-ends _ _ (parse_instruction-ends json parse_u16 line)
        (parse_instructions-ends lines)

  abbrev Header : Type 0
  Header = Bytes × Option Bytes × Option Bytes

  make_stage-ends :
      (p : Parsed Header) (is : Parsed (List Instruction))
      → p ≢ endless
      → is ≢ endless
      → make_stage json parse_u16 p is ≢ endless
  make_stage-ends (ok h) (ok is) f g = λ e. cc
  make_stage-ends (ok h) (err x) f g = λ e. cc
  make_stage-ends (ok h) panic f g = λ e. cc
  make_stage-ends (ok h) endless f g = absurd (g refl)
  make_stage-ends (err x) is f g = λ e. cc
  make_stage-ends panic is f g = λ e. cc
  make_stage-ends endless is f g = absurd (f refl)

  either :
      (b : Bool) (x y : Parsed BuildStage)
      → x ≢ endless
      → y ≢ endless
      → (if b then x else y) ≢ endless
  either true x y f g = f
  either false x y f g = g

  parse_block-ends : (block : List Bytes) → parse_block json parse_u16 block ≢ endless
  unfolding parse_block
  parse_block-ends [] = λ e. cc
  parse_block-ends (line ∷ lines) =
      either (is_from line) _ _
        (make_stage-ends _ _ (parse_from-ends (trim (drop 5 line))) (parse_instructions-ends lines))
        (λ e. cc)

  push_stage-ends :
      (p : Parsed BuildStage) (rest : Parsed (List BuildStage))
      → p ≢ endless
      → rest ≢ endless
      → push_stage json parse_u16 p rest ≢ endless
  push_stage-ends (ok h) (ok is) f g = λ e. cc
  push_stage-ends (ok h) (err x) f g = λ e. cc
  push_stage-ends (ok h) panic f g = λ e. cc
  push_stage-ends (ok h) endless f g = absurd (g refl)
  push_stage-ends (err x) is f g = λ e. cc
  push_stage-ends panic is f g = λ e. cc
  push_stage-ends endless is f g = absurd (f refl)

  parse_blocks-ends : (blocks : List (List Bytes)) → parse_blocks json parse_u16 blocks ≢ endless
  unfolding parse_blocks
  parse_blocks-ends [] = λ e. cc
  parse_blocks-ends (block ∷ blocks) =
      push_stage-ends _ _ (parse_block-ends block) (parse_blocks-ends blocks)

  some_stage-ends :
      (p : Parsed (List BuildStage)) → p ≢ endless → some_stage json parse_u16 p ≢ endless
  some_stage-ends (ok []) f = λ e. cc
  some_stage-ends (ok (stage ∷ stages)) f = λ e. cc
  some_stage-ends (err x) f = λ e. cc
  some_stage-ends panic f = λ e. cc
  some_stage-ends endless f = absurd (f refl)

  -- The parser ends on every text, the loop over the flags of COPY and ADD included.
  pub parse-ends : (content : Bytes) → parse json parse_u16 content ≢ endless
  unfolding parse
  parse-ends content =
      some_stage-ends _ (parse_blocks-ends (split_into_blocks (preprocess_lines content)))

  -- Each line is parsed to the instruction in its place.
  abbrev pub Parses : List Bytes → List Instruction → Type 0
  Parses [] [] = Unit
  Parses (line ∷ lines) (i ∷ is) = (parse_instruction json parse_u16 line ≡ ok i) × Parses lines is
  Parses [] (i ∷ is) = ⊥
  Parses (line ∷ lines) [] = ⊥

  -- A block is the FROM line of a stage and a line for each instruction, no other FROM line among them.
  abbrev pub IsStage : List Bytes → BuildStage → Type 0
  IsStage [] stage = ⊥
  IsStage (line ∷ lines) stage =
      (is_from line ≡ true)
      × (parse_from (trim (drop 5 line)) ≡ ok (stage.from_image, stage.name, stage.platform))
      × Parses lines stage.instructions
      × All (λ l. is_from l ≡ false) lines

  abbrev pub AreStages : List (List Bytes) → List BuildStage → Type 0
  AreStages [] [] = Unit
  AreStages (block ∷ blocks) (stage ∷ stages) = IsStage block stage × AreStages blocks stages
  AreStages [] (stage ∷ stages) = ⊥
  AreStages (block ∷ blocks) [] = ⊥

  push_parsed-Parses :
      (line : Bytes) (lines : List Bytes) (p : Parsed Instruction)
      (rest : Parsed (List Instruction)) (is : List Instruction)
      → parse_instruction json parse_u16 line ≡ p
      → push_parsed json parse_u16 p rest ≡ ok is
      → ((js : List Instruction) → rest ≡ ok js → Parses lines js)
      → Parses (line ∷ lines) is
  push_parsed-Parses line lines (ok i) (ok js) is h e f =
      subst (Parses (line ∷ lines)) (ok-inj e) (h, f js refl)
  push_parsed-Parses line lines (ok i) (err x) is h e f = cc
  push_parsed-Parses line lines (ok i) panic is h e f = cc
  push_parsed-Parses line lines (ok i) endless is h e f = cc
  push_parsed-Parses line lines (err x) rest is h e f = cc
  push_parsed-Parses line lines panic rest is h e f = cc
  push_parsed-Parses line lines endless rest is h e f = cc

  parse_instructions-Parses :
      (lines : List Bytes) (is : List Instruction)
      → parse_instructions json parse_u16 lines ≡ ok is
      → Parses lines is
  parse_instructions-Parses [] is e = subst (Parses []) (ok-inj e) tt
  parse_instructions-Parses (line ∷ lines) is e =
      push_parsed-Parses line lines (parse_instruction json parse_u16 line)
        (parse_instructions json parse_u16 lines) is refl e (parse_instructions-Parses lines)

  make_stage-IsStage :
      (line : Bytes) (lines : List Bytes) (p : Parsed Header) (is : Parsed (List Instruction))
      (stage : BuildStage)
      → is_from line ≡ true
      → All (λ l. is_from l ≡ false) lines
      → parse_from (trim (drop 5 line)) ≡ p
      → make_stage json parse_u16 p is ≡ ok stage
      → ((js : List Instruction) → is ≡ ok js → Parses lines js)
      → IsStage (line ∷ lines) stage
  make_stage-IsStage line lines (ok h) (ok js) stage y plain at e f =
      subst (IsStage (line ∷ lines)) (ok-inj e) (y, at, f js refl, plain)
  make_stage-IsStage line lines (ok h) (err x) stage y plain at e f = cc
  make_stage-IsStage line lines (ok h) panic stage y plain at e f = cc
  make_stage-IsStage line lines (ok h) endless stage y plain at e f = cc
  make_stage-IsStage line lines (err x) is stage y plain at e f = cc
  make_stage-IsStage line lines panic is stage y plain at e f = cc
  make_stage-IsStage line lines endless is stage y plain at e f = cc

  parse_block-IsStage :
      (block : List Bytes) (stage : BuildStage)
      → OneFrom block
      → parse_block json parse_u16 block ≡ ok stage
      → IsStage block stage
  unfolding parse_block
  parse_block-IsStage [] stage one e = cc
  parse_block-IsStage (line ∷ lines) stage one e = elim (Bool-cases (is_from line)) [
    | inl y ↦
        make_stage-IsStage line lines (parse_from (trim (drop 5 line)))
          (parse_instructions json parse_u16 lines) stage y one refl (rw y at e)
          (parse_instructions-Parses lines)
    | inr n ↦ cc (rw n at e)
  ]

  push_stage-AreStages :
      (block : List Bytes) (blocks : List (List Bytes)) (p : Parsed BuildStage)
      (rest : Parsed (List BuildStage)) (stages : List BuildStage)
      → push_stage json parse_u16 p rest ≡ ok stages
      → ((stage : BuildStage) → p ≡ ok stage → IsStage block stage)
      → ((later : List BuildStage) → rest ≡ ok later → AreStages blocks later)
      → AreStages (block ∷ blocks) stages
  push_stage-AreStages block blocks (ok stage) (ok later) stages e f g =
      subst (AreStages (block ∷ blocks)) (ok-inj e) (f stage refl, g later refl)
  push_stage-AreStages block blocks (ok stage) (err x) stages e f g = cc
  push_stage-AreStages block blocks (ok stage) panic stages e f g = cc
  push_stage-AreStages block blocks (ok stage) endless stages e f g = cc
  push_stage-AreStages block blocks (err x) rest stages e f g = cc
  push_stage-AreStages block blocks panic rest stages e f g = cc
  push_stage-AreStages block blocks endless rest stages e f g = cc

  parse_blocks-AreStages :
      (blocks : List (List Bytes)) (stages : List BuildStage)
      → All OneFrom blocks
      → parse_blocks json parse_u16 blocks ≡ ok stages
      → AreStages blocks stages
  unfolding parse_blocks
  parse_blocks-AreStages [] stages all e = subst (AreStages []) (ok-inj e) tt
  parse_blocks-AreStages (block ∷ blocks) stages (one, all) e =
      push_stage-AreStages block blocks (parse_block json parse_u16 block)
        (parse_blocks json parse_u16 blocks) stages e (λ stage. parse_block-IsStage block stage one)
        (λ later. parse_blocks-AreStages blocks later all)

  some_stage-ok :
      (p : Parsed (List BuildStage)) (stages : List BuildStage)
      → some_stage json parse_u16 p ≡ ok stages
      → p ≡ ok stages
  some_stage-ok (ok []) stages e = cc
  some_stage-ok (ok (stage ∷ later)) stages e = e
  some_stage-ok (err x) stages e = cc
  some_stage-ok panic stages e = cc
  some_stage-ok endless stages e = cc

  -- Where the parser succeeds, the lines that `preprocess_lines` gives are cut, in order and without
  -- loss, into a block for each stage: its first line is a FROM line, from which the image, the name and
  -- the platform are read, and the others are no FROM lines and are parsed, each in its place, to the
  -- instructions of the stage.
  pub parse-AreStages :
      (content : Bytes) (stages : List BuildStage)
      → parse json parse_u16 content ≡ ok stages
      → (blocks : List (List Bytes)) × (flatten blocks ≡ preprocess_lines content)
        × AreStages blocks stages
  unfolding parse
  parse-AreStages content stages e =
      let lines : List Bytes = preprocess_lines content in
      (
        split_into_blocks lines,
        flatten-split_into_blocks lines,
        parse_blocks-AreStages (split_into_blocks lines) stages (split_into_blocks-OneFrom lines)
            (some_stage-ok _ stages e),
      )
