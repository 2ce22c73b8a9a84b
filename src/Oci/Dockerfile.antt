-- ===== src/Oci/Dockerfile.antt =====
-- runtime/pullrun-oci/src/dockerfile.rs: `Dockerfile::parse`, from the blocks to the stages.
pub mod Stages
use pullrun.Base.{
  ℕ, Bool, true, false, ◌&&◌, Option, none, some, List, [], ◌∷◌, ◌++◌, if◌then◌else◌, drop,
}
use pullrun.Base.Words.{Bytes}
use pullrun.Base.Text.{starts_with, eq_bytes}
use pullrun.Base.Trim.{trim}
use pullrun.Oci.Words.{to_uppercase, before, from, split_whitespace, join}
use pullrun.Oci.Lines.{preprocess_lines, is_from, split_into_blocks}
use pullrun.Oci.Instruction.{
  Instruction, ParseError, not_from, no_stages, Parsed, ok, err, panic, endless, is_blank,
  parse_instruction,
}

pub record BuildStage : Type 0 where
  pub from_image : Bytes
  pub instructions : List Instruction
  pub name : Option Bytes
  pub platform : Option Bytes

abbrev pub platform_flag : Bytes
platform_flag = b'-' ∷ b'-' ∷ b'p' ∷ b'l' ∷ b'a' ∷ b't' ∷ b'f' ∷ b'o' ∷ b'r' ∷ b'm' ∷ b'=' ∷ []

abbrev pub stage_name : List Bytes → Option Bytes
stage_name [] = none
stage_name (word ∷ []) = none
stage_name (word ∷ name ∷ names) =
    if eq_bytes (to_uppercase word) (b'A' ∷ b'S' ∷ []) then some (join (name ∷ names)) else none

-- `parts[0]` panics where there is no part.
abbrev pub from_parts : Option Bytes → List Bytes → Parsed (Bytes × Option Bytes × Option Bytes)
from_parts platform [] = panic
from_parts platform (image ∷ parts) = ok (image, stage_name parts, platform)

unfoldable pub parse_from : Bytes → Parsed (Bytes × Option Bytes × Option Bytes)
parse_from s =
    if starts_with platform_flag (trim s)
    then from_parts (some (before is_blank (drop 11 (trim s))))
        (split_whitespace (trim (from is_blank (drop 11 (trim s)))))
    else from_parts none (split_whitespace (trim s))

module _ (json : Bytes → Option (List Bytes)) (parse_u16 : Bytes → Option ℕ) where
  abbrev pub push_parsed :
      Parsed Instruction → Parsed (List Instruction) → Parsed (List Instruction)
  push_parsed (ok i) (ok is) = ok (i ∷ is)
  push_parsed (ok i) (err e) = err e
  push_parsed (ok i) panic = panic
  push_parsed (ok i) endless = endless
  push_parsed (err e) rest = err e
  push_parsed panic rest = panic
  push_parsed endless rest = endless

  abbrev pub parse_instructions : List Bytes → Parsed (List Instruction)
  parse_instructions [] = ok []
  parse_instructions (line ∷ lines) =
      push_parsed (parse_instruction json parse_u16 line) (parse_instructions lines)

  abbrev pub make_stage :
      Parsed (Bytes × Option Bytes × Option Bytes) → Parsed (List Instruction) → Parsed BuildStage
  make_stage (ok (image, name, platform)) (ok instructions) =
      ok (record {
        from_image = image;
        instructions = instructions;
        name = name;
        platform = platform;
      })
  make_stage (ok header) (err e) = err e
  make_stage (ok header) panic = panic
  make_stage (ok header) endless = endless
  make_stage (err e) is = err e
  make_stage panic is = panic
  make_stage endless is = endless

  -- `lines[0]` panics where there is no line.
  unfoldable pub parse_block : List Bytes → Parsed BuildStage
  parse_block [] = panic
  parse_block (from_line ∷ lines) =
      if is_from from_line
      then make_stage (parse_from (trim (drop 5 from_line))) (parse_instructions lines)
      else err (not_from from_line)

  abbrev pub push_stage : Parsed BuildStage → Parsed (List BuildStage) → Parsed (List BuildStage)
  push_stage (ok stage) (ok stages) = ok (stage ∷ stages)
  push_stage (ok stage) (err e) = err e
  push_stage (ok stage) panic = panic
  push_stage (ok stage) endless = endless
  push_stage (err e) rest = err e
  push_stage panic rest = panic
  push_stage endless rest = endless

  unfoldable pub parse_blocks : List (List Bytes) → Parsed (List BuildStage)
  parse_blocks [] = ok []
  parse_blocks (block ∷ blocks) = push_stage (parse_block block) (parse_blocks blocks)

  abbrev pub some_stage : Parsed (List BuildStage) → Parsed (List BuildStage)
  some_stage (ok []) = err no_stages
  some_stage (ok (stage ∷ stages)) = ok (stage ∷ stages)
  some_stage (err e) = err e
  some_stage panic = panic
  some_stage endless = endless

  unfoldable pub parse : Bytes → Parsed (List BuildStage)
  parse content = some_stage (parse_blocks (split_into_blocks (preprocess_lines content)))
