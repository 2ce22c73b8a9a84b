-- ===== src/Oci/Tests.antt =====
-- runtime/pullrun-oci/src/dockerfile.rs: a Dockerfile of one stage.
use pullrun.Base.{ℕ, inl, inr, ◌≡◌, refl, Option, none, some, List, [], ◌∷◌}
use pullrun.Base.Words.{Bytes}
use pullrun.Base.Text.{starts_with, eq_bytes, split_on}
use pullrun.Oci.Words.{lines, strip_suffix}
use pullrun.Oci.Lines.{preprocess_loop, preprocess_lines, blocks_loop, split_into_blocks}
use pullrun.Oci.Instruction.{env, label, arg, user, ok, panic, keyword, parse_instruction}
use pullrun.Oci.Instruction.Print.{line, env_text, parse_instruction-line}
use pullrun.Oci.Dockerfile.{BuildStage, parse_from, parse_block, parse_blocks, parse}
use pullrun.Oci.Dockerfile.Stages.{AreStages, parse-AreStages}
use pullrun.Oci.Lines.Kept.{flatten}

abbrev json : Bytes → Option (List Bytes)
json s = none

abbrev parse_u16 : Bytes → Option ℕ
parse_u16 s = some 80

-- `FROM a`, `USER b` with a continuation before `b`.
abbrev content : Bytes
content =
    b'F' ∷ b'R' ∷ b'O' ∷ b'M' ∷ 32 ∷ b'a' ∷ 10 ∷ b'#' ∷ b'x' ∷ 10 ∷ b'U' ∷ b's' ∷ b'e' ∷ b'r' ∷ 32
    ∷ b'\\' ∷ 10 ∷ b'b' ∷ 10 ∷ []

abbrev stage : BuildStage
stage = record {
  from_image = b'a' ∷ [];
  instructions = user (b'b' ∷ []) ∷ [];
  name = none;
  platform = none;
}

parsed : parse json parse_u16 content ≡ ok (stage ∷ [])
unfolding parse parse_blocks parse_block parse_from parse_instruction keyword preprocess_lines
    preprocess_loop lines split_on strip_suffix starts_with eq_bytes blocks_loop split_into_blocks
parsed = refl

parse-AreStages_example :
    (blocks : List (List Bytes)) × (flatten blocks ≡ preprocess_lines content)
    × AreStages json parse_u16 blocks (stage ∷ [])
parse-AreStages_example = parse-AreStages json parse_u16 content (stage ∷ []) parsed

abbrev label_word : Bytes
label_word = b'l' ∷ b'a' ∷ b'B' ∷ b'e' ∷ b'l' ∷ []

abbrev arg_word : Bytes
arg_word = b'A' ∷ b'r' ∷ b'g' ∷ []

parse_instruction-line_example :
    (parse_instruction json parse_u16 (line env_text (b'k' ∷ []) (b'a' ∷ 32 ∷ b'b' ∷ []))
      ≡ ok (env (b'k' ∷ []) (b'a' ∷ 32 ∷ b'b' ∷ [])))
    × (parse_instruction json parse_u16 (line label_word (b'k' ∷ []) (b'a' ∷ 32 ∷ b'b' ∷ []))
        ≡ ok (label (b'k' ∷ []) (b'a' ∷ 32 ∷ b'b' ∷ [])))
    × (parse_instruction json parse_u16 (line arg_word (b'k' ∷ []) (b'a' ∷ 32 ∷ b'b' ∷ []))
        ≡ ok (arg (b'k' ∷ []) (some (b'a' ∷ 32 ∷ b'b' ∷ []))))
parse_instruction-line_example =
    parse_instruction-line json parse_u16 env_text label_word arg_word (b'k' ∷ [])
      (b'a' ∷ 32 ∷ b'b' ∷ []) (inl refl, (inl refl, (inl refl, tt)))
      (inr refl, (inr refl, (inl refl, (inr refl, (inr refl, tt)))))
      (inl refl, (inr refl, (inr refl, tt))) ((refl, tt), (refl, tt)) (refl, refl)

-- `--platform=x` without an image.
no_image :
    parse_from
      (b'-' ∷ b'-' ∷ b'p' ∷ b'l' ∷ b'a' ∷ b't' ∷ b'f' ∷ b'o' ∷ b'r' ∷ b'm' ∷ b'=' ∷ b'x' ∷ [])
    ≡ panic
unfolding parse_from starts_with
no_image = refl
