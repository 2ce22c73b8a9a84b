-- ===== src/Oci/Instruction.antt =====
-- runtime/pullrun-oci/src/dockerfile.rs: one instruction. `json` stands for `serde_json::from_str` on
-- a list of strings and `parse_u16` for the parser of the standard library.
pub mod Flags
pub mod Print
use pullrun.Base.{
  ℕ, zero, suc, ◌+◌, ◌-◌, Bool, true, false, ◌&&◌, ◌||◌, Option, none, some, List, [], ◌∷◌, ◌++◌,
  ◌==◌, ltb, if◌then◌else◌, length,
}
use pullrun.Base.Words.{Bytes}
use pullrun.Base.Text.{starts_with, eq_bytes, split_on}
use pullrun.Base.Trim.{is_space, trim, trim_start}
use pullrun.Oci.Words.{to_uppercase, ends_with, before, from, any, tail, split_whitespace}

pub data Instruction : Type 0 where
  run : List Bytes → Instruction
  copy : List Bytes → Bytes → Instruction
  work_dir : Bytes → Instruction
  env : Bytes → Bytes → Instruction
  cmd entrypoint : List Bytes → Instruction
  expose : ℕ → Instruction
  label : Bytes → Bytes → Instruction
  user : Bytes → Instruction
  arg : Bytes → Option Bytes → Instruction
  shell : List Bytes → Instruction
  add : List Bytes → Bytes → Instruction
  comment : Bytes → Instruction

-- The texts of the errors, as data.
pub data ParseError : Type 0 where
  not_from bare_json invalid_run invalid_copy invalid_shell copy_needs_two invalid_port :
      Bytes → ParseError
  no_stages : ParseError

-- `panic` is an index out of bounds, `endless` a loop that has used up its rounds.
pub data Parsed {ℓ} (A : Type ℓ) : Type ℓ where
  ok : A → Parsed A
  err : ParseError → Parsed A
  panic endless : Parsed A

abbrev pub sh_c : Bytes → List Bytes
sh_c s = (b'/' ∷ b'b' ∷ b'i' ∷ b'n' ∷ b'/' ∷ b's' ∷ b'h' ∷ []) ∷ (b'-' ∷ b'c' ∷ []) ∷ s ∷ []

abbrev pub in_brackets : Bytes → Bool
in_brackets s = starts_with (b'[' ∷ []) s && ends_with b']' s

-- `parse_key_value`
abbrev pub is_equals : ℕ → Bool
is_equals c = c == b'='

abbrev pub cut : (ℕ → Bool) → Bytes → Bytes × Bytes
cut test s = (trim (before test s), trim (tail (from test s)))

unfoldable pub parse_key_value : Bytes → Bytes × Bytes
parse_key_value s =
    if any is_equals (trim s)
    then cut is_equals (trim s)
    else if any is_space (trim s)
    then cut is_space (trim s)
    else (trim s, [])

-- The loop of `parse_copy_add` that skips flags.
abbrev pub is_blank : ℕ → Bool
is_blank c = c == 32

unfoldable pub skip_flags : ℕ → Bytes → Option Bytes
skip_flags zero rest = none
skip_flags (suc fuel) rest = elim (starts_with (b'-' ∷ b'-' ∷ []) (trim_start rest)) [
  | true ↦ skip_flags fuel (trim (from is_blank (trim_start rest)))
  | false ↦ some rest
]

-- The last of a list, and what stands before it.
abbrev pub last_of : Bytes → List Bytes → Bytes
last_of s [] = s
last_of s (t ∷ ts) = last_of t ts

abbrev pub all_but_last : Bytes → List Bytes → List Bytes
all_but_last s [] = []
all_but_last s (t ∷ ts) = s ∷ all_but_last t ts

abbrev pub copy_of : Bytes → List Bytes → Parsed Instruction
copy_of rest [] = err (copy_needs_two rest)
copy_of rest (s ∷ []) = err (copy_needs_two rest)
copy_of rest (s ∷ t ∷ ts) = ok (copy (all_but_last s (t ∷ ts)) (last_of s (t ∷ ts)))

abbrev pub copy_exec : Bytes → Option (List Bytes) → Parsed Instruction
copy_exec rest none = err (invalid_copy rest)
copy_exec rest (some parts) = copy_of rest parts

-- The arms of the match on the first word, in upper case.
pub data Keyword : Type 0 where
  run_word copy_word add_word workdir_word env_word cmd_word entrypoint_word expose_word label_word
        user_word arg_word shell_word other_word :
      Keyword

unfoldable pub keyword : Bytes → Keyword
keyword word =
    if eq_bytes word (b'R' ∷ b'U' ∷ b'N' ∷ [])
    then run_word
    else if eq_bytes word (b'C' ∷ b'O' ∷ b'P' ∷ b'Y' ∷ [])
    then copy_word
    else if eq_bytes word (b'A' ∷ b'D' ∷ b'D' ∷ [])
    then add_word
    else if eq_bytes word (b'W' ∷ b'O' ∷ b'R' ∷ b'K' ∷ b'D' ∷ b'I' ∷ b'R' ∷ [])
    then workdir_word
    else if eq_bytes word (b'E' ∷ b'N' ∷ b'V' ∷ [])
    then env_word
    else if eq_bytes word (b'C' ∷ b'M' ∷ b'D' ∷ [])
    then cmd_word
    else if eq_bytes word (b'E' ∷ b'N' ∷ b'T' ∷ b'R' ∷ b'Y' ∷ b'P' ∷ b'O' ∷ b'I' ∷ b'N' ∷ b'T' ∷ [])
    then entrypoint_word
    else if eq_bytes word (b'E' ∷ b'X' ∷ b'P' ∷ b'O' ∷ b'S' ∷ b'E' ∷ [])
    then expose_word
    else if eq_bytes word (b'L' ∷ b'A' ∷ b'B' ∷ b'E' ∷ b'L' ∷ [])
    then label_word
    else if eq_bytes word (b'U' ∷ b'S' ∷ b'E' ∷ b'R' ∷ [])
    then user_word
    else if eq_bytes word (b'A' ∷ b'R' ∷ b'G' ∷ [])
    then arg_word
    else if eq_bytes word (b'S' ∷ b'H' ∷ b'E' ∷ b'L' ∷ b'L' ∷ [])
    then shell_word
    else other_word

module _ (json : Bytes → Option (List Bytes)) (parse_u16 : Bytes → Option ℕ) where
  abbrev pub copy_or_add : Option Bytes → Parsed Instruction
  copy_or_add none = endless
  copy_or_add (some rest) =
      if in_brackets rest then copy_exec rest (json rest) else copy_of rest (split_whitespace rest)

  unfoldable pub parse_copy_add : Bytes → Parsed Instruction
  parse_copy_add args = copy_or_add (skip_flags (suc (length args)) (trim args))

  abbrev pub or_shell : Bytes → Option (List Bytes) → List Bytes
  or_shell s none = sh_c s
  or_shell s (some parts) = parts

  unfoldable pub parse_json_or_shell : Bytes → List Bytes
  parse_json_or_shell args =
      if in_brackets (trim args) then or_shell (trim args) (json (trim args)) else sh_c (trim args)

  abbrev pub run_exec : Bytes → Option (List Bytes) → Parsed Instruction
  run_exec args none = err (invalid_run args)
  run_exec args (some parts) = ok (run parts)

  abbrev pub shell_exec : Bytes → Option (List Bytes) → Parsed Instruction
  shell_exec args none = err (invalid_shell args)
  shell_exec args (some parts) = ok (shell parts)

  abbrev pub port_of : Bytes → Option ℕ → Parsed Instruction
  port_of args none = err (invalid_port args)
  port_of args (some port) = ok (expose port)

  abbrev pub is_slash : ℕ → Bool
  is_slash c = c == b'/'

  abbrev pub arg_of : Bytes → Instruction
  arg_of args =
      arg (trim (before is_equals args))
        (if any is_equals args then some (trim (tail (from is_equals args))) else none)

  abbrev pub with_pair : (Bytes → Bytes → Instruction) → Bytes × Bytes → Parsed Instruction
  with_pair make (key, value) = ok (make key value)

  abbrev pub dispatch : Keyword → Bytes → Bytes → Parsed Instruction
  dispatch run_word word args =
      if in_brackets args then run_exec args (json args) else ok (run (sh_c args))
  dispatch copy_word word args = parse_copy_add args
  dispatch add_word word args = parse_copy_add args
  dispatch workdir_word word args = ok (work_dir args)
  dispatch env_word word args = with_pair env (parse_key_value args)
  dispatch cmd_word word args = ok (cmd (parse_json_or_shell args))
  dispatch entrypoint_word word args = ok (entrypoint (parse_json_or_shell args))
  dispatch expose_word word args = port_of args (parse_u16 (trim (before is_slash args)))
  dispatch label_word word args = with_pair label (parse_key_value args)
  dispatch user_word word args = ok (user args)
  dispatch arg_word word args = ok (arg_of args)
  dispatch shell_word word args =
      if in_brackets args
      then shell_exec args (json args)
      else ok
          (shell ((b'/' ∷ b'b' ∷ b'i' ∷ b'n' ∷ b'/' ∷ b's' ∷ b'h' ∷ []) ∷ (b'-' ∷ b'c' ∷ []) ∷ []))
  dispatch other_word word args = ok (comment (word ++ 32 ∷ args))

  abbrev pub dispatch_word : Bytes → Bytes → Parsed Instruction
  dispatch_word word args = dispatch (keyword word) word args

  unfoldable pub parse_instruction : Bytes → Parsed Instruction
  parse_instruction line =
      if in_brackets (trim line)
      then err (bare_json (trim line))
      else dispatch_word (to_uppercase (before is_space line)) (trim (from is_space line))
