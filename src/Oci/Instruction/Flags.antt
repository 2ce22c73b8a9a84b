-- ===== src/Oci/Instruction/Flags.antt =====
-- runtime/pullrun-oci/src/dockerfile.rs: the loop over the flags of COPY ends.
use pullrun.Base.{
  ℕ, zero, suc, ◌≤◌, ◌<◌, ◌≡◌, ◌≢◌, refl, inl, inr, Bool, true, false, Option, none, some, List, [],
  ◌∷◌, if◌then◌else◌, Bool-cases, length, arith,
}
use pullrun.Base.Words.{Bytes}
use pullrun.Base.Text.{starts_with}
use pullrun.Base.Trim.{is_space, trim, trim_start, trim_end, push_kept}
use pullrun.Oci.Words.{to_uppercase, before, from, split_whitespace}
use pullrun.Oci.Instruction.{
  Instruction, Parsed, endless, in_brackets, copy_of, copy_exec, is_blank, skip_flags, copy_or_add,
  parse_copy_add, run_exec, shell_exec, port_of, Keyword, keyword, dispatch, parse_instruction,
}

length-trim_start : (s : Bytes) → length (trim_start s) ≤ length s
length-trim_start [] = omega arith
length-trim_start (c ∷ s) = ground (arith, length-trim_start s)

length-push_kept : (c : ℕ) (s : Bytes) → length (push_kept c s) ≤ suc (length s)
length-push_kept c [] = ground arith
length-push_kept c (k ∷ ks) = omega arith

length-trim_end : (s : Bytes) → length (trim_end s) ≤ length s
length-trim_end [] = omega arith
length-trim_end (c ∷ s) = omega (arith, length-trim_end s, length-push_kept c (trim_end s))

length-trim : (s : Bytes) → length (trim s) ≤ length s
length-trim s = omega (arith, length-trim_end (trim_start s), length-trim_start s)

length-from : (test : ℕ → Bool) (s : Bytes) → length (from test s) ≤ length s
length-from test [] = omega arith
length-from test (c ∷ s) = ground (arith, length-from test s)

flag_dropped :
    (s : Bytes) → starts_with (b'-' ∷ b'-' ∷ []) s ≡ true → length (from is_blank s) < length s
unfolding starts_with
flag_dropped [] h = cc
flag_dropped (c ∷ s) h = ground (arith, length-from is_blank s)

skip_flags-ends : (fuel : ℕ) (rest : Bytes) → length rest < fuel → skip_flags fuel rest ≢ none
unfolding skip_flags
skip_flags-ends zero rest h e = absurd (omega arith)
skip_flags-ends (suc fuel) rest h e =
    elim (Bool-cases (starts_with (b'-' ∷ b'-' ∷ []) (trim_start rest))) [
      | inl y ↦
          skip_flags-ends fuel (trim (from is_blank (trim_start rest)))
            (omega (
              arith,
              flag_dropped (trim_start rest) y,
              length-trim_start rest,
              length-trim (from is_blank (trim_start rest)),
            ))
            (rw (skip_flags, y) at e)
      | inr n ↦ cc (n, e)
    ]

module _ (json : Bytes → Option (List Bytes)) (parse_u16 : Bytes → Option ℕ) where
  copy_of-ends : (rest : Bytes) (parts : List Bytes) → copy_of rest parts ≢ endless
  copy_of-ends rest [] = λ e. cc
  copy_of-ends rest (s ∷ []) = λ e. cc
  copy_of-ends rest (s ∷ t ∷ ts) = λ e. cc

  copy_exec-ends : (rest : Bytes) (o : Option (List Bytes)) → copy_exec rest o ≢ endless
  copy_exec-ends rest none = λ e. cc
  copy_exec-ends rest (some parts) = copy_of-ends rest parts

  either :
      (b : Bool) (x y : Parsed Instruction)
      → x ≢ endless
      → y ≢ endless
      → (if b then x else y) ≢ endless
  either true x y f g = f
  either false x y f g = g

  copy_or_add-ends : (o : Option Bytes) → o ≢ none → copy_or_add json parse_u16 o ≢ endless
  copy_or_add-ends none h = absurd (h refl)
  copy_or_add-ends (some rest) h =
      either (in_brackets rest) _ _ (copy_exec-ends rest (json rest))
        (copy_of-ends rest (split_whitespace rest))

  parse_copy_add-ends : (args : Bytes) → parse_copy_add json parse_u16 args ≢ endless
  unfolding parse_copy_add
  parse_copy_add-ends args =
      copy_or_add-ends _
        (skip_flags-ends (suc (length args)) (trim args) (omega (arith, length-trim args)))

  run_exec-ends :
      (args : Bytes) (o : Option (List Bytes)) → run_exec json parse_u16 args o ≢ endless
  run_exec-ends args none = λ e. cc
  run_exec-ends args (some parts) = λ e. cc

  shell_exec-ends :
      (args : Bytes) (o : Option (List Bytes)) → shell_exec json parse_u16 args o ≢ endless
  shell_exec-ends args none = λ e. cc
  shell_exec-ends args (some parts) = λ e. cc

  port_of-ends : (args : Bytes) (o : Option ℕ) → port_of json parse_u16 args o ≢ endless
  port_of-ends args none = λ e. cc
  port_of-ends args (some port) = λ e. cc

  dispatch-ends : (k : Keyword) (word args : Bytes) → dispatch json parse_u16 k word args ≢ endless
  dispatch-ends Keyword.run_word word args =
      either (in_brackets args) _ _ (run_exec-ends args (json args)) (λ e. cc)
  dispatch-ends Keyword.copy_word word args = parse_copy_add-ends args
  dispatch-ends Keyword.add_word word args = parse_copy_add-ends args
  dispatch-ends Keyword.expose_word word args = port_of-ends args _
  dispatch-ends Keyword.shell_word word args =
      either (in_brackets args) _ _ (shell_exec-ends args (json args)) (λ e. cc)
  dispatch-ends k word args = λ e. cc

  pub parse_instruction-ends : (line : Bytes) → parse_instruction json parse_u16 line ≢ endless
  unfolding parse_instruction
  parse_instruction-ends line =
      either (in_brackets (trim line)) _ _ (λ e. cc)
        (dispatch-ends (keyword (to_uppercase (before is_space line))) _ _)
