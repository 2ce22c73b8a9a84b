-- ===== src/Runtime/ExitCode/Forms.antt =====
-- runtime/pullrun-runtime/src/service.rs: the three encodings of an exit code.
use pullrun.Base.{
  ℕ, ◌+◌, ◌%◌, ◌<◌, ◌≡◌, refl, Bool, true, false, not, none, some, [], ◌∷◌, ◌++◌, ◌==◌, arith, ◌∙◌,
  ap,
}
use pullrun.Base.Words.{Bytes, u32_mod}
use pullrun.Base.Text.{starts_with}
use pullrun.Base.Trim.{is_space}
use pullrun.Runtime.Network.{strip_prefix}
use pullrun.Runtime.ExitCode.{
  is_digit, up_to, cons_some, behind, word, first_word, exit_code_text, exited_text, signal_text,
  parse_u32, parse_exit_code,
}
use pullrun.Runtime.ExitCode.Decimal.{to_string, digits-All, IsDigits, parse_u32-to_string}

to_string-All : (n : ℕ) → IsDigits (to_string n)
unfolding to_string
to_string-All n = digits-All _ n [] tt

up_to-digits :
    (test : ℕ → Bool) (s : Bytes) (c : ℕ) (t : Bytes)
    → ((d : ℕ) → is_digit d ≡ true → test d ≡ false)
    → test c ≡ true
    → IsDigits s
    → up_to test (s ++ c ∷ t) ≡ some s
unfolding up_to
up_to-digits test [] c t other h k = rw h
up_to-digits test (d ∷ s) c t other h k =
    rw (other d k.0) (ap (cons_some d) (up_to-digits test s c t other h k.1))

word-digits : (s : Bytes) → IsDigits s → word s ≡ s
word-digits [] h = refl
word-digits (d ∷ s) h =
    let other : is_space d ≡ false = ground (arith, h.0) in
    rw other (ap (◌∷◌ d) (word-digits s h.1))

first_word-digits : (s : Bytes) → IsDigits s → first_word s ≡ s
first_word-digits [] h = refl
first_word-digits (d ∷ s) h =
    let other : is_space d ≡ false = ground (arith, h.0) in
    rw other (ap (◌∷◌ d) (word-digits s h.1))

-- Neither `exited(` nor `signal ` begins with a digit.
exited-digits : (s : Bytes) → IsDigits s → behind exited_text (s ++ b')' ∷ []) ≡ none
unfolding behind starts_with strip_prefix
exited-digits [] h = refl
exited-digits (d ∷ s) h =
    let other : (b'e' == d) ≡ false = ground (arith, h.0) in rw other (exited-digits s h.1)

-- The text that `status` gives for a process that exited, and for one that a signal stopped.
abbrev pub exited_with : ℕ → Bytes
exited_with n = exited_text ++ to_string n ++ b')' ∷ []

abbrev pub stopped_by : ℕ → Bytes
stopped_by n =
    (b's' ∷ b't' ∷ b'o' ∷ b'p' ∷ b'p' ∷ b'e' ∷ b'd' ∷ b' ' ∷ b'(' ∷ [])
    ++ signal_text
    ++ to_string n
    ++ b')' ∷ []

-- Each of the three encodings of an exit code of 32 bits is read back: `exit_code=NN`, `exited(NN)`,
-- and `stopped (signal NN)`, which counts as 128 and the signal, modulo the word.
pub parse_exit_code-forms :
    (n : ℕ)
    → n < u32_mod
    → (parse_exit_code (exit_code_text ++ to_string n) ≡ some n)
      × (parse_exit_code (exited_with n) ≡ some n)
      × (parse_exit_code (stopped_by n) ≡ some ((128 + n) % u32_mod))
unfolding parse_exit_code strip_prefix starts_with behind
parse_exit_code-forms n h =
    let ds = to_string-All n in
    let read = parse_u32-to_string n h in
    (
      ap parse_u32 (first_word-digits (to_string n) ds) ∙ read,
      rw (up_to-digits (λ c. c == b')') (to_string n) b')' [] (λ d k. ground (arith, k)) refl ds)
          read,
      rw (
        exited-digits (to_string n) ds,
        up_to-digits (λ c. not (is_digit c)) (to_string n) b')' [] (λ d k. rw k) refl ds,
        read,
      ),
    )
