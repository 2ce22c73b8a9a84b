-- ===== src/Runtime/ExitCode.antt =====
-- runtime/pullrun-runtime/src/service.rs: `parse_exit_code`, and what it uses of the standard library
-- on ASCII text. A sum of 32 bits wraps around, as in a release build.
pub mod Decimal
pub mod Forms
use pullrun.Base.{
  ℕ, ◌+◌, ◌-◌, ◌*◌, ◌%◌, Bool, true, false, not, ◌&&◌, Option, none, some, [], ◌∷◌, ◌==◌, ltb, leb,
  if◌then◌else◌, drop, length,
}
use pullrun.Base.Words.{Bytes, u32_mod}
use pullrun.Base.Text.{starts_with}
use pullrun.Base.Trim.{is_space}
use pullrun.Runtime.Network.{strip_prefix}

abbrev pub is_digit : ℕ → Bool
is_digit c = leb b'0' c && leb c b'9'

unfoldable pub digits_value : ℕ → Bytes → Option ℕ
digits_value acc [] = some acc
digits_value acc (c ∷ s) =
    let rest = digits_value (acc * 10 + (c - b'0')) s in
    if is_digit c && ltb (acc * 10 + (c - b'0')) u32_mod then rest else none

abbrev pub filled_value : Bytes → Option ℕ
filled_value [] = none
filled_value (c ∷ s) = digits_value 0 (c ∷ s)

-- `s.parse::<u32>()`
unfoldable pub parse_u32 : Bytes → Option ℕ
parse_u32 [] = none
parse_u32 (c ∷ s) = if c == b'+' then filled_value s else digits_value 0 (c ∷ s)

-- The text up to the first character that passes the test, where there is one.
abbrev pub cons_some : ℕ → Option Bytes → Option Bytes
cons_some c none = none
cons_some c (some s) = some (c ∷ s)

unfoldable pub up_to : (ℕ → Bool) → Bytes → Option Bytes
up_to test [] = none
up_to test (c ∷ s) = let rest = up_to test s in if test c then some [] else cons_some c rest

-- The text behind the first place where `part` stands.
unfoldable pub behind : Bytes → Bytes → Option Bytes
behind part [] = strip_prefix part []
behind part (c ∷ s) =
    let rest = behind part s in
    if starts_with part (c ∷ s) then some (drop (length part) (c ∷ s)) else rest

abbrev pub word : Bytes → Bytes
word [] = []
word (c ∷ s) = let rest = word s in if is_space c then [] else c ∷ rest

abbrev pub first_word : Bytes → Bytes
first_word [] = []
first_word (c ∷ s) = let rest = first_word s in if is_space c then rest else word (c ∷ s)

abbrev pub exit_code_text : Bytes
exit_code_text = b'e' ∷ b'x' ∷ b'i' ∷ b't' ∷ b'_' ∷ b'c' ∷ b'o' ∷ b'd' ∷ b'e' ∷ b'=' ∷ []

abbrev pub exited_text : Bytes
exited_text = b'e' ∷ b'x' ∷ b'i' ∷ b't' ∷ b'e' ∷ b'd' ∷ b'(' ∷ []

abbrev pub signal_text : Bytes
signal_text = b's' ∷ b'i' ∷ b'g' ∷ b'n' ∷ b'a' ∷ b'l' ∷ b' ' ∷ []

-- Signals are the exit code 128 and up.
abbrev pub of_signal : Option ℕ → Option ℕ
of_signal none = none
of_signal (some sig) = some ((128 + sig) % u32_mod)

abbrev pub signal_number : Option Bytes → Option ℕ
signal_number none = none
signal_number (some digits) = of_signal (parse_u32 digits)

abbrev pub after_signal : Option Bytes → Option ℕ
after_signal none = none
after_signal (some rest) = signal_number (up_to (λ c. not (is_digit c)) rest)

abbrev pub in_parens : Bytes → Option Bytes → Option ℕ
in_parens s none = after_signal (behind signal_text s)
in_parens s (some code) = parse_u32 code

abbrev pub after_exited : Bytes → Option Bytes → Option ℕ
after_exited s none = after_signal (behind signal_text s)
after_exited s (some rest) = in_parens s (up_to (λ c. c == b')') rest)

abbrev pub after_exit_code : Bytes → Option Bytes → Option ℕ
after_exit_code s (some rest) = parse_u32 (first_word rest)
after_exit_code s none = after_exited s (behind exited_text s)

unfoldable pub parse_exit_code : Bytes → Option ℕ
parse_exit_code s = after_exit_code s (strip_prefix exit_code_text s)
