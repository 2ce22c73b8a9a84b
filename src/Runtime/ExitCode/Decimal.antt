-- ===== src/Runtime/ExitCode/Decimal.antt =====
-- runtime/pullrun-runtime/src/service.rs: a number written in decimal digits is read back.
use pullrun.Base.{
  ℕ, zero, suc, ◌+◌, ◌-◌, ◌*◌, ◌/◌, ◌%◌, ◌<◌, ◌≡◌, true, false, some, [], ◌∷◌, ◌==◌, ltb, All,
  Bool-cases, inl, inr, arith, ◌∙◌, ap, subst, sym, ltb→lt, ltb→le, lt→ltb,
}
use pullrun.Base.Words.{Bytes, u32_mod}
use pullrun.Runtime.ExitCode.{is_digit, digits_value, parse_u32}

-- `to_string` of an unsigned number: its digits, in front of those that follow.
unfoldable pub digits : ℕ → ℕ → Bytes → Bytes
digits zero n behind = behind
digits (suc fuel) n behind = elim (ltb n 10) [
  | true ↦ (b'0' + n) ∷ behind
  | false ↦ digits fuel (n / 10) ((b'0' + n % 10) ∷ behind)
]

unfoldable pub to_string : ℕ → Bytes
to_string n = digits (suc n) n []

digits-last : (fuel n : ℕ) (s : Bytes) → ltb n 10 ≡ true → digits (suc fuel) n s ≡ (b'0' + n) ∷ s
unfolding digits
digits-last fuel n s h = rw (h, digits)

digits-more :
    (fuel n : ℕ) (s : Bytes)
    → ltb n 10 ≡ false
    → digits (suc fuel) n s ≡ digits fuel (n / 10) ((b'0' + n % 10) ∷ s)
unfolding digits
digits-more fuel n s h = rw (h, digits)

value-digit :
    (acc d : ℕ) (s : Bytes)
    → d < 10
    → acc * 10 + d < u32_mod
    → digits_value acc ((b'0' + d) ∷ s) ≡ digits_value (acc * 10 + d) s
unfolding digits_value
value-digit acc d s h k =
    let e : b'0' + d - b'0' ≡ d = omega arith in
    let y : (is_digit (b'0' + d)) ≡ true = ground (arith, h) in rw (e, y, lt→ltb _ _ k)

value-digits :
    (fuel n : ℕ) (s : Bytes)
    → n < fuel
    → n < u32_mod
    → digits_value 0 (digits fuel n s) ≡ digits_value n s
unfolding digits
value-digits zero n s h k = absurd (omega (arith, h))
value-digits (suc fuel) n s h k = elim (Bool-cases (ltb n 10)) [
  | inl y ↦
      let e : 0 * 10 + n ≡ n = omega arith in
      ap (digits_value 0) (digits-last fuel n s y)
      ∙ value-digit 0 n s (ltb→lt _ _ y) (omega (arith, k))
      ∙ ap (λ m. digits_value m s) e
  | inr f ↦
      let big = ltb→le _ _ f in
      let e : n / 10 * 10 + n % 10 ≡ n = omega arith in
      ap (digits_value 0) (digits-more fuel n s f)
      ∙ value-digits fuel (n / 10) ((b'0' + n % 10) ∷ s) (omega (arith, h, big)) (omega (arith, k))
      ∙ value-digit (n / 10) (n % 10) s (omega arith) (omega (arith, e, k))
      ∙ ap (λ m. digits_value m s) e
]

abbrev pub IsDigits : Bytes → Type 0
IsDigits s = All (λ c. is_digit c ≡ true) s

digit_small : (d : ℕ) → d < 10 → is_digit (b'0' + d) ≡ true
digit_small d h = ground (arith, h)

pub digits-All : (fuel n : ℕ) (s : Bytes) → IsDigits s → IsDigits (digits fuel n s)
unfolding digits
digits-All zero n s h = h
digits-All (suc fuel) n s h = elim (Bool-cases (ltb n 10)) [
  | inl y ↦ subst IsDigits (sym (digits-last fuel n s y)) (digit_small n (ltb→lt _ _ y), h)
  | inr f ↦
      subst IsDigits (sym (digits-more fuel n s f))
        (digits-All fuel (n / 10) ((b'0' + n % 10) ∷ s) (digit_small (n % 10) (omega arith), h))
]

-- The digits are not empty.
digits-cons :
    (fuel n : ℕ) (s : Bytes) → n < fuel → (c : ℕ) × (t : Bytes) × (digits fuel n s ≡ c ∷ t)
unfolding digits
digits-cons zero n s h = absurd (omega (arith, h))
digits-cons (suc fuel) n s h = elim (Bool-cases (ltb n 10)) [
  | inl y ↦ (b'0' + n, s, digits-last fuel n s y)
  | inr f ↦
      let big = ltb→le _ _ f in
      let (c, t, e) = digits-cons fuel (n / 10) ((b'0' + n % 10) ∷ s) (omega (arith, h, big)) in
      (c, t, digits-more fuel n s f ∙ e)
]

parse-plain :
    (s : Bytes) (c : ℕ) (t : Bytes)
    → s ≡ c ∷ t
    → All (λ c. is_digit c ≡ true) s
    → parse_u32 s ≡ digits_value 0 s
unfolding parse_u32
parse-plain [] c t e h = cc
parse-plain (a ∷ s) c t e h = let other : (a == b'+') ≡ false = ground (arith, h.0) in rw other

pub parse_u32-to_string : (n : ℕ) → n < u32_mod → parse_u32 (to_string n) ≡ some n
unfolding to_string digits_value
parse_u32-to_string n h =
    let (c, t, e) = digits-cons (suc n) n [] (omega arith) in
    parse-plain (digits (suc n) n []) c t e (digits-All (suc n) n [] tt)
    ∙ value-digits (suc n) n [] (omega arith) h
