-- ===== src/Oci/Instruction/Print.antt =====
-- runtime/pullrun-oci/src/dockerfile.rs: instructions that assign a value to a key read back.
use pullrun.Base.{
  ℕ, ◌+◌, ◌≤◌, ◌⊎◌, inl, inr, ◌≡◌, refl, ap, ◌∙◌, Bool, true, false, Option, some, List, [], ◌∷◌,
  ◌++◌, ◌==◌, All, arith,
}
use pullrun.Base.Words.{Bytes}
use pullrun.Base.Text.{starts_with, eq_bytes}
use pullrun.Base.Trim.{is_space, trim, trim_start, trim_end, push_kept, IsName, trim_kept}
use pullrun.Oci.Words.{to_uppercase, upper_char, before, from, any}
use pullrun.Oci.Instruction.{
  env, label, arg, ok, in_brackets, is_equals, parse_key_value, arg_of, with_pair, keyword,
  dispatch, parse_instruction,
}

module _ (test : ℕ → Bool) (c : ℕ) (hit : test c ≡ true) (v : Bytes) where
  before-append : (s : Bytes) → All (λ b. test b ≡ false) s → before test (s ++ c ∷ v) ≡ s
  before-append [] h = rw hit
  before-append (b ∷ s) (h, t) = rw (h, before-append s t)

  from-append : (s : Bytes) → All (λ b. test b ≡ false) s → from test (s ++ c ∷ v) ≡ c ∷ v
  from-append [] h = rw hit
  from-append (b ∷ s) (h, t) = rw (h, from-append s t)

  any-append : (s : Bytes) → any test (s ++ c ∷ v) ≡ true
  any-append [] = rw hit
  any-append (b ∷ s) = ground (arith, any-append s)

push_kept_self : (c : ℕ) (s : Bytes) → is_space c ≡ false → push_kept c s ≡ c ∷ s
push_kept_self c [] h = rw h
push_kept_self c (k ∷ ks) h = refl

trim_end-append :
    (s v : Bytes) → All (λ b. is_space b ≡ false) s → trim_end v ≡ v → trim_end (s ++ v) ≡ s ++ v
trim_end-append [] v h e = e
trim_end-append (c ∷ s) v (h, t) e =
    ap (push_kept c) (trim_end-append s v t e) ∙ push_kept_self c (s ++ v) h

-- A value has no blank at its ends.
abbrev pub IsTrimmed : Bytes → Type 0
IsTrimmed v = (trim_start v ≡ v) × (trim_end v ≡ v)

trim-value : (v : Bytes) → IsTrimmed v → trim v ≡ v
trim-value v (s, e) = ap trim_end s ∙ e

-- A key has no blank and no equality sign.
abbrev pub IsKey : Bytes → Type 0
IsKey k = IsName k × All (λ c. is_equals c ≡ false) k

trim-pair : (k v : Bytes) → IsName k → IsTrimmed v → trim (k ++ b'=' ∷ v) ≡ k ++ b'=' ∷ v
trim-pair [] v h t = absurd h
trim-pair (c ∷ k) v h (s, e) =
    rw h.0
      (trim_end-append (c ∷ k) (b'=' ∷ v) h (ap (push_kept b'=') e ∙ push_kept_self b'=' v refl))

key_value : (k v : Bytes) → IsKey k → IsTrimmed v → parse_key_value (k ++ b'=' ∷ v) ≡ (k, v)
unfolding parse_key_value
key_value k v (n, free) t = rw (
  trim-pair k v n t,
  any-append is_equals b'=' refl v k,
  before-append is_equals b'=' refl v k free,
  from-append is_equals b'=' refl v k free,
  trim_kept k n,
  trim-value v t,
)

abbrev pub line : Bytes → Bytes → Bytes → Bytes
line word k v = word ++ 32 ∷ (k ++ b'=' ∷ v)

abbrev pub env_text : Bytes
env_text = b'E' ∷ b'N' ∷ b'V' ∷ []

abbrev pub label_text : Bytes
label_text = b'L' ∷ b'A' ∷ b'B' ∷ b'E' ∷ b'L' ∷ []

abbrev pub arg_text : Bytes
arg_text = b'A' ∷ b'R' ∷ b'G' ∷ []

abbrev pub IsUpper : Bytes → Type 0
IsUpper upper = All (λ c. (65 ≤ c) × (c ≤ 90)) upper

-- Letter by letter the word in upper case, or the letter in lower case.
abbrev pub IsSpelled : Bytes → Bytes → Type 0
IsSpelled [] [] = Unit
IsSpelled (c ∷ word) (u ∷ upper) = ((c ≡ u) ⊎ (c ≡ u + 32)) × IsSpelled word upper
IsSpelled [] (u ∷ upper) = ⊥
IsSpelled (c ∷ word) [] = ⊥

env_text-IsUpper : IsUpper env_text
env_text-IsUpper =
    ((omega arith, omega arith), ((omega arith, omega arith), ((omega arith, omega arith), tt)))

label_text-IsUpper : IsUpper label_text
label_text-IsUpper = (
  (omega arith, omega arith),
  (
    (omega arith, omega arith),
    ((omega arith, omega arith), ((omega arith, omega arith), ((omega arith, omega arith), tt))),
  ),
)

arg_text-IsUpper : IsUpper arg_text
arg_text-IsUpper =
    ((omega arith, omega arith), ((omega arith, omega arith), ((omega arith, omega arith), tt)))

upper_char-letter :
    (c u : ℕ)
    → 65 ≤ u
    → u ≤ 90
    → (c ≡ u) ⊎ (c ≡ u + 32)
    → (upper_char c ≡ u) × (is_space c ≡ false) × ((b'[' == c) ≡ false)
upper_char-letter c u low high (inl e) = (ground arith, ground arith, ground arith)
upper_char-letter c u low high (inr e) = (ground arith, ground arith, ground arith)

to_uppercase-IsSpelled :
    (word upper : Bytes)
    → IsUpper upper
    → IsSpelled word upper
    → (to_uppercase word ≡ upper) × All (λ b. is_space b ≡ false) word
to_uppercase-IsSpelled [] [] up sp = (refl, tt)
to_uppercase-IsSpelled [] (u ∷ upper) up sp = absurd sp
to_uppercase-IsSpelled (c ∷ word) [] up sp = absurd sp
to_uppercase-IsSpelled (c ∷ word) (u ∷ upper) ((low, high), up) (here, sp) =
    let (e, space, bracket) = upper_char-letter c u low high here in
    let (es, spaces) = to_uppercase-IsSpelled word upper up sp in (rw (e, es), (space, spaces))

bare :
    (c : ℕ) (s : Bytes)
    → is_space c ≡ false
    → (b'[' == c) ≡ false
    → in_brackets (trim (c ∷ s)) ≡ false
unfolding starts_with
bare c s h n = rw (h, push_kept_self c (trim_end s) h, n)

module _ (json : Bytes → Option (List Bytes)) (parse_u16 : Bytes → Option ℕ) where
  arg-pair :
      (k v : Bytes) → IsKey k → IsTrimmed v → arg_of json parse_u16 (k ++ b'=' ∷ v) ≡ arg k (some v)
  arg-pair k v (n, free) t = rw (
    any-append is_equals b'=' refl v k,
    before-append is_equals b'=' refl v k free,
    from-append is_equals b'=' refl v k free,
    trim_kept k n,
    trim-value v t,
  )

  -- A line of a word, a blank and arguments.
  statement :
      (c : ℕ) (word args : Bytes)
      → All (λ b. is_space b ≡ false) (c ∷ word)
      → (b'[' == c) ≡ false
      → trim args ≡ args
      → parse_instruction json parse_u16 (c ∷ word ++ 32 ∷ args)
        ≡ dispatch json parse_u16 (keyword (to_uppercase (c ∷ word))) (to_uppercase (c ∷ word)) args
  unfolding parse_instruction
  statement c word args h n t = rw (
    bare c (word ++ 32 ∷ args) h.0 n,
    before-append is_space 32 refl args (c ∷ word) h,
    from-append is_space 32 refl args (c ∷ word) h,
    t,
  )

  -- The line of a keyword in upper case, however it is spelled.
  spelled :
      (word : Bytes) (u : ℕ) (upper args : Bytes)
      → IsUpper (u ∷ upper)
      → IsSpelled word (u ∷ upper)
      → trim args ≡ args
      → parse_instruction json parse_u16 (word ++ 32 ∷ args)
        ≡ dispatch json parse_u16 (keyword (u ∷ upper)) (u ∷ upper) args
  spelled [] u upper args up sp t = absurd sp
  spelled (c ∷ word) u upper args up sp t =
      let (e, spaces) = to_uppercase-IsSpelled (c ∷ word) (u ∷ upper) up sp in
      let (e1, space, bracket) = upper_char-letter c u up.0.0 up.0.1 sp.0 in
      statement c word args spaces bracket t
      ∙ ap (λ w. dispatch json parse_u16 (keyword w) w args) e

  -- The lines `ENV k=v`, `LABEL k=v` and `ARG k=v`, the keyword in any mixture of cases, parse to their
  -- instruction with key `k` and value `v`, where the key is not empty and has no blank and no equality
  -- sign, and the value has no blank at its ends.
  pub parse_instruction-line :
      (env_word label_word arg_word k v : Bytes)
      → IsSpelled env_word env_text
      → IsSpelled label_word label_text
      → IsSpelled arg_word arg_text
      → IsKey k
      → IsTrimmed v
      → (parse_instruction json parse_u16 (line env_word k v) ≡ ok (env k v))
        × (parse_instruction json parse_u16 (line label_word k v) ≡ ok (label k v))
        × (parse_instruction json parse_u16 (line arg_word k v) ≡ ok (arg k (some v)))
  unfolding keyword eq_bytes
  parse_instruction-line env_word label_word arg_word k v e l a h t =
      let args : Bytes = k ++ b'=' ∷ v in
      let kept : trim args ≡ args = trim-pair k v h.0 t in
      let pair : parse_key_value args ≡ (k, v) = key_value k v h t in
      (
        spelled env_word b'E' (b'N' ∷ b'V' ∷ []) args env_text-IsUpper e kept
            ∙ ap (with_pair json parse_u16 env) pair,
        spelled label_word b'L' (b'A' ∷ b'B' ∷ b'E' ∷ b'L' ∷ []) args label_text-IsUpper l kept
            ∙ ap (with_pair json parse_u16 label) pair,
        spelled arg_word b'A' (b'R' ∷ b'G' ∷ []) args arg_text-IsUpper a kept
            ∙ ap ok (arg-pair k v h t),
      )
