-- ===== src/Oci/Words.antt =====
-- What runtime/pullrun-oci/src/dockerfile.rs uses of the standard library on ASCII text.
use pullrun.Base.{
  ℕ, ◌-◌, Bool, true, false, ◌&&◌, ◌||◌, Option, none, some, List, [], ◌∷◌, ◌++◌, ◌==◌, leb,
  if◌then◌else◌,
}
use pullrun.Base.Words.{Bytes}
use pullrun.Base.Text.{split_on}
use pullrun.Base.Trim.{is_space}

abbrev pub is_empty : Bytes → Bool
is_empty [] = true
is_empty (c ∷ s) = false

-- `lines()`: a last part that is empty is no line.
abbrev pub drop_empty_last : List Bytes → List Bytes
drop_empty_last [] = []
drop_empty_last (p ∷ []) = if is_empty p then [] else p ∷ []
drop_empty_last (p ∷ q ∷ ps) = p ∷ drop_empty_last (q ∷ ps)

unfoldable pub lines : Bytes → List Bytes
lines s = drop_empty_last (split_on 10 s)

abbrev pub upper_char : ℕ → ℕ
upper_char c = if leb 97 c && leb c 122 then c - 32 else c

abbrev pub to_uppercase : Bytes → Bytes
to_uppercase [] = []
to_uppercase (c ∷ s) = upper_char c ∷ to_uppercase s

-- `ends_with` and `strip_suffix` of one character.
abbrev pub ends_with : ℕ → Bytes → Bool
ends_with c [] = false
ends_with c (b ∷ []) = b == c
ends_with c (b ∷ a ∷ s) = ends_with c (a ∷ s)

abbrev pub cons_some : ℕ → Option Bytes → Option Bytes
cons_some c none = none
cons_some c (some s) = some (c ∷ s)

unfoldable pub strip_suffix : ℕ → Bytes → Option Bytes
strip_suffix c [] = none
strip_suffix c (b ∷ []) = if b == c then some [] else none
strip_suffix c (b ∷ a ∷ s) = cons_some b (strip_suffix c (a ∷ s))

-- The text before the first character that passes the test, and the text from there on.
abbrev pub before : (ℕ → Bool) → Bytes → Bytes
before test [] = []
before test (c ∷ s) = let rest = before test s in if test c then [] else c ∷ rest

abbrev pub from : (ℕ → Bool) → Bytes → Bytes
from test [] = []
from test (c ∷ s) = let rest = from test s in if test c then c ∷ s else rest

abbrev pub any : (ℕ → Bool) → Bytes → Bool
any test [] = false
any test (c ∷ s) = test c || any test s

abbrev pub tail : Bytes → Bytes
tail [] = []
tail (c ∷ s) = s

abbrev pub onto : Bytes → List Bytes → List Bytes
onto [] ws = ws
onto (c ∷ s) ws = (c ∷ s) ∷ ws

-- `split_whitespace()`, with the word under way.
abbrev pub words_from : Bytes → Bytes → List Bytes
words_from word [] = onto word []
words_from word (c ∷ s) = elim (is_space c) [
  | true ↦ onto word (words_from [] s)
  | false ↦ words_from (word ++ c ∷ []) s
]

abbrev pub split_whitespace : Bytes → List Bytes
split_whitespace s = words_from [] s

-- `join(" ")`
abbrev pub join : List Bytes → Bytes
join [] = []
join (w ∷ []) = w
join (w ∷ v ∷ ws) = w ++ 32 ∷ join (v ∷ ws)
