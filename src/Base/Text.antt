-- ===== src/Base/Text.antt =====
-- Byte strings: equality and splitting.
use Prim.Native.Nat.{ℕ}
use mathlib.Core.Path.{◌≡◌, refl, ap, ◌∙◌}
use mathlib.Core.Logic.{◌≢◌, inl, inr}
use mathlib.Core.Bool.{Bool, true, false, ◌&&◌, ◌||◌}
use mathlib.Core.List.{List, [], ◌∷◌, ◌++◌}
use native.Mathlib.Omega.{arith}
use pullrun.Base.Tests.{◌==◌, ==_iff, ==_refl, Bool-cases, if◌then◌else◌}
use pullrun.Base.Lists.{All}
use pullrun.Base.Words.{Bytes}

-- `==` of byte strings.
unfoldable pub eq_bytes : Bytes → Bytes → Bool
eq_bytes [] [] = true
eq_bytes [] (b ∷ t) = false
eq_bytes (a ∷ s) [] = false
eq_bytes (a ∷ s) (b ∷ t) = (a == b) && eq_bytes s t

pub eq_bytes_sound : (s t : Bytes) → eq_bytes s t ≡ true → s ≡ t
unfolding eq_bytes
eq_bytes_sound [] [] h = refl
eq_bytes_sound [] (b ∷ t) h = cc
eq_bytes_sound (a ∷ s) [] h = cc
eq_bytes_sound (a ∷ s) (b ∷ t) h = elim (Bool-cases (a == b)) [
  | inl e ↦ cc ((==_iff a b).0 e, eq_bytes_sound s t (rw e at h))
  | inr n ↦ cc (rw n at h)
]

pub eq_bytes_refl : (s : Bytes) → eq_bytes s s ≡ true
unfolding eq_bytes
eq_bytes_refl [] = refl
eq_bytes_refl (a ∷ s) = rw (==_refl a, eq_bytes_refl s)

-- `s.split(c)` for an ASCII character.
abbrev push_byte : ℕ → List Bytes → List Bytes
push_byte c [] = (c ∷ []) ∷ []
push_byte c (p ∷ ps) = (c ∷ p) ∷ ps

unfoldable pub split_on : ℕ → Bytes → List Bytes
split_on sep [] = [] ∷ []
split_on sep (c ∷ s) = let rest = split_on sep s in if c == sep then [] ∷ rest else push_byte c rest

-- Text without a separator is one part, up to the separator behind it.
pub split_on-append :
    (sep : ℕ) (s t : Bytes)
    → All (λ c. c ≢ sep) s
    → split_on sep (s ++ sep ∷ t) ≡ s ∷ split_on sep t
unfolding split_on
split_on-append sep [] t h = rw (==_refl sep)
split_on-append sep (c ∷ s) t h =
    let other : (c == sep) ≡ false = ground (arith, h.0) in rw (other, split_on-append sep s t h.1)

-- The parts joined by the separator again.
abbrev pub cat_rest : ℕ → List Bytes → Bytes
cat_rest sep [] = []
cat_rest sep (p ∷ ps) = sep ∷ p ++ cat_rest sep ps

abbrev pub cat : ℕ → List Bytes → Bytes
cat sep [] = []
cat sep (p ∷ ps) = p ++ cat_rest sep ps

cat-push_byte : (sep c : ℕ) (ps : List Bytes) → cat sep (push_byte c ps) ≡ c ∷ cat sep ps
cat-push_byte sep c [] = refl
cat-push_byte sep c (p ∷ ps) = refl

cat-fresh : (sep : ℕ) (s : Bytes) → cat sep ([] ∷ split_on sep s) ≡ sep ∷ cat sep (split_on sep s)
unfolding split_on
cat-fresh sep [] = refl
cat-fresh sep (c ∷ s) = elim (Bool-cases (c == sep)) [
  | inl y ↦ rw y
  | inr n ↦ rw n (fresh (split_on sep s))
]
  where
    fresh : (ps : List Bytes) → cat sep ([] ∷ push_byte c ps) ≡ sep ∷ cat sep (push_byte c ps)
    fresh [] = refl
    fresh (p ∷ ps) = refl

pub cat-split_on : (sep : ℕ) (s : Bytes) → cat sep (split_on sep s) ≡ s
unfolding split_on
cat-split_on sep [] = refl
cat-split_on sep (c ∷ s) = elim (Bool-cases (c == sep)) [
  | inl y ↦ rw y (cat-fresh sep s ∙ ground (arith, y, cat-split_on sep s))
  | inr n ↦ rw n (cat-push_byte sep c (split_on sep s) ∙ ap (◌∷◌ c) (cat-split_on sep s))
]

-- `s.starts_with(prefix)`
unfoldable pub starts_with : Bytes → Bytes → Bool
starts_with [] s = true
starts_with (c ∷ prefix) [] = false
starts_with (c ∷ prefix) (b ∷ s) = (c == b) && starts_with prefix s

-- `s.contains(part)`
unfoldable pub contains_text : Bytes → Bytes → Bool
unfolding starts_with
contains_text part [] = starts_with part []
contains_text part (b ∷ s) = starts_with part (b ∷ s) || contains_text part s
