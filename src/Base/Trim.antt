-- ===== src/Base/Trim.antt =====
-- ASCII text without the blanks around it.
use Prim.Native.Nat.{ℕ}
use mathlib.Core.Path.{◌≡◌, refl, ap, ◌∙◌}
use mathlib.Core.Bool.{Bool, false, ◌&&◌, ◌||◌}
use mathlib.Core.List.{[], ◌∷◌}
use pullrun.Base.Tests.{leb, ◌==◌, if◌then◌else◌}
use pullrun.Base.Lists.{All}
use pullrun.Base.Words.{Bytes}

abbrev pub is_space : ℕ → Bool
is_space c = leb 9 c && leb c 13 || c == 32

abbrev pub trim_start : Bytes → Bytes
trim_start [] = []
trim_start (c ∷ s) = let rest = trim_start s in if is_space c then rest else c ∷ s

abbrev pub push_kept : ℕ → Bytes → Bytes
push_kept c [] = if is_space c then [] else c ∷ []
push_kept c (k ∷ ks) = c ∷ k ∷ ks

abbrev pub trim_end : Bytes → Bytes
trim_end [] = []
trim_end (c ∷ s) = push_kept c (trim_end s)

abbrev pub trim : Bytes → Bytes
trim s = trim_end (trim_start s)

-- A name is not empty, and no blank is in it.
abbrev pub IsName : Bytes → Type 0
IsName [] = ⊥
IsName (c ∷ s) = All (λ b. is_space b ≡ false) (c ∷ s)

pub trim_end_kept : (s : Bytes) → All (λ b. is_space b ≡ false) s → trim_end s ≡ s
trim_end_kept [] h = refl
trim_end_kept (c ∷ s) (h, t) = ap (push_kept c) (trim_end_kept s t) ∙ kept s
  where
    kept : (s : Bytes) → push_kept c s ≡ c ∷ s
    kept [] = rw h
    kept (k ∷ ks) = refl

pub trim_kept : (s : Bytes) → IsName s → trim s ≡ s
trim_kept [] h = absurd h
trim_kept (c ∷ s) h = rw h.0 (trim_end_kept (c ∷ s) h)
