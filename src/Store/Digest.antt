-- ===== src/Store/Digest.antt =====
-- runtime/pullrun-store/src/lib.rs: `Digest`, the bytes of a hash. `hex_decode` is `hex::decode`.
use pullrun.Base.{Option, none, some, [], ◌∷◌, ◌==◌, if◌then◌else◌, length, drop}
use pullrun.Base.Words.{Bytes}
use pullrun.Base.{Bool, true, false, ◌||◌, List, ◌++◌, arith, subst, refl, ◌≡◌}
use pullrun.Base.Map.{Eq}
use pullrun.Base.Text.{starts_with, eq_bytes, eq_bytes_sound, eq_bytes_refl}

abbrev pub Digest : Type 0
Digest = Bytes

-- `s.strip_prefix("sha256:").unwrap_or(s)`
unfoldable pub strip_sha256 : Bytes → Bytes
strip_sha256 s =
    if starts_with (b's' ∷ b'h' ∷ b'a' ∷ b'2' ∷ b'5' ∷ b'6' ∷ b':' ∷ []) s then drop 7 s else s

abbrev pub of_bytes : Option Bytes → Option Digest
of_bytes none = none
of_bytes (some bytes) = if length bytes == 32 then some bytes else none

unfoldable pub from_hex : (Bytes → Option Bytes) → Bytes → Option Digest
from_hex hex_decode s = of_bytes (hex_decode (strip_sha256 s))

-- `==` of digests.
instance abbrev pub digest_eq : Eq Digest
digest_eq = record {
  beq = eq_bytes;
  beq_iff = λ a b.
      (eq_bytes_sound a b, λ e. subst (λ (x : Bytes). eq_bytes a x ≡ true) e (eq_bytes_refl a));
}

-- A list as a set of digests.
abbrev pub mem : Digest → List Digest → Bool
mem d [] = false
mem d (e ∷ es) = eq_bytes e d || mem d es

pub mem-append : (d : Digest) (xs ys : List Digest) → mem d (xs ++ ys) ≡ (mem d xs || mem d ys)
mem-append d [] ys = refl
mem-append d (x ∷ xs) ys = ground (arith, mem-append d xs ys)
