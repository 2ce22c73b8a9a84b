-- ===== src/Runtime/Validate/Safe.antt =====
-- runtime/pullrun-runtime/src/service.rs: what a checked id and checked mounts are.
use pullrun.Base.{
  ℕ, ◌≤◌, ◌≡◌, ◌≢◌, refl, Bool, true, false, Option, List, [], ◌∷◌, ◌++◌, ◌==◌, ltb, length, All,
  Bool-cases, inl, inr, arith, ap, ◌∙◌, ◌⊎◌, ltb→le,
}
use pullrun.Base.Words.{Bytes}
use pullrun.Base.Text.{eq_bytes, eq_bytes_sound, eq_bytes_refl, starts_with, split_on}
use pullrun.Runtime.Names.{bind, tmpfs, volume, slash}
use pullrun.Runtime.Exec.{Mount}
use pullrun.Runtime.Validate.{
  Checked, passed, failed, id_char, all_chars, validate_workload_id, components, is_absolute,
  parts_start_with, both, path_starts_with, path_eq, any_part, is_parent, check_destination,
  and_then, canonical, check_bind, check_source, sanitize_mounts,
}

all_chars-All : (test : ℕ → Bool) (s : Bytes) → all_chars test s ≡ true → All (λ c. test c ≡ true) s
all_chars-All test [] h = tt
all_chars-All test (c ∷ s) h =
    let (x, y) : (test c ≡ true) × (all_chars test s ≡ true) =
      (ground (arith, h), ground (arith, h)) in
    (x, all_chars-All test s y)

-- A text without a slash is one part.
split-All : (s : Bytes) → All (λ c. id_char c ≡ true) s → split_on b'/' s ≡ s ∷ []
unfolding split_on
split-All [] h = refl
split-All (c ∷ s) h =
    let other : (c == b'/') ≡ false = ground (arith, h.0) in rw (other, split-All s h.1)

-- An id that passes is not empty, has at most 128 characters, all of them allowed ones, and is a
-- single part of a path.
pub record SafeId (id : Bytes) : Type 0 where
  pub filled : id ≢ []
  pub short : length id ≤ 128
  pub chars : All (λ c. id_char c ≡ true) id
  pub one_part : split_on b'/' id ≡ id ∷ []

pub validate_workload_id-SafeId : (id : Bytes) → validate_workload_id id ≡ passed → SafeId id
unfolding validate_workload_id
validate_workload_id-SafeId [] h = cc
validate_workload_id-SafeId (c ∷ s) h = elim (Bool-cases (ltb 128 (length (c ∷ s)))) [
  | inl y ↦ cc (rw y at h)
  | inr n ↦ elim (Bool-cases (all_chars id_char (c ∷ s))) [
    | inr z ↦ cc (rw (n, z) at h)
    | inl y ↦
        let chars = all_chars-All id_char (c ∷ s) y in
        record {
          filled = λ e. cc;
          short = ltb→le _ _ n;
          chars = chars;
          one_part = split-All (c ∷ s) chars;
        }
  ]
]

-- The path is the base, or a path below it.
abbrev pub Below : Bytes → Bytes → Type 0
Below base path =
    (is_absolute path ≡ is_absolute base)
    × ((rest : List Bytes) × (components path ≡ components base ++ rest))

parts_start_with-append : (qs rest : List Bytes) → parts_start_with qs (qs ++ rest) ≡ true
parts_start_with-append [] rest = refl
parts_start_with-append (q ∷ qs) rest = rw (eq_bytes_refl q, parts_start_with-append qs rest)

both_refl : (b : Bool) → both b b ≡ true
both_refl true = refl
both_refl false = refl

path_starts_with-Below : (base path : Bytes) → Below base path → path_starts_with path base ≡ true
unfolding path_starts_with
path_starts_with-Below base path (a, (rest, e)) =
    rw (a, e, both_refl (is_absolute base), parts_start_with-append (components base) rest)

abbrev pub IsRoot : Bytes → Type 0
IsRoot path = (is_absolute path ≡ true) × (components path ≡ [])

path_eq-IsRoot : (path : Bytes) → IsRoot path → path_eq path slash ≡ true
unfolding path_eq path_starts_with is_absolute starts_with components split_on eq_bytes
path_eq-IsRoot path (a, e) = rw (a, e)

any_part-All :
    (parts : List Bytes) → any_part is_parent parts ≡ false → All (λ p. p ≢ b'.' ∷ b'.' ∷ []) parts
any_part-All [] h = tt
any_part-All (p ∷ ps) h = (
  λ e. ground (arith, eq_bytes_refl p, h, ap (eq_bytes p) e),
  any_part-All ps (ground (arith, h)),
)

module _ (canonicalize : Bytes → Option Bytes) (store_root : Bytes) where
  pub record SafeSource (source : Bytes) : Type 0 where
    pub filled : source ≢ []
    pub not_root : ¬ IsRoot (canonical canonicalize store_root source)
    pub not_store : ¬ Below store_root (canonical canonicalize store_root source)

  pub record SafeMount (m : Mount) : Type 0 where
    pub kind : (m.type_ ≡ bind) ⊎ ((m.type_ ≡ tmpfs) ⊎ (m.type_ ≡ volume))
    pub source : m.type_ ≡ bind → SafeSource m.source
    pub absolute : is_absolute m.destination ≡ true
    pub stays : All (λ p. p ≢ b'.' ∷ b'.' ∷ []) (components m.destination)

  and_then-passed : (c d : Checked) → and_then c d ≡ passed → (c ≡ passed) × (d ≡ passed)
  and_then-passed passed d h = (refl, h)
  and_then-passed (failed e) d h = cc

  check_bind-SafeSource :
      (source : Bytes) → check_bind canonicalize store_root source ≡ passed → SafeSource source
  unfolding check_bind
  check_bind-SafeSource [] h = cc
  check_bind-SafeSource (c ∷ s) h =
      let p = canonical canonicalize store_root (c ∷ s) in
      elim (Bool-cases (path_eq p slash)) [
        | inl y ↦ cc (rw y at h)
        | inr n ↦ elim (Bool-cases (path_starts_with p store_root)) [
          | inl y ↦ ground (arith, h, n, y)
          | inr k ↦ record {
            filled = λ e. cc;
            not_root = λ r. cc (n, path_eq-IsRoot p r);
            not_store = λ b. cc (k, path_starts_with-Below store_root p b);
          }
        ]
      ]

  check_source-kind :
      (m : Mount)
      → check_source canonicalize store_root m ≡ passed
      → (m.type_ ≡ bind) ⊎ ((m.type_ ≡ tmpfs) ⊎ (m.type_ ≡ volume))
  unfolding check_source
  check_source-kind m h = elim (Bool-cases (eq_bytes m.type_ bind)) [
    | inl y ↦ inl (eq_bytes_sound m.type_ bind y)
    | inr n ↦ elim (Bool-cases (eq_bytes m.type_ tmpfs)) [
      | inl y ↦ inr (inl (eq_bytes_sound m.type_ tmpfs y))
      | inr k ↦ elim (Bool-cases (eq_bytes m.type_ volume)) [
        | inl y ↦ inr (inr (eq_bytes_sound m.type_ volume y))
        | inr z ↦ cc (rw (n, k, z) at h)
      ]
    ]
  ]

  check_source-SafeSource :
      (m : Mount)
      → check_source canonicalize store_root m ≡ passed
      → m.type_ ≡ bind
      → SafeSource m.source
  unfolding check_source
  check_source-SafeSource m h e =
      let y : eq_bytes m.type_ bind ≡ true = ap (λ t. eq_bytes t bind) e ∙ eq_bytes_refl bind in
      check_bind-SafeSource m.source (rw y at h)

  check_destination-safe :
      (d : Bytes)
      → check_destination d ≡ passed
      → (is_absolute d ≡ true) × All (λ p. p ≢ b'.' ∷ b'.' ∷ []) (components d)
  unfolding check_destination
  check_destination-safe d h = elim (Bool-cases (is_absolute d)) [
    | inr n ↦ cc (rw n at h)
    | inl y ↦ elim (Bool-cases (any_part is_parent (components d))) [
      | inl z ↦ cc (rw (y, z) at h)
      | inr n ↦ (y, any_part-All (components d) n)
    ]
  ]

  -- Mounts that pass are of a known type and have an absolute destination without `..`; the source of a
  -- bind mount is not empty, and its canonical path is neither the root of the host, nor the store,
  -- nor below the store.
  pub sanitize_mounts-SafeMount :
      (mounts : List Mount)
      → sanitize_mounts canonicalize store_root mounts ≡ passed
      → All SafeMount mounts
  unfolding sanitize_mounts
  sanitize_mounts-SafeMount [] h = tt
  sanitize_mounts-SafeMount (m ∷ mounts) h =
      let (source, later) = and_then-passed (check_source canonicalize store_root m) _ h in
      let (dest, rest) = and_then-passed (check_destination m.destination) _ later in
      let (absolute, stays) = check_destination-safe m.destination dest in
      (
        record {
          kind = check_source-kind m source;
          source = check_source-SafeSource m source;
          absolute = absolute;
          stays = stays;
        },
        sanitize_mounts-SafeMount mounts rest,
      )
