-- ===== src/Runtime/Validate.antt =====
-- runtime/pullrun-runtime/src/service.rs: what is checked of a request's id and of its mounts. Paths
-- are bytes; `canonicalize` is the file system's, and fails with `none`.
pub mod Safe
use pullrun.Base.{
  ℕ, ◌≡◌, ◌≢◌, refl, Bool, true, false, not, ◌&&◌, ◌||◌, Option, none, some, List, [], ◌∷◌, ◌==◌,
  ltb, leb, if◌then◌else◌, length, All, Bool-cases, inl, inr, arith, map,
}
use pullrun.Base.Words.{Bytes}
use pullrun.Base.Text.{eq_bytes, starts_with, split_on}
use pullrun.Runtime.Names.{bind, tmpfs, volume, slash}
use pullrun.Runtime.Exec.{Mount}

-- The text of an error is kept to its kind.
pub data Invalid : Type 0 where
  empty_id long_id bad_char empty_source host_root store_mount relative_destination
        parent_destination :
      Invalid
  unsupported_type : Bytes → Invalid

pub data Checked : Type 0 where
  passed : Checked
  failed : Invalid → Checked

abbrev pub is_empty : Bytes → Bool
is_empty [] = true
is_empty (c ∷ s) = false

abbrev pub is_ascii_alphanumeric : ℕ → Bool
is_ascii_alphanumeric c =
    (leb b'0' c && leb c b'9') || (leb b'A' c && leb c b'Z') || (leb b'a' c && leb c b'z')

abbrev pub id_char : ℕ → Bool
id_char c = is_ascii_alphanumeric c || c == b'-' || c == b'_' || c == b'.'

abbrev pub all_chars : (ℕ → Bool) → Bytes → Bool
all_chars test [] = true
all_chars test (c ∷ s) = test c && all_chars test s

unfoldable pub validate_workload_id : Bytes → Checked
validate_workload_id id =
    if is_empty id
    then failed empty_id
    else if ltb 128 (length id)
    then failed long_id
    else if not (all_chars id_char id)
    then failed bad_char
    else passed

-- `Path::components` without the root: empty parts and `.` are left out.
abbrev pub kept_part : Bytes → Bool
kept_part part = not (is_empty part) && not (eq_bytes part (b'.' ∷ []))

abbrev pub kept_parts : List Bytes → List Bytes
kept_parts [] = []
kept_parts (part ∷ parts) =
    let rest = kept_parts parts in if kept_part part then part ∷ rest else rest

-- A `.` that a relative path begins with is kept.
abbrev pub first_kept : List Bytes → List Bytes
first_kept [] = []
first_kept (part ∷ parts) =
    if eq_bytes part (b'.' ∷ []) then part ∷ kept_parts parts else kept_parts (part ∷ parts)

unfoldable pub components : Bytes → List Bytes
components path = first_kept (split_on b'/' path)

unfoldable pub is_absolute : Bytes → Bool
is_absolute path = starts_with slash path

abbrev pub parts_start_with : List Bytes → List Bytes → Bool
parts_start_with [] parts = true
parts_start_with (q ∷ qs) [] = false
parts_start_with (q ∷ qs) (p ∷ ps) = eq_bytes q p && parts_start_with qs ps

abbrev pub both : Bool → Bool → Bool
both true b = b
both false b = not b

-- `path.starts_with(base)`; equal paths are those of which each starts with the other.
unfoldable pub path_starts_with : Bytes → Bytes → Bool
path_starts_with path base =
    both (is_absolute path) (is_absolute base)
    && parts_start_with (components base) (components path)

unfoldable pub path_eq : Bytes → Bytes → Bool
path_eq p q = path_starts_with p q && path_starts_with q p

abbrev pub any_part : (Bytes → Bool) → List Bytes → Bool
any_part test [] = false
any_part test (p ∷ ps) = test p || any_part test ps

abbrev pub is_parent : Bytes → Bool
is_parent part = eq_bytes part (b'.' ∷ b'.' ∷ [])

abbrev pub unwrap_or : Bytes → Option Bytes → Bytes
unwrap_or s none = s
unwrap_or s (some t) = t

unfoldable pub check_destination : Bytes → Checked
check_destination destination =
    if not (is_absolute destination)
    then failed relative_destination
    else if any_part is_parent (components destination)
    then failed parent_destination
    else passed

abbrev pub and_then : Checked → Checked → Checked
and_then passed c = c
and_then (failed e) c = failed e

module _ (canonicalize : Bytes → Option Bytes) (store_root : Bytes) where
  abbrev pub canonical : Bytes → Bytes
  canonical source = unwrap_or source (canonicalize source)

  unfoldable pub check_bind : Bytes → Checked
  check_bind source =
      if is_empty source
      then failed empty_source
      else if path_eq (canonical source) slash
      then failed host_root
      else if path_eq (canonical source) store_root
          || path_starts_with (canonical source) store_root
      then failed store_mount
      else passed

  unfoldable pub check_source : Mount → Checked
  check_source m =
      if eq_bytes m.type_ bind
      then check_bind m.source
      else if eq_bytes m.type_ tmpfs || eq_bytes m.type_ volume
      then passed
      else failed (unsupported_type m.type_)

  unfoldable pub sanitize_mounts : List Mount → Checked
  sanitize_mounts [] = passed
  sanitize_mounts (m ∷ mounts) =
      let rest = sanitize_mounts mounts in
      and_then (check_source m) (and_then (check_destination m.destination) rest)
