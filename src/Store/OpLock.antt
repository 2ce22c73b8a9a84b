-- ===== src/Store/OpLock.antt =====
-- runtime/pullrun-store/src/op_lock.rs: the files under `ops/`, by their name. Times are in
-- nanoseconds; the name that `generate_op_id` makes is an argument; the text of a file is ASCII.
pub mod Lines
use pullrun.Base.{
  ℕ, ◌-◌, Bool, true, false, not, ◌&&◌, ◌||◌, Option, none, some, List, [], ◌∷◌, ◌++◌, ◌==◌, ltb,
  leb, if◌then◌else◌,
}
use pullrun.Base.Words.{Bytes}
use pullrun.Base.Text.{eq_bytes, split_on}
use pullrun.Base.Trim.{trim}
use pullrun.Base.Map
use pullrun.Base.Map.{Map}
use pullrun.Store.Digest.{digest_eq}

pub record LockFile : Type 0 where
  pub content : Bytes
  pub modified : ℕ

abbrev pub Ops : Type 0
Ops = Map Bytes LockFile

unfoldable pub new : Bytes → ℕ → Ops → Ops
new op_id now ops = Map.put ops op_id (record { content = []; modified = now })

abbrev pub append_to : Bytes → Bytes → ℕ → Option LockFile → Ops → Option Ops
append_to op_id digest_hex now none ops = none
append_to op_id digest_hex now (some file) ops =
    some (
      Map.put ops op_id
        (record { content = file.content ++ digest_hex ++ 10 ∷ []; modified = now }))

-- `none` is the error of a file that is gone.
unfoldable pub append : Bytes → Bytes → ℕ → Ops → Option Ops
append op_id digest_hex now ops = append_to op_id digest_hex now (Map.get ops op_id) ops

abbrev pub touched : Bytes → ℕ → Option LockFile → Ops → Option Ops
touched op_id now none ops = none
touched op_id now (some file) ops = some (Map.put ops op_id (record file { modified = now }))

unfoldable pub touch : Bytes → ℕ → Ops → Option Ops
touch op_id now ops = touched op_id now (Map.get ops op_id) ops

unfoldable pub remove : Bytes → Ops → Ops
remove op_id ops = Map.remove ops op_id

abbrev pub push_nonempty : Bytes → List Bytes → List Bytes
push_nonempty [] ls = ls
push_nonempty (c ∷ s) ls = (c ∷ s) ∷ ls

-- `.lines().map(trim).filter(|l| !l.is_empty())`
abbrev pub trimmed : List Bytes → List Bytes
trimmed [] = []
trimmed (l ∷ ls) = push_nonempty (trim l) (trimmed ls)

unfoldable pub read_op_lock : LockFile → List Bytes
read_op_lock file = trimmed (split_on 10 file.content)

-- A time stamp that lies ahead has age zero.
unfoldable pub is_op_lock_stale : ℕ → LockFile → Bool
is_op_lock_stale now file = ltb 3600000000000 (now - file.modified)

unfoldable pub list_fresh_op_locks : ℕ → Ops → List (Bytes × List Bytes)
list_fresh_op_locks now [] = []
list_fresh_op_locks now ((op_id, file) ∷ ops) =
    let fresh = list_fresh_op_locks now ops in
    if is_op_lock_stale now file then fresh else (op_id, read_op_lock file) ∷ fresh

abbrev pub only_fresh : ℕ → Ops → Ops
only_fresh now [] = []
only_fresh now ((op_id, file) ∷ ops) =
    let fresh = only_fresh now ops in
    if is_op_lock_stale now file then fresh else (op_id, file) ∷ fresh

unfoldable pub clean_stale_op_locks : ℕ → Ops → List (Bytes × List Bytes) × Ops
clean_stale_op_locks now ops = (list_fresh_op_locks now ops, only_fresh now ops)
