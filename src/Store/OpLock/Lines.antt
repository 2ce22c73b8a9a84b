-- ===== src/Store/OpLock/Lines.antt =====
-- runtime/pullrun-store/src/op_lock.rs: the lines of a lock file are the digests appended to it.
use pullrun.Base.{
  ℕ, ◌≡◌, ◌≢◌, refl, sym, ap, ◌∙◌, false, Option, none, some, List, [], ◌∷◌, ◌++◌, All, append-nil,
  append_assoc,
}
use pullrun.Base.Words.{Bytes}
use pullrun.Base.Text.{split_on, split_on-append}
use pullrun.Base.Trim.{is_space, IsName, trim_kept}
use pullrun.Base.Map
use pullrun.Base.Map.{get-put_self}
use pullrun.Store.Digest.{digest_eq}
use pullrun.Store.OpLock.{LockFile, Ops, new, append, trimmed, push_nonempty, read_op_lock}

-- The text of a file with these lines.
abbrev text : List Bytes → Bytes
text [] = []
text (d ∷ ds) = d ++ 10 ∷ text ds

no_newline : (s : Bytes) → All (λ b. is_space b ≡ false) s → All (λ b. b ≢ 10) s
no_newline [] h = tt
no_newline (c ∷ s) (h, t) = (λ e. cc (h, ap is_space e), no_newline s t)

line_free : (s : Bytes) → IsName s → All (λ b. b ≢ 10) s
line_free [] h = absurd h
line_free (c ∷ s) h = no_newline (c ∷ s) h

pushed : (s : Bytes) (ls : List Bytes) → IsName s → push_nonempty s ls ≡ s ∷ ls
pushed [] ls h = absurd h
pushed (c ∷ s) ls h = refl

read-text : (ds : List Bytes) → All IsName ds → trimmed (split_on 10 (text ds)) ≡ ds
unfolding split_on
read-text [] h = refl
read-text (d ∷ ds) (h, t) =
    rw
      (split_on-append 10 d (text ds) (line_free d h), trim_kept d h, read-text ds t, pushed d ds h)

abbrev pub append_all : Bytes → ℕ → List Bytes → Ops → Option Ops
append_all op_id now [] ops = some ops
append_all op_id now (d ∷ ds) ops = elim (append op_id d now ops) [
  | none ↦ none
  | some next ↦ append_all op_id now ds next
]

appended :
    (op_id : Bytes) (now : ℕ) (ds : List Bytes) (ops : Ops) (file : LockFile)
    → Map.get ops op_id ≡ some file
    → (next : Ops) × (last : LockFile) × (append_all op_id now ds ops ≡ some next)
      × (Map.get next op_id ≡ some last)
      × (last.content ≡ file.content ++ text ds)
unfolding append
appended op_id now [] ops file h = (ops, file, refl, h, sym (append-nil file.content))
appended op_id now (d ∷ ds) ops file h =
    let more : LockFile = record { content = file.content ++ d ++ 10 ∷ []; modified = now } in
    let (next, last, done, kept, same) =
      appended op_id now ds (Map.put ops op_id more) more (get-put_self ops op_id more) in
    (next, last, rw (append_all, h) done, kept, same ∙ simp append_assoc)

-- A lock that is created and then gets names appended is there, and its file reads as these names,
-- where none of them is empty or has a blank in it.
pub read-append :
    (op_id : Bytes) (now : ℕ) (ds : List Bytes) (ops : Ops)
    → All IsName ds
    → (next : Ops) × (file : LockFile) × (append_all op_id now ds (new op_id now ops) ≡ some next)
      × (Map.get next op_id ≡ some file)
      × (read_op_lock file ≡ ds)
unfolding new read_op_lock
read-append op_id now ds ops h =
    let empty : LockFile = record { content = []; modified = now } in
    let (next, file, done, kept, same) =
      appended op_id now ds (Map.put ops op_id empty) empty (get-put_self ops op_id empty) in
    (next, file, done, kept, ap (λ t. trimmed (split_on 10 t)) same ∙ read-text ds h)
