-- ===== src/Runtime/Recovery/Crash.antt =====
-- runtime/pullrun-runtime/src/service.rs: a daemon that starts on the checkpoints of one that went away.
use mathlib.Core.List.{Mem, mem-cons, mem-cons_self, mem-cons_of_mem, not-mem-nil}
use mathlib.Core.Logic.Or
use mathlib.Core.HLevel.{⊥_prop}
use pullrun.Runtime.Names.{running, exited, vm}
use pullrun.Runtime.Restart.{is_nil}
use pullrun.Base.{
  ◌≢◌, ◌⊎◌, ◌==◌, ==_iff, if◌then◌else◌, false, subst, Option-cases, some-inj, ℕ, ◌≡◌, refl, sym,
  ◌∙◌, ap, Bool, true, Option, none, some, List, [], ◌∷◌, Bool-cases, inl, inr,
}
use pullrun.Base.Words.{Bytes}
use pullrun.Base.Text.{eq_bytes, eq_bytes_refl, eq_bytes_sound}
use pullrun.Base.Map
use pullrun.Base.Map.{Map, get-put}
use pullrun.Store.Digest.{digest_eq}
use pullrun.Runtime.State.{WorkloadState, Entry, load_entries, load_workload_checkpoints}
use pullrun.Runtime.Recovery.{
  code_or_killed, crashed, find_digest, recover_one, recover_all, migrate_one, migrate_all,
  migrate_kernel_digests, start_daemon,
}

-- The directory in which each checkpoint is a file.
abbrev pub entries_of : Map Bytes WorkloadState → List Entry
entries_of [] = []
entries_of ((id, s) ∷ files) =
    record { stem = id; is_json = true; content = some (some s) } ∷ entries_of files

-- A directory has a name once.
abbrev pub Unique : Map Bytes WorkloadState → Type 0
Unique [] = Unit
Unique ((id, s) ∷ files) = (Map.get files id ≡ none) × Unique files

abbrev first_of : Option WorkloadState → Option WorkloadState → Option WorkloadState
first_of none o = o
first_of (some s) o = some s

get-load_entries :
    (files acc : Map Bytes WorkloadState) (id : Bytes)
    → Unique files
    → Map.get (load_entries (entries_of files) acc) id
      ≡ first_of (Map.get files id) (Map.get acc id)
unfolding load_entries Map.get
get-load_entries [] acc id u = refl
get-load_entries ((k, s) ∷ files) acc id u =
    get-load_entries files (Map.put acc k s) id u.1 ∙ elim (Bool-cases (eq_bytes k id)) [
      | inl y ↦
          let gone : Map.get files id ≡ none =
            ap (Map.get files) (sym (eq_bytes_sound k id y)) ∙ u.0 in
          rw (gone, get-put acc k s id, y) refl
      | inr n ↦ rw (get-put acc k s id, n) refl
    ]

get-recover_all :
    (alive : Bytes → Bool) (now : ℕ) (m : Map Bytes WorkloadState) (id : Bytes) (s : WorkloadState)
    → Map.get m id ≡ some s
    → Map.get (recover_all alive now m) id ≡ some (recover_one alive now id s)
unfolding recover_all Map.get
get-recover_all alive now [] id s g = cc
get-recover_all alive now ((k, t) ∷ m) id s g = elim (Bool-cases (eq_bytes k id)) [
  | inl y ↦ let same = eq_bytes_sound k id y in let is = rw y at g in rw y (cc (same, is))
  | inr n ↦ rw n (get-recover_all alive now m id s (rw n at g))
]

get-migrate_all :
    (tags : Map Bytes Bytes) (m : Map Bytes WorkloadState) (id : Bytes) (s : WorkloadState)
    → Map.get m id ≡ some s
    → Map.get (migrate_all tags m).1 id ≡ some (migrate_one tags s).1
unfolding migrate_all Map.get
get-migrate_all tags [] id s g = cc
get-migrate_all tags ((k, t) ∷ m) id s g = elim (Bool-cases (eq_bytes k id)) [
  | inl y ↦ let is = rw y at g in rw y (cc is)
  | inr n ↦ rw n (get-migrate_all tags m id s (rw n at g))
]

get-start_daemon :
    (alive : Bytes → Bool) (now : ℕ) (files : Map Bytes WorkloadState) (tags : Map Bytes Bytes)
    (id : Bytes) (s : WorkloadState)
    → Unique files
    → Map.get files id ≡ some s
    → Map.get (start_daemon alive now (some (entries_of files)) tags).workloads id
      ≡ some (migrate_one tags (recover_one alive now id s)).1
unfolding start_daemon migrate_kernel_digests load_workload_checkpoints Map.get
get-start_daemon alive now files tags id s u g =
    let read : Map.get (load_entries (entries_of files) []) id ≡ some s =
      get-load_entries files [] id u ∙ ap (λ o. first_of o none) g in
    get-migrate_all tags (recover_all alive now (load_entries (entries_of files) [])) id
      (recover_one alive now id s)
      (get-recover_all alive now (load_entries (entries_of files) []) id s read)

-- What becomes of a checkpoint: a workload that was running, is not in a machine and is not alive is
-- marked exited, killed where no code is known and now where no time is; any other stays as it is.
pub data Recovered (alive : Bytes → Bool) (now : ℕ) (id : Bytes) (c : WorkloadState)
    : WorkloadState → Type 0 where
  stays : (c.status ≢ running) ⊎ ((c.backend ≡ vm) ⊎ (alive id ≡ true)) → Recovered alive now id c c
  lost :
      (code time : ℕ)
      → c.status ≡ running
      → c.backend ≢ vm
      → alive id ≡ false
      → (c.exit_code ≡ some code) ⊎ ((c.exit_code ≡ none) × (code ≡ 137))
      → ((c.exit_time ≢ 0) × (time ≡ c.exit_time)) ⊎ ((c.exit_time ≡ 0) × (time ≡ now))
      → Recovered alive now id c
          (record c { status = exited; exit_code = some code; exit_time = time })

-- A kernel that is named without a digest gets the digest of a tag with that name, where there is one.
pub data Migrated (tags : Map Bytes Bytes) (s : WorkloadState) : WorkloadState → Type 0 where
  unchanged :
      (s.kernel_image_ref ≡ [])
        ⊎ ((s.kernel_image_digest ≢ [])
            ⊎ ((digest : Bytes) → ¬ Mem (digest, s.kernel_image_ref) tags))
      → Migrated tags s s
  found :
      (digest : Bytes)
      → s.kernel_image_ref ≢ []
      → s.kernel_image_digest ≡ []
      → Mem (digest, s.kernel_image_ref) tags
      → Migrated tags s (record s { kernel_image_digest = digest })

ne-of : (a b : Bytes) → eq_bytes a b ≡ false → a ≢ b
ne-of a b n e = cc (n, ap (λ x. eq_bytes x b) e, eq_bytes_refl b)

code_of :
    (o : Option ℕ)
    → (code : ℕ) × ((o ≡ some code) ⊎ ((o ≡ none) × (code ≡ 137))) × (code_or_killed o ≡ some code)
code_of none = (137, inr (refl, refl), refl)
code_of (some code) = (code, inl refl, refl)

time_of :
    (time now : ℕ)
    → (t : ℕ) × (((time ≢ 0) × (t ≡ time)) ⊎ ((time ≡ 0) × (t ≡ now)))
      × ((if time == 0 then now else time) ≡ t)
time_of time now = elim (Bool-cases (time == 0)) [
  | inl y ↦ (now, inr ((==_iff time 0).0 y, refl), rw y)
  | inr n ↦ (time, inl (λ e. cc (n, (==_iff time 0).1 e), refl), rw n)
]

crashed-Recovered :
    (alive : Bytes → Bool) (now : ℕ) (id : Bytes) (c : WorkloadState)
    → c.status ≡ running
    → c.backend ≢ vm
    → alive id ≡ false
    → Recovered alive now id c (crashed now c)
unfolding crashed
crashed-Recovered alive now id c r b dead =
    let (code, why, e) = code_of c.exit_code in
    let (time, when, f) = time_of c.exit_time now in
    subst
      (λ (p : Option ℕ × ℕ).
        Recovered alive now id c (record c { status = exited; exit_code = p.0; exit_time = p.1 }))
      (ap (λ o. (o, time)) (sym e) ∙ ap (λ t. (code_or_killed c.exit_code, t)) (sym f))
      (lost code time r b dead why when)

recover_one-Recovered :
    (alive : Bytes → Bool) (now : ℕ) (id : Bytes) (c : WorkloadState)
    → Recovered alive now id c (recover_one alive now id c)
unfolding recover_one
recover_one-Recovered alive now id c = elim (Bool-cases (eq_bytes c.status running)) [
  | inr n ↦ rw n (stays (inl (ne-of c.status running n)))
  | inl y ↦ elim (Bool-cases (eq_bytes c.backend vm)) [
    | inl z ↦ rw (y, z) (stays (inr (inl (eq_bytes_sound c.backend vm z))))
    | inr z ↦ elim (Bool-cases (alive id)) [
      | inl up ↦ rw (y, z, up) (stays (inr (inr up)))
      | inr down ↦
          rw (y, z, down)
            (crashed-Recovered alive now id c (eq_bytes_sound c.status running y)
              (ne-of c.backend vm z) down)
    ]
  ]
]

find_digest-Mem :
    (name : Bytes) (tags : Map Bytes Bytes) (digest : Bytes)
    → find_digest name tags ≡ some digest
    → Mem (digest, name) tags
unfolding find_digest
find_digest-Mem name [] digest e = cc
find_digest-Mem name ((d, tag) ∷ tags) digest e = elim (Bool-cases (eq_bytes tag name)) [
  | inl y ↦
      let same : (d, tag) ≡ (digest, name) =
        ap (λ x. (x, tag)) (some-inj (rw y at e))
        ∙ ap (λ x. (digest, x)) (eq_bytes_sound tag name y) in
      subst (λ p. Mem p ((d, tag) ∷ tags)) same mem-cons_self
  | inr n ↦ mem-cons_of_mem (d, tag) (find_digest-Mem name tags digest (rw n at e))
]

find_digest-none :
    (name : Bytes) (tags : Map Bytes Bytes) (digest : Bytes)
    → find_digest name tags ≡ none
    → ¬ Mem (digest, name) tags
unfolding find_digest
find_digest-none name [] digest e m = not-mem-nil m
find_digest-none name ((d, tag) ∷ tags) digest e m = elim (Bool-cases (eq_bytes tag name)) [
  | inl y ↦ cc (rw y at e)
  | inr n ↦
      Or.elim ⊥_prop (mem-cons.0 m)
        (λ same. ne-of tag name n (sym (ap (λ (p : Bytes × Bytes). p.1) same)))
        (λ later. find_digest-none name tags digest (rw n at e) later)
]

is_nil-ne : (b : Bytes) → is_nil b ≡ false → b ≢ []
is_nil-ne [] h = cc
is_nil-ne (x ∷ b) h = λ e. cc

is_nil-eq : (b : Bytes) → is_nil b ≡ true → b ≡ []
is_nil-eq [] h = refl
is_nil-eq (x ∷ b) h = cc

migrate_one-Migrated :
    (tags : Map Bytes Bytes) (s : WorkloadState) → Migrated tags s (migrate_one tags s).1
unfolding migrate_one
migrate_one-Migrated tags s = elim (Bool-cases (is_nil s.kernel_image_ref)) [
  | inl y ↦ rw y (unchanged (inl (is_nil-eq s.kernel_image_ref y)))
  | inr n ↦ elim (Bool-cases (is_nil s.kernel_image_digest)) [
    | inr m ↦ rw (n, m) (unchanged (inr (inl (is_nil-ne s.kernel_image_digest m))))
    | inl y ↦ elim (Option-cases (find_digest s.kernel_image_ref tags)) [
      | inl e ↦
          rw (n, y, e)
            (unchanged (inr (inr λ digest. find_digest-none s.kernel_image_ref tags digest e)))
      | inr (digest, e) ↦
          rw (n, y, e)
            (found digest (is_nil-ne s.kernel_image_ref n) (is_nil-eq s.kernel_image_digest y)
              (find_digest-Mem s.kernel_image_ref tags digest e))
    ]
  ]
]

-- Where each checkpoint has its own name, a daemon that starts on them knows the workload of each: as
-- the checkpoint has it, but marked exited where it was running outside of a machine and is not alive,
-- and then with the digest of its kernel where that was missing and a tag has it.
pub start_daemon-recovers :
    (alive : Bytes → Bool) (now : ℕ) (files : Map Bytes WorkloadState) (tags : Map Bytes Bytes)
    (id : Bytes) (c : WorkloadState)
    → Unique files
    → Map.get files id ≡ some c
    → (r : WorkloadState) × (s : WorkloadState) × (Map.get
          (start_daemon alive now (some (entries_of files)) tags).workloads
          id
        ≡ some s)
      × Recovered alive now id c r
      × Migrated tags r s
start_daemon-recovers alive now files tags id c u g =
    let r = recover_one alive now id c in
    (
      r,
      (migrate_one tags r).1,
      get-start_daemon alive now files tags id c u g,
      recover_one-Recovered alive now id c,
      migrate_one-Migrated tags r,
    )
