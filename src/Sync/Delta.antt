-- ===== src/Sync/Delta.antt =====
-- runtime/pullrun-sync/src/delta.rs and the filter of runtime/pullrun-sync/src/block_sync.rs:
-- which blobs to send to a peer, and how a node builds the filter that it publishes.
use mathlib.Core.List.{Mem, mem-cons, mem-cons_self, mem-cons_of_mem, not-mem-nil}
use mathlib.Core.Logic.Or
use mathlib.Core.HLevel.{⊥_prop}
use pullrun.Base.{
  ℕ, ◌<◌, ◌≡◌, ◌⊎◌, inl, inr, refl, ap, sym, subst, ◌∙◌, true, false, Option, some, List, [], ◌∷◌,
  if◌then◌else◌, Bool-cases, Option-cases, some-inj, All, length,
}
use pullrun.Base.Words.{Bytes}
use pullrun.Sync.Bloom.{BloomFilter, ◌>>=◌, new, insert, contains}
use pullrun.Sync.Bloom.Member.{
  IsFilter, IsFilter-new, insert-IsFilter, contains_total, contains-insert_self, contains-insert,
}

module _ (sha256 : Bytes → Bytes) where
  unfoldable pub compute_delta : List Bytes → BloomFilter → Option (List Bytes)
  compute_delta [] peer_filter = some []
  compute_delta (d ∷ ds) peer_filter = do
    there ← contains sha256 peer_filter d
    rest ← compute_delta ds peer_filter
    some (if there then rest else d ∷ rest)

  -- The loop of `rebuild_bloom_filter`.
  unfoldable pub insert_all : List Bytes → BloomFilter → Option BloomFilter
  insert_all [] f = some f
  insert_all (d ∷ ds) f = do g ← insert sha256 d f; insert_all ds g

  -- `BloomFilter::optimal(10000)` is floating-point: its `m` and `k` are arguments. The filter, and
  -- the blob count that is published with it.
  unfoldable pub rebuild_bloom_filter : ℕ → ℕ → List Bytes → Option (BloomFilter × ℕ)
  rebuild_bloom_filter m k digests = do f ← insert_all digests (new m k); some (f, length digests)

  contains-insert_all :
      (ds : List Bytes) (item : Bytes) (f g : BloomFilter)
      → insert_all ds f ≡ some g
      → contains sha256 f item ≡ some true
      → contains sha256 g item ≡ some true
  unfolding insert_all
  contains-insert_all [] item f g e c = rw (← some-inj e) c
  contains-insert_all (d ∷ ds) item f g e c = elim (Option-cases (insert sha256 d f)) [
    | inl n ↦ cc (rw n at e)
    | inr (h, s) ↦
        contains-insert_all ds item h g (rw s at e) (contains-insert sha256 item d f h s c)
  ]

  insert_all-contains :
      (ds : List Bytes) (f g : BloomFilter)
      → insert_all ds f ≡ some g
      → All (λ d. contains sha256 g d ≡ some true) ds
  unfolding insert_all
  insert_all-contains [] f g e = tt
  insert_all-contains (d ∷ ds) f g e = elim (Option-cases (insert sha256 d f)) [
    | inl n ↦ cc (rw n at e)
    | inr (h, s) ↦
        let rest = rw s at e in
        (
          contains-insert_all ds d h g rest (contains-insert_self sha256 d f h s),
          insert_all-contains ds h g rest,
        )
  ]

  insert_all_total :
      (ds : List Bytes) (f : BloomFilter)
      → IsFilter f
      → (g : BloomFilter) × (insert_all ds f ≡ some g) × IsFilter g
  unfolding insert_all
  insert_all_total [] f v = (f, refl, v)
  insert_all_total (d ∷ ds) f v =
      let (h, s, w) = insert-IsFilter sha256 d f v in
      let (g, e, u) = insert_all_total ds h w in (g, rw s e, u)

  -- For any filter size but 0, rebuilding does not panic, gives a well-formed filter that contains
  -- every digest of the store, and counts them.
  pub rebuild-contains :
      (m k : ℕ) (digests : List Bytes)
      → 0 < m
      → (f : BloomFilter) × (rebuild_bloom_filter m k digests ≡ some (f, length digests))
        × IsFilter f
        × All (λ d. contains sha256 f d ≡ some true) digests
  unfolding rebuild_bloom_filter
  rebuild-contains m k digests h =
      let (f, e, v) = insert_all_total digests (new m k) (IsFilter-new m k h) in
      (f, rw e, v, insert_all-contains digests (new m k) f e)

  -- What the delta holds, and that every local blob is in it or in the peer's filter.
  abbrev pub IsDelta : List Bytes → BloomFilter → List Bytes → Type 0
  IsDelta local f out =
      All (λ d. contains sha256 f d ≡ some false) out
      × All (λ d. (contains sha256 f d ≡ some true) ⊎ Mem d out) local
      × All (λ d. Mem d local) out

  -- On a well-formed filter the delta is computed without a panic: it names local blobs only,
  -- none that the filter contains, and every local blob that the filter does not contain.
  pub compute_delta-IsDelta :
      (local : List Bytes) (f : BloomFilter)
      → IsFilter f
      → (out : List Bytes) × (compute_delta local f ≡ some out) × IsDelta local f out
  unfolding compute_delta
  compute_delta-IsDelta [] f v = ([], refl, (tt, tt, tt))
  compute_delta-IsDelta (d ∷ ds) f v =
      let (out, e, (sent, kept, own)) = compute_delta-IsDelta ds f v in
      let (b, c) = contains_total sha256 d f v in
      elim (Bool-cases b) [
        | inl there ↦
            (out, rw (c, e, there), (sent, (inl (rw there at c), kept), wider d ds out own))
        | inr missing ↦ (
          d ∷ out,
          rw (c, e, missing),
          (
            (rw missing at c, sent),
            (inr mem-cons_self, later d out ds kept),
            (mem-cons_self, wider d ds out own),
          ),
        )
      ]
    where
      wider :
          (x : Bytes) (l out : List Bytes) → All (λ d. Mem d l) out → All (λ d. Mem d (x ∷ l)) out
      wider x l [] h = tt
      wider x l (y ∷ out) h = (mem-cons_of_mem x h.0, wider x l out h.1)

      later :
          (x : Bytes) (out l : List Bytes)
          → All (λ d. (contains sha256 f d ≡ some true) ⊎ Mem d out) l
          → All (λ d. (contains sha256 f d ≡ some true) ⊎ Mem d (x ∷ out)) l
      later x out [] h = tt
      later x out (y ∷ l) (inl c, h) = (inl c, later x out l h)
      later x out (y ∷ l) (inr m, h) = (inr (mem-cons_of_mem x m), later x out l h)

  -- A delta against the filter that a peer built of its own blobs, with a size but 0, names none
  -- of them.
  pub compute_delta-rebuild :
      (m k : ℕ) (local digests out : List Bytes) (f : BloomFilter)
      → 0 < m
      → rebuild_bloom_filter m k digests ≡ some (f, length digests)
      → compute_delta local f ≡ some out
      → All (λ d. ¬ Mem d out) digests
  compute_delta-rebuild m k local digests out f h r e =
      let (g, rg, v, there) = rebuild-contains m k digests h in
      let same : g ≡ f = ap (λ (p : BloomFilter × ℕ). p.0) (some-inj (sym rg ∙ r)) in
      let (o, eo, (sent, kept, own)) = compute_delta-IsDelta local f (subst IsFilter same v) in
      let out_eq : o ≡ out = some-inj (sym eo ∙ e) in
      absent digests (subst (λ x. All (λ d. contains sha256 x d ≡ some true) digests) same there)
        (subst (All (λ d. contains sha256 f d ≡ some false)) out_eq sent)
    where
      not_mem :
          (d : Bytes) (l : List Bytes)
          → contains sha256 f d ≡ some true
          → All (λ x. contains sha256 f x ≡ some false) l
          → ¬ Mem d l
      not_mem d [] c h = λ q. not-mem-nil q
      not_mem d (x ∷ l) c h = λ q.
          Or.elim ⊥_prop (mem-cons.0 q) (λ s. cc (c, h.0, ap (contains sha256 f) s))
            (not_mem d l c h.1)

      absent :
          (l : List Bytes)
          → All (λ d. contains sha256 f d ≡ some true) l
          → All (λ x. contains sha256 f x ≡ some false) out
          → All (λ d. ¬ Mem d out) l
      absent [] c s = tt
      absent (d ∷ l) c s = (not_mem d out c.0 s, absent l c.1 s)
