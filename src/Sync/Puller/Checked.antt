-- ===== src/Sync/Puller/Checked.antt =====
-- runtime/pullrun-sync/src/sync_puller.rs: what a pull takes from its peers.
use pullrun.Base.{
  ◌≡◌, ◌⊎◌, refl, sym, ap, ◌∙◌, inl, inr, true, false, Option, none, some, List, [], ◌∷◌,
  Bool-cases, Option-cases, some-inj,
}
use pullrun.Base.Words.{Bytes}
use pullrun.Base.Text.{eq_bytes, eq_bytes_sound}
use pullrun.Store.Digest.{Digest, from_hex}
use pullrun.Sync.Puller.{
  Stream, ended, broken, stalled, message, Waited, gives, hangs, try_fetch_from_peer, peer, Local,
  read_local, try_peers, from_registry, fetch_blob_with_sync,
}

-- A stream that comes to an end, to an error or to a final chunk.
abbrev pub Ends : Stream → Type 0
Ends ended = Unit
Ends broken = Unit
Ends stalled = ⊥
Ends (message chunk rest) = (chunk.is_final ≡ true) ⊎ Ends rest

-- A candidate that cannot be reached, or whose stream ends.
abbrev pub Answers : Option Stream → Type 0
Answers none = Unit
Answers (some stream) = Ends stream

Waited-cases :
    (w : Waited (Option Bytes))
    → (w ≡ hangs) ⊎ ((w ≡ gives none) ⊎ ((x : Bytes) × (w ≡ gives (some x))))
Waited-cases hangs = inl refl
Waited-cases (gives none) = inr (inl refl)
Waited-cases (gives (some x)) = inr (inr (x, refl))

gives-inj : {A : Type 0} {x y : A} → gives x ≡ gives y → x ≡ y
gives-inj h = cc

module _ (sha256 : Bytes → Bytes) where
  try_peers-verified :
      (d : Digest) (ps : List (Option Stream)) (body : Bytes)
      → try_peers sha256 d ps ≡ gives (some body)
      → sha256 body ≡ d
  unfolding try_peers
  try_peers-verified d [] body e = cc
  try_peers-verified d (p ∷ ps) body e = elim (Waited-cases (try_fetch_from_peer p)) [
    | inl n ↦ cc (rw n at e)
    | inr (inl n) ↦ try_peers-verified d ps body (rw n at e)
    | inr (inr (x, s)) ↦ elim (Bool-cases (eq_bytes (sha256 x) d)) [
      | inl y ↦
          ap sha256 (sym (some-inj (gives-inj (rw (s, y) at e)))) ∙ eq_bytes_sound (sha256 x) d y
      | inr n ↦ try_peers-verified d ps body (rw (s, n) at e)
    ]
  ]

  -- Bytes that a pull takes from a peer hash to the digest that was asked for, and are taken only where
  -- the local store does not give the blob: it has no node of that digest, or no blob file that
  -- can be read.
  pub fetch-peer_verified :
      (hex_decode : Bytes → Option Bytes) (digest : Bytes) (store : Local)
      (ps : List (Option Stream)) (answer : Option Bytes) (body : Bytes)
      → fetch_blob_with_sync sha256 hex_decode digest store ps answer ≡ gives (peer body)
      → (d : Digest) × (from_hex hex_decode digest ≡ some d)
        × (sha256 body ≡ d)
        × ((store.exists d ≡ false) ⊎ (store.get_blob d ≡ none))
  unfolding fetch_blob_with_sync read_local
  fetch-peer_verified hex_decode digest store ps answer body e =
      elim (Option-cases (from_hex hex_decode digest)) [
        | inl n ↦ cc (rw n at e)
        | inr (d, h) ↦ elim (Option-cases (read_local store d)) [
          | inr (x, l) ↦ cc (rw (h, l) at e)
          | inl l ↦ elim (Waited-cases (try_peers sha256 d ps)) [
            | inl n ↦ cc (rw (h, l, n) at e)
            | inr (inl n) ↦ no_peer answer (gives-inj (rw (h, l, n) at e))
            | inr (inr (x, s)) ↦ (
              d,
              h,
              try_peers-verified d ps body
                  (s ∙ ap (λ b. gives (some b)) (peer-inj (gives-inj (rw (h, l, s) at e)))),
              absent d l,
            )
          ]
        ]
      ]
    where
      peer-inj : {x y : Bytes} → peer x ≡ peer y → x ≡ y
      peer-inj q = cc

      no_peer : {A : Type 0} (a : Option Bytes) → from_registry sha256 a ≡ peer body → A
      no_peer none q = cc
      no_peer (some x) q = cc

      absent :
          (d : Digest)
          → read_local store d ≡ none
          → (store.exists d ≡ false) ⊎ (store.get_blob d ≡ none)
      absent d l = elim (Bool-cases (store.exists d)) [ inl y ↦ inr (rw y at l) | inr n ↦ inl n ]
