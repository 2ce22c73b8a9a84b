-- ===== src/Sync/BlockSync/Accepts.antt =====
-- runtime/pullrun-sync/src/block_sync.rs: what `sync_blobs` stores.
use pullrun.Base.{◌≡◌, inl, inr, Option, none, some, List, [], ◌∷◌, leb, Bool-cases, length, All}
use pullrun.Base.Words.{Bytes}
use pullrun.Base.Text.{eq_bytes, eq_bytes_sound}
use pullrun.Store.Digest.{Digest, from_hex}
use pullrun.Sync.BlockSync.{SyncBlob, Put, sync_blobs, accept_parsed}

module _ (hex_decode : Bytes → Option Bytes) (sha256 : Bytes → Bytes) where
  abbrev Sound : List Put → Type 0
  Sound puts = All (λ (p : Put). sha256 p.1 ≡ p.0) puts

  accept-Sound :
      (d : Option Digest) (body : Bytes) (rest : List Put)
      → Sound rest
      → Sound (accept_parsed hex_decode sha256 d body rest)
  accept-Sound none body rest h = h
  accept-Sound (some d) body rest h = elim (Bool-cases (eq_bytes (sha256 body) d)) [
    | inl y ↦ rw y (eq_bytes_sound (sha256 body) d y, h)
    | inr n ↦ rw n h
  ]

  -- Whatever a peer sends, each blob that is stored has the digest that it is stored under.
  pub sync_blobs-verified :
      (msgs : List SyncBlob)
      → All (λ (p : Put). sha256 p.1 ≡ p.0) (sync_blobs hex_decode sha256 msgs)
  unfolding sync_blobs
  sync_blobs-verified [] = tt
  sync_blobs-verified (msg ∷ msgs) = elim (Bool-cases (leb 1 (length msg.body))) [
    | inl y ↦
        rw y (accept-Sound (from_hex hex_decode msg.digest) msg.body _ (sync_blobs-verified msgs))
    | inr n ↦ rw n (sync_blobs-verified msgs)
  ]
