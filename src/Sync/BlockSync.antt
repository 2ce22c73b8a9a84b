-- ===== src/Sync/BlockSync.antt =====
-- runtime/pullrun-sync/src/block_sync.rs: the blobs that a node sends and accepts. `get_blob` gives
-- `none` where the store fails; a stream is the list of its messages.
pub mod Chunks
pub mod Accepts
use pullrun.Base.{
  ℕ, zero, suc, ◌+◌, ◌-◌, ◌%◌, min, Bool, true, false, Option, none, some, List, [], ◌∷◌, ◌++◌, ltb,
  leb, if◌then◌else◌, length, take, drop,
}
use pullrun.Base.Words.{Bytes, u32_mod}
use pullrun.Base.Text.{eq_bytes}
use pullrun.Store.Digest.{Digest, from_hex}

pub record BlobChunk : Type 0 where
  pub digest : Bytes
  pub body : Bytes
  pub offset : ℕ
  pub is_final : Bool

pub record SyncBlob : Type 0 where
  pub digest : Bytes
  pub body : Bytes

unfoldable pub chunk_size : ℕ
chunk_size = 1048576

abbrev pub chunk_end : ℕ → Bytes → ℕ
chunk_end offset body = min (offset + chunk_size) (length body)

abbrev pub chunk_at : Bytes → Bytes → ℕ → BlobChunk
chunk_at digest body offset = record {
  digest = digest;
  body = take (chunk_end offset body - offset) (drop offset body);
  offset = offset % u32_mod;
  is_final = leb (length body) (chunk_end offset body);
}

abbrev pub cons_some : BlobChunk → Option (List BlobChunk) → Option (List BlobChunk)
cons_some c none = none
cons_some c (some cs) = some (c ∷ cs)

-- The loop over `offset`, for a number of rounds; `none` where they are not enough.
unfoldable pub send_loop : ℕ → Bytes → Bytes → ℕ → Option (List BlobChunk)
send_loop zero digest body offset = none
send_loop (suc n) digest body offset =
    let rest = send_loop n digest body (chunk_end offset body) in
    if ltb offset (length body) then cons_some (chunk_at digest body offset) rest else some []

-- One round for each byte, and one to find the end.
unfoldable pub send_blob : Bytes → Bytes → Option (List BlobChunk)
send_blob digest body = send_loop (suc (length body)) digest body 0

abbrev pub missing_chunk : Bytes → BlobChunk
missing_chunk digest = record { digest = digest; body = []; offset = 0; is_final = true }

abbrev pub join : Option (List BlobChunk) → Option (List BlobChunk) → Option (List BlobChunk)
join (some cs) (some ds) = some (cs ++ ds)
join _ _ = none

-- A message of the other side that is to be stored.
abbrev pub Put : Type 0
Put = Digest × Bytes

module _ (hex_decode : Bytes → Option Bytes) where
  module _ (get_blob : Digest → Option Bytes) where
    abbrev pub send_found : Bytes → Option Bytes → Option (List BlobChunk)
    send_found digest (some body) = send_blob digest body
    send_found digest none = some (missing_chunk digest ∷ [])

    abbrev pub send_parsed : Bytes → Option Digest → Option (List BlobChunk)
    send_parsed digest none = some []
    send_parsed digest (some d) = send_found digest (get_blob d)

    unfoldable pub get_blobs : List Bytes → Option (List BlobChunk)
    get_blobs [] = some []
    get_blobs (digest ∷ digests) =
        join (send_parsed digest (from_hex hex_decode digest)) (get_blobs digests)

  module _ (sha256 : Bytes → Bytes) where
    abbrev pub accept_parsed : Option Digest → Bytes → List Put → List Put
    accept_parsed none body rest = rest
    accept_parsed (some d) body rest = if eq_bytes (sha256 body) d then (d, body) ∷ rest else rest

    -- The blobs that `sync_blobs` hands to the store, in order.
    unfoldable pub sync_blobs : List SyncBlob → List Put
    sync_blobs [] = []
    sync_blobs (msg ∷ msgs) =
        let rest = sync_blobs msgs in
        if leb 1 (length msg.body)
        then accept_parsed (from_hex hex_decode msg.digest) msg.body rest
        else rest
