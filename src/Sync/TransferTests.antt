-- ===== src/Sync/TransferTests.antt =====
-- runtime/pullrun-sync: one blob of three bytes between two nodes.
use pullrun.Base.{
  ◌⊎◌, false, ◌++◌, ◌≡◌, refl, true, Option, none, some, List, [], ◌∷◌, if◌then◌else◌, length,
  replicate, All,
}
use pullrun.Base.Words.{Bytes}
use pullrun.Base.Text.{eq_bytes, starts_with}
use pullrun.Store.Digest.{Digest, from_hex, strip_sha256}
use pullrun.Sync.BlockSync.{BlobChunk, SyncBlob, Put, get_blobs, sync_blobs}
use pullrun.Sync.BlockSync.Chunks.{fetch-get_blobs}
use pullrun.Sync.BlockSync.Accepts.{sync_blobs-verified}
use pullrun.Sync.Puller.{
  Stream, ended, stalled, message, messages, gives, peer, Local, read_local, fetch_blob_with_sync,
  try_peers, try_fetch_from_peer, collect,
}
use pullrun.Sync.Puller.Checked.{fetch-peer_verified}

-- A hash of the length, and a decoder of names by their length.
abbrev hash : Bytes → Bytes
hash b = replicate 32 (length b)

abbrev decode_name : Bytes → Option Bytes
decode_name s = some (replicate 32 (length s))

abbrev name : Bytes
name = b'a' ∷ b'b' ∷ b'c' ∷ []

abbrev blob : Bytes
blob = 7 ∷ 8 ∷ 9 ∷ []

abbrev wanted : Digest
wanted = replicate 32 3

abbrev holder : Digest → Option Bytes
holder d = if eq_bytes d wanted then some blob else none

abbrev chunk : BlobChunk
chunk = record { digest = name; body = blob; offset = 0; is_final = true }

named : from_hex decode_name name ≡ some wanted
unfolding from_hex strip_sha256 starts_with
named = refl

held : holder wanted ≡ some blob
unfolding eq_bytes
held = refl

fetch-get_blobs_example :
    (chunks : List BlobChunk) × (get_blobs decode_name holder (name ∷ []) ≡ some chunks)
    × (try_fetch_from_peer (some (messages chunks ended)) ≡ gives (some blob))
fetch-get_blobs_example = fetch-get_blobs decode_name holder name wanted blob named held (λ e. cc)

-- The first message is forged: four bytes under the name of three.
abbrev inbound : List SyncBlob
inbound =
    record { digest = name; body = 1 ∷ 2 ∷ 3 ∷ 4 ∷ [] } ∷ record { digest = name; body = blob } ∷ []

sync_blobs-verified_example :
    All (λ (p : Put). hash p.1 ≡ p.0) (sync_blobs decode_name hash inbound)
sync_blobs-verified_example = sync_blobs-verified decode_name hash inbound

-- A peer that cannot be reached, one that sends something else, and one that holds the blob.
abbrev forged : BlobChunk
forged = record { digest = name; body = 1 ∷ []; offset = 0; is_final = true }

abbrev before : List (Option Stream)
before = none ∷ some (message forged stalled) ∷ []

abbrev candidates : List (Option Stream)
candidates = before ++ some (messages (chunk ∷ []) ended) ∷ []

abbrev empty : Local
empty = record { exists = λ d. false; get_blob = λ d. none }

fetched : fetch_blob_with_sync hash decode_name name empty candidates none ≡ gives (peer blob)
unfolding fetch_blob_with_sync read_local try_peers try_fetch_from_peer collect eq_bytes
fetched = rw named

fetch-peer_verified_example :
    (d : Digest) × (from_hex decode_name name ≡ some d)
    × (hash blob ≡ d)
    × ((empty.exists d ≡ false) ⊎ (empty.get_blob d ≡ none))
fetch-peer_verified_example =
    fetch-peer_verified hash decode_name name empty candidates none blob fetched
