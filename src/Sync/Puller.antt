-- ===== src/Sync/Puller.antt =====
-- runtime/pullrun-sync/src/sync_puller.rs: a blob from the local store, from a peer, or from the
-- registry. A peer is the stream that it answers with, `none` where the connection or the call fails or
-- times out. The code waits for the messages of a stream without a limit: a stream may stall, or send
-- messages for ever, and then the pull does not come to an end.
pub mod Checked
use pullrun.Base.{ℕ, Bool, true, false, Option, none, some, List, [], ◌∷◌, ◌++◌, if◌then◌else◌}
use pullrun.Base.Words.{Bytes}
use pullrun.Base.Text.{eq_bytes}
use pullrun.Store.Digest.{Digest, from_hex}
use pullrun.Sync.BlockSync.{BlobChunk}

-- What is read from a peer: its messages up to the end of the stream, an error, or the point from
-- which on it gives no end: it is silent, or only sends chunks that are not final.
pub data Stream : Type 0 where
  ended broken stalled : Stream
  message : BlobChunk → Stream → Stream

abbrev pub messages : List BlobChunk → Stream → Stream
messages [] rest = rest
messages (chunk ∷ chunks) rest = message chunk (messages chunks rest)

-- What a wait for a peer or for a pull gives: a value, or nothing ever.
pub data Waited {ℓ} (A : Type ℓ) : Type ℓ where
  gives : A → Waited A
  hangs : Waited A

unfoldable pub collect : Stream → Bytes → Waited (Option Bytes)
collect ended collected = gives (some collected)
collect broken collected = gives none
collect stalled collected = hangs
collect (message chunk rest) collected =
    let more = collect rest (collected ++ chunk.body) in
    if chunk.is_final then gives (some (collected ++ chunk.body)) else more

abbrev pub nonempty : Option Bytes → Option Bytes
nonempty (some (b ∷ bs)) = some (b ∷ bs)
nonempty _ = none

abbrev pub nonempty_of : Waited (Option Bytes) → Waited (Option Bytes)
nonempty_of (gives o) = gives (nonempty o)
nonempty_of hangs = hangs

unfoldable pub try_fetch_from_peer : Option Stream → Waited (Option Bytes)
try_fetch_from_peer none = gives none
try_fetch_from_peer (some stream) = nonempty_of (collect stream [])

-- Where the bytes came from. A blob of a peer or of the registry is stored under the digest.
pub data Fetched : Type 0 where
  stored peer registry : Bytes → Fetched
  registry_failed invalid_digest : Fetched

-- The local store: `exists` asks for a node, `get_blob` for a blob file.
pub record Local : Type 0 where
  pub exists : Digest → Bool
  pub get_blob : Digest → Option Bytes

unfoldable pub read_local : Local → Digest → Option Bytes
read_local store d = if store.exists d then store.get_blob d else none

module _ (sha256 : Bytes → Bytes) where
  abbrev pub keep : Digest → Waited (Option Bytes) → Waited (Option Bytes) → Waited (Option Bytes)
  keep d hangs later = hangs
  keep d (gives none) later = later
  keep d (gives (some body)) later = if eq_bytes (sha256 body) d then gives (some body) else later

  -- The loop over the candidates.
  unfoldable pub try_peers : Digest → List (Option Stream) → Waited (Option Bytes)
  try_peers d [] = gives none
  try_peers d (p ∷ ps) = keep d (try_fetch_from_peer p) (try_peers d ps)

  abbrev pub from_registry : Option Bytes → Fetched
  from_registry none = registry_failed
  from_registry (some body) = registry body

  abbrev pub from_peers : Waited (Option Bytes) → Option Bytes → Waited Fetched
  from_peers hangs answer = hangs
  from_peers (gives (some body)) answer = gives (peer body)
  from_peers (gives none) answer = gives (from_registry answer)

  abbrev pub from_store :
      Digest → Option Bytes → List (Option Stream) → Option Bytes → Waited Fetched
  from_store d (some body) peers answer = gives (stored body)
  from_store d none peers answer = from_peers (try_peers d peers) answer

  abbrev pub with_digest :
      Option Digest → Local → List (Option Stream) → Option Bytes → Waited Fetched
  with_digest none store peers answer = gives invalid_digest
  with_digest (some d) store peers answer = from_store d (read_local store d) peers answer

  unfoldable pub fetch_blob_with_sync :
      (Bytes → Option Bytes) → Bytes → Local → List (Option Stream) → Option Bytes → Waited Fetched
  fetch_blob_with_sync hex_decode digest store peers answer =
      with_digest (from_hex hex_decode digest) store peers answer
