-- ===== src/Runtime/Events.antt =====
-- runtime/pullrun-runtime/src/events.rs: the kinds of events and their wire strings. A string is its
-- bytes; the clock is an argument.
use pullrun.Base.{ℕ, ◌≡◌, refl, Option, none, some, [], ◌∷◌, if◌then◌else◌}
use pullrun.Base.Words.{Bytes}
use pullrun.Base.Text.{eq_bytes}
use pullrun.Base.Map
use pullrun.Base.Map.{Map}
use pullrun.Store.Digest.{digest_eq}

pub data EventKind : Type 0 where
  image_pulled image_deduped workload_started workload_stopped workload_exited backend_selected
        policy_denied policy_allowed :
      EventKind

unfoldable pub as_str : EventKind → Bytes
as_str image_pulled =
    b'I' ∷ b'M' ∷ b'A' ∷ b'G' ∷ b'E' ∷ b'_' ∷ b'P' ∷ b'U' ∷ b'L' ∷ b'L' ∷ b'E' ∷ b'D' ∷ []
as_str image_deduped =
    b'I' ∷ b'M' ∷ b'A' ∷ b'G' ∷ b'E' ∷ b'_' ∷ b'D' ∷ b'E' ∷ b'D' ∷ b'U' ∷ b'P' ∷ b'E' ∷ b'D' ∷ []
as_str workload_started =
    b'W' ∷ b'O' ∷ b'R' ∷ b'K' ∷ b'L' ∷ b'O' ∷ b'A' ∷ b'D' ∷ b'_' ∷ b'S' ∷ b'T' ∷ b'A' ∷ b'R' ∷ b'T'
    ∷ b'E' ∷ b'D' ∷ []
as_str workload_stopped =
    b'W' ∷ b'O' ∷ b'R' ∷ b'K' ∷ b'L' ∷ b'O' ∷ b'A' ∷ b'D' ∷ b'_' ∷ b'S' ∷ b'T' ∷ b'O' ∷ b'P' ∷ b'P'
    ∷ b'E' ∷ b'D' ∷ []
as_str workload_exited =
    b'W' ∷ b'O' ∷ b'R' ∷ b'K' ∷ b'L' ∷ b'O' ∷ b'A' ∷ b'D' ∷ b'_' ∷ b'E' ∷ b'X' ∷ b'I' ∷ b'T' ∷ b'E'
    ∷ b'D' ∷ []
as_str backend_selected =
    b'B' ∷ b'A' ∷ b'C' ∷ b'K' ∷ b'E' ∷ b'N' ∷ b'D' ∷ b'_' ∷ b'S' ∷ b'E' ∷ b'L' ∷ b'E' ∷ b'C' ∷ b'T'
    ∷ b'E' ∷ b'D' ∷ []
as_str policy_denied =
    b'P' ∷ b'O' ∷ b'L' ∷ b'I' ∷ b'C' ∷ b'Y' ∷ b'_' ∷ b'D' ∷ b'E' ∷ b'N' ∷ b'I' ∷ b'E' ∷ b'D' ∷ []
as_str policy_allowed =
    b'P' ∷ b'O' ∷ b'L' ∷ b'I' ∷ b'C' ∷ b'Y' ∷ b'_' ∷ b'A' ∷ b'L' ∷ b'L' ∷ b'O' ∷ b'W' ∷ b'E' ∷ b'D'
    ∷ []

unfoldable pub parse : Bytes → Option EventKind
parse s =
    if eq_bytes s
      (b'I' ∷ b'M' ∷ b'A' ∷ b'G' ∷ b'E' ∷ b'_' ∷ b'P' ∷ b'U' ∷ b'L' ∷ b'L' ∷ b'E' ∷ b'D' ∷ [])
    then some image_pulled
    else if eq_bytes s (
        b'I' ∷ b'M' ∷ b'A' ∷ b'G' ∷ b'E' ∷ b'_' ∷ b'D' ∷ b'E' ∷ b'D' ∷ b'U' ∷ b'P' ∷ b'E' ∷ b'D'
        ∷ [])
    then some image_deduped
    else if eq_bytes s (
        b'W' ∷ b'O' ∷ b'R' ∷ b'K' ∷ b'L' ∷ b'O' ∷ b'A' ∷ b'D' ∷ b'_' ∷ b'S' ∷ b'T' ∷ b'A' ∷ b'R'
        ∷ b'T' ∷ b'E' ∷ b'D' ∷ [])
    then some workload_started
    else if eq_bytes s (
        b'W' ∷ b'O' ∷ b'R' ∷ b'K' ∷ b'L' ∷ b'O' ∷ b'A' ∷ b'D' ∷ b'_' ∷ b'S' ∷ b'T' ∷ b'O' ∷ b'P'
        ∷ b'P' ∷ b'E' ∷ b'D' ∷ [])
    then some workload_stopped
    else if eq_bytes s (
        b'W' ∷ b'O' ∷ b'R' ∷ b'K' ∷ b'L' ∷ b'O' ∷ b'A' ∷ b'D' ∷ b'_' ∷ b'E' ∷ b'X' ∷ b'I' ∷ b'T'
        ∷ b'E' ∷ b'D' ∷ [])
    then some workload_exited
    else if eq_bytes s (
        b'B' ∷ b'A' ∷ b'C' ∷ b'K' ∷ b'E' ∷ b'N' ∷ b'D' ∷ b'_' ∷ b'S' ∷ b'E' ∷ b'L' ∷ b'E' ∷ b'C'
        ∷ b'T' ∷ b'E' ∷ b'D' ∷ [])
    then some backend_selected
    else if eq_bytes s (
        b'P' ∷ b'O' ∷ b'L' ∷ b'I' ∷ b'C' ∷ b'Y' ∷ b'_' ∷ b'D' ∷ b'E' ∷ b'N' ∷ b'I' ∷ b'E' ∷ b'D'
        ∷ [])
    then some policy_denied
    else if eq_bytes s (
        b'P' ∷ b'O' ∷ b'L' ∷ b'I' ∷ b'C' ∷ b'Y' ∷ b'_' ∷ b'A' ∷ b'L' ∷ b'L' ∷ b'O' ∷ b'W' ∷ b'E'
        ∷ b'D' ∷ [])
    then some policy_allowed
    else none

pub record Event : Type 0 where
  pub id : Bytes
  pub kind : EventKind
  pub timestamp : ℕ
  pub metadata : Map Bytes Bytes

-- The time is in seconds since the epoch; a clock before it counts as zero.
unfoldable pub new : Bytes → EventKind → ℕ → Event
new id kind now = record { id = id; kind = kind; timestamp = now; metadata = [] }

unfoldable pub with_metadata : Bytes → Bytes → Event → Event
with_metadata key value event = record event { metadata = Map.put event.metadata key value }

-- Every kind is read back from its wire string.
pub parse-as_str : (kind : EventKind) → parse (as_str kind) ≡ some kind
unfolding parse as_str eq_bytes
parse-as_str image_pulled = refl
parse-as_str image_deduped = refl
parse-as_str workload_started = refl
parse-as_str workload_stopped = refl
parse-as_str workload_exited = refl
parse-as_str backend_selected = refl
parse-as_str policy_denied = refl
parse-as_str policy_allowed = refl
