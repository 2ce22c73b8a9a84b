-- ===== src/Vsock/Stream.antt =====
-- runtime/pullrun-vsock/src/lib.rs: `read_frame` and `write_frame` over a byte stream. A stream is
-- the bytes that are still to come; `read_exact` fails when it ends too early.
use pullrun.Base.{ℕ, Bool, Option, none, some, ◌∷◌, ◌++◌, ltb, if◌then◌else◌, length, take, drop}
use pullrun.Base.Words.{Bytes, be32}
use pullrun.Vsock.Frame.{
  FrameType, Frame, Outcome, ok, err, panic, unexpected_eof, payload_too_large, truncated, io,
  from_u8,
}
use pullrun.Vsock.Cursor.{Reader}
use pullrun.Vsock.Codec.{encode, decode}

abbrev pub max_payload : ℕ
max_payload = 16777216

-- The frame, and what is left of the stream.
unfoldable pub with_rest : Outcome Frame → Reader Frame
with_rest (ok f) rest = ok (f, rest)
with_rest (err e) rest = err e
with_rest panic rest = panic

module _ (utf8 : Bytes → Bool) where
  unfoldable pub read_payload : ℕ → Option FrameType → Reader Frame
  read_payload len none r = err (truncated FrameType.init_hello 0 0)
  read_payload len (some ty) r =
      if ltb (length r) len then err io else with_rest (decode utf8 ty (take len r)) (drop len r)

  unfoldable pub read_header : ℕ → ℕ → Reader Frame
  read_header len tag r =
      if ltb max_payload len then err (payload_too_large len) else read_payload len (from_u8 tag) r

  unfoldable pub read_frame : Reader Frame
  read_frame (a ∷ b ∷ c ∷ d ∷ tag ∷ r) = read_header (be32 a b c d) tag r
  read_frame _ = err (unexpected_eof FrameType.init_hello)

-- Appends the encoded frame to what was written.
unfoldable pub write_frame : Bytes → Frame → Bytes
write_frame w f = w ++ encode f
