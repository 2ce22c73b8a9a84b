-- ===== src/Vsock/RoundTrip.antt =====
-- runtime/pullrun-vsock/src/lib.rs: what `write_frame` wrote, `read_frame` reads back.
pub mod Strings
pub mod Payload
use pullrun.Base.{
  ℕ, zero, suc, ◌+◌, ◌%◌, ◌≤◌, ◌<◌, ◌≡◌, refl, Bool, List, [], ◌∷◌, ◌++◌, arith, append_assoc,
  append-nil, ltb, le→ltb, lt→ltb, length, length-append, take-append_length, drop-append_length,
  All,
}
use pullrun.Base.Words.{Bytes, u32_mod, be32, be32_bytes}
use pullrun.Vsock.Frame.{
  FrameType, Frame, ok, err, payload_too_large, io, frame_type, to_u8, from_u8, from_u8-to_u8,
}
use pullrun.Vsock.Cursor.{put_u32}
use pullrun.Vsock.Codec.{put_len, encode_payload, encode, decode}
use pullrun.Vsock.Stream.{
  max_payload, with_rest, read_payload, read_header, read_frame, write_frame,
}
use Payload.{Fits, decode-encode_payload}

module _ (utf8 : Bytes → Bool) where
  -- The header that `encode` writes is the payload's length and the type's tag.
  pub read_frame-encode :
      (f : Frame) (rest : Bytes)
      → length (encode_payload f) < u32_mod
      → read_frame utf8 (encode f ++ rest)
        ≡ read_header utf8
            (length (encode_payload f))
            (to_u8 (frame_type f))
            (encode_payload f ++ rest)
  unfolding read_frame encode put_len put_u32
  read_frame-encode f rest h =
      let e : length (encode_payload f) % u32_mod ≡ length (encode_payload f) = omega arith in
      rw (e, be32_bytes (length (encode_payload f)) h)

  read_payload-append :
      (f : Frame) (rest : Bytes)
      → Fits utf8 f
      → read_payload utf8
          (length (encode_payload f))
          (from_u8 (to_u8 (frame_type f)))
          (encode_payload f ++ rest)
        ≡ ok (f, rest)
  unfolding read_payload with_rest
  read_payload-append f rest h = rw (
    from_u8-to_u8 (frame_type f),
    le→ltb (length (encode_payload f ++ rest)) (length (encode_payload f))
        (omega (arith, length-append (encode_payload f) rest)),
    take-append_length (encode_payload f) rest,
    drop-append_length (encode_payload f) rest,
    decode-encode_payload utf8 f h,
  )

  -- A frame whose parts fit and whose payload is at most 16 MiB is read back, and the bytes behind
  -- it are left in the stream.
  pub read-write_frame :
      (f : Frame) (rest : Bytes)
      → Fits utf8 f
      → length (encode_payload f) ≤ max_payload
      → read_frame utf8 (write_frame [] f ++ rest) ≡ ok (f, rest)
  unfolding write_frame read_header
  read-write_frame f rest h k =
      rw (read_frame-encode f rest (omega arith), le→ltb max_payload (length (encode_payload f)) k)
        (read_payload-append f rest h)

  -- A payload above 16 MiB, whose length a u32 holds, is written without complaint and refused by
  -- the reader.
  pub read-write_oversized :
      (f : Frame) (rest : Bytes)
      → max_payload < length (encode_payload f)
      → length (encode_payload f) < u32_mod
      → read_frame utf8 (write_frame [] f ++ rest)
        ≡ err (payload_too_large (length (encode_payload f)))
  unfolding write_frame read_header
  read-write_oversized f rest h k =
      rw (read_frame-encode f rest k, lt→ltb max_payload (length (encode_payload f)) h)
