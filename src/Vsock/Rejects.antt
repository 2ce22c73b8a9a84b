-- ===== src/Vsock/Rejects.antt =====
-- runtime/pullrun-vsock/src/lib.rs: what the reader does with bytes that no peer of this version
-- wrote: short payloads, unknown tags, and the one getter without a guard.
pub mod MissingFlag
use pullrun.Base.{
  ℕ, zero, suc, ◌+◌, ◌%◌, ◌≤◌, ◌<◌, ◌≡◌, ◌≢◌, ◌⊎◌, refl, Bool, true, false, not, Option, none, some,
  List, [], ◌∷◌, ◌++◌, arith, append_assoc, append-nil, ltb, leb, le→ltb, lt→ltb, length,
  length-append, take-append_length, drop-append_length, All, ◌==◌, if◌then◌else◌,
}
use pullrun.Base.Words.{Bytes, u32_mod, be32, be32_bytes}
use pullrun.Vsock.Frame.{
  FrameType, Frame, Outcome, ok, err, panic, truncated, payload_too_large, io, frame_type, to_u8,
  from_u8, from_u8-to_u8,
}
use pullrun.Vsock.Cursor.{
  Reader, ◌>>=◌, ◌>>◌, need, get_u8, get_u16, get_u32, read_string, take_string,
}
use pullrun.Vsock.Codec.{
  read_flagged, read_exit, read_window_size, read_hello, read_error, decode_payload, decode, finish,
}
use pullrun.Vsock.Stream.{max_payload, with_rest, read_payload, read_header, read_frame}

bind-ne-panic :
    {A B : Type 0} (m : Reader A) (f : A → Reader B) (cur : Bytes)
    → m cur ≢ panic
    → ((a : A) (r : Bytes) → f a r ≢ panic)
    → ◌>>=◌ m f cur ≢ panic
bind-ne-panic m f cur h k = go (m cur) refl
  where
    go : (o : Outcome _) → m cur ≡ o → ◌>>=◌ m f cur ≢ panic
    go (ok (a, r)) e = rw e (k a r)
    go (err x) e = rw e (λ p. cc)
    go panic e = absurd (h e)

-- A guarded number, then the rest.
guarded-bind :
    {B : Type 0} (ty : FrameType) (f : ℕ → Reader B) (cur : Bytes)
    → ((a : ℕ) (r : Bytes) → f a r ≢ panic)
    → (do need ty 4; n ← get_u32; f n) cur ≢ panic
unfolding need get_u32
guarded-bind ty f [] k = ground arith
guarded-bind ty f (a ∷ []) k = ground arith
guarded-bind ty f (a ∷ b ∷ []) k = ground arith
guarded-bind ty f (a ∷ b ∷ c ∷ []) k = ground arith
guarded-bind ty f (a ∷ b ∷ c ∷ d ∷ cur) k =
    rw (le→ltb (length (a ∷ b ∷ c ∷ d ∷ cur)) 4 (omega arith)) (k (be32 a b c d) cur)

finish-ne-panic : (o : Outcome (Frame × Bytes)) → o ≢ panic → finish o ≢ panic
finish-ne-panic (ok (f, cur)) h = λ p. cc
finish-ne-panic (err e) h = λ p. cc
finish-ne-panic panic h = absurd (h refl)

unknown : (tag : ℕ) → (tag ≡ 0) ⊎ (9 < tag) → from_u8 tag ≡ none
unfolding from_u8
unknown tag h = ground arith

module _ (utf8 : Bytes → Bool) where
  take_string-ne-panic : (ty : FrameType) (n : ℕ) (cur : Bytes) → take_string utf8 ty n cur ≢ panic
  unfolding take_string
  take_string-ne-panic ty n cur = ground arith

  read_string-ne-panic : (ty : FrameType) (cur : Bytes) → read_string utf8 ty cur ≢ panic
  unfolding read_string
  read_string-ne-panic ty cur = guarded-bind ty (take_string utf8 ty) cur (take_string-ne-panic ty)

  flagged-ne-panic : (ty : FrameType) (b : Bool) (cur : Bytes) → read_flagged ty b cur ≢ panic
  unfolding read_flagged
  flagged-ne-panic ty false cur = ground arith
  flagged-ne-panic ty true cur = guarded-bind ty _ cur (λ c r p. cc)

  exit-ne-panic : (cur : Bytes) → read_exit cur ≢ panic
  unfolding read_exit
  exit-ne-panic [] = unfold need in ground arith
  exit-ne-panic (a ∷ cur) =
      unfold need get_u8 in
      rw (le→ltb (length (a ∷ cur)) 1 (omega arith)) (
        bind-ne-panic (read_flagged FrameType.workload_exit (not (a % 2 == 0))) _ cur
          (flagged-ne-panic FrameType.workload_exit _ cur)
          (λ c r.
            bind-ne-panic (read_flagged FrameType.workload_exit (leb 2 (a % 4))) _ r
              (flagged-ne-panic FrameType.workload_exit _ r) (λ s q p. cc)))

  window-ne-panic : (cur : Bytes) → read_window_size cur ≢ panic
  unfolding read_window_size need get_u16
  window-ne-panic [] = ground arith
  window-ne-panic (a ∷ []) = ground arith
  window-ne-panic (a ∷ b ∷ []) = ground arith
  window-ne-panic (a ∷ b ∷ c ∷ []) = ground arith
  window-ne-panic (a ∷ b ∷ c ∷ d ∷ cur) = ground arith

  payload-ne-panic :
      (ty : FrameType) (cur : Bytes)
      → ty ≢ FrameType.workload_spec
      → decode_payload utf8 ty cur ≢ panic
  unfolding decode_payload
  payload-ne-panic FrameType.init_hello cur h =
      unfold read_hello in
      guarded-bind FrameType.init_hello _ cur λ pid r.
        bind-ne-panic (read_string utf8 FrameType.init_hello) _ r
          (read_string-ne-panic FrameType.init_hello r) (λ a s p. cc)
  payload-ne-panic FrameType.workload_spec cur h = absurd (h refl)
  payload-ne-panic FrameType.workload_stdout cur h = λ p. cc
  payload-ne-panic FrameType.workload_stderr cur h = λ p. cc
  payload-ne-panic FrameType.workload_stdin cur h = λ p. cc
  payload-ne-panic FrameType.stdin_eof cur h = λ p. cc
  payload-ne-panic FrameType.workload_exit cur h = exit-ne-panic cur
  payload-ne-panic FrameType.error cur h =
      unfold read_error in
      bind-ne-panic (read_string utf8 FrameType.error) _ cur
        (read_string-ne-panic FrameType.error cur) (λ a s p. cc)
  payload-ne-panic FrameType.window_size cur h = window-ne-panic cur

  -- Decoding a payload of any type but WorkloadSpec never panics, whatever its bytes are.
  pub decode-ne-panic :
      (ty : FrameType) (payload : Bytes)
      → ty ≢ FrameType.workload_spec
      → decode utf8 ty payload ≢ panic
  unfolding decode
  decode-ne-panic ty payload h =
      finish-ne-panic (decode_payload utf8 ty payload) (payload-ne-panic ty payload h)

  -- A tag byte that is none of 1 to 9 makes the reader fail before it takes the payload, where the
  -- declared length is within the limit.
  pub read_frame-unknown_tag :
      (a b c d tag : ℕ) (r : Bytes)
      → (tag ≡ 0) ⊎ (9 < tag)
      → be32 a b c d ≤ max_payload
      → read_frame utf8 (a ∷ b ∷ c ∷ d ∷ tag ∷ r) ≡ err (truncated FrameType.init_hello 0 0)
  unfolding read_frame read_header
  read_frame-unknown_tag a b c d tag r h k =
      rw (le→ltb max_payload (be32 a b c d) k, unknown tag h) (unfold read_payload in refl)
