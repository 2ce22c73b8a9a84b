-- ===== src/Vsock/RoundTrip/Payload.antt =====
-- Payloads: every frame whose parts fit the wire's length fields is read back from its payload.
use pullrun.Base.{
  ℕ, ◌%◌, ◌<◌, ◌≡◌, refl, Bool, true, false, Option, none, some, List, [], ◌∷◌, ◌++◌, arith,
  append_assoc, append-nil, leb, not, ◌==◌, length, All,
}
use pullrun.Base.Words.{Bytes, u16_mod, u32_mod, be16_bytes}
use pullrun.Vsock.Frame.{FrameType, Frame, Spec, VsockMount, ok, frame_type}
use pullrun.Vsock.Cursor.{
  ◌>>=◌, pure, need, get_u8, get_u16, put_u8, put_u16, put_u32, write_string, read_string,
  get-put_u32, get-put_u8,
}
use pullrun.Vsock.Codec.{
  put_bool, put_len, put_opt, write_mounts, encode_spec, exit_flags, encode_payload, read_tty,
  read_opt_u32, read_flagged, read_exit, read_window_size, read_mount, read_mounts, read_opt_mounts,
  read_spec, read_hello, read_error, decode_payload, decode,
}
use pullrun.Vsock.RoundTrip.Strings.{
  IsText, need_enough, need-put_u32, read-write_string, read-write_list,
}

abbrev pub FitsMount : (Bytes → Bool) → VsockMount → Type 0
FitsMount utf8 m = IsText utf8 m.tag × IsText utf8 m.destination

pub record FitsSpec (utf8 : Bytes → Bool) (s : Spec) : Type 0 where
  pub command : All (IsText utf8) s.command
  pub command_count : length s.command < u32_mod
  pub env : All (IsText utf8) s.env
  pub env_count : length s.env < u32_mod
  pub working_dir : IsText utf8 s.working_dir
  pub rows : s.rows < u32_mod
  pub cols : s.cols < u32_mod
  pub mounts : All (FitsMount utf8) s.mounts
  pub mount_count : length s.mounts < u32_mod

abbrev pub FitsOpt : Option ℕ → Type 0
FitsOpt none = Unit
FitsOpt (some c) = c < u32_mod

-- The numbers fit their types, and each length its 32-bit field.
abbrev pub Fits : (Bytes → Bool) → Frame → Type 0
Fits utf8 (Frame.init_hello id pid) = IsText utf8 id × (pid < u32_mod)
Fits utf8 (Frame.workload_spec s) = FitsSpec utf8 s
Fits utf8 (Frame.workload_exit c s) = FitsOpt c × FitsOpt s
Fits utf8 (Frame.error m) = IsText utf8 m
Fits utf8 (Frame.window_size r c) = (r < u16_mod) × (c < u16_mod)
Fits utf8 _ = Unit

pub read_tty-put_bool : (b : Bool) (rest : Bytes) → read_tty (put_bool b ++ rest) ≡ ok (b, rest)
unfolding read_tty put_bool put_u8 get_u8
read_tty-put_bool true rest = ground arith
read_tty-put_bool false rest = ground arith

pub leb-put_u32 : (n : ℕ) (rest : Bytes) → leb 4 (length (put_u32 n ++ rest)) ≡ true
unfolding put_u32
leb-put_u32 n rest = ground arith

pub read_opt-put_u32 :
    (n : ℕ) (rest : Bytes) → n < u32_mod → read_opt_u32 (put_u32 n ++ rest) ≡ ok (n, rest)
unfolding read_opt_u32
read_opt-put_u32 n rest h = rw (get-put_u32 n rest h) (rw (leb-put_u32 n rest))

module _ (utf8 : Bytes → Bool) where
  pub read_mount-write :
      (m : VsockMount) (rest : Bytes)
      → FitsMount utf8 m
      → read_mount utf8
          (write_string m.tag ++ (write_string m.destination ++ (put_bool m.read_only ++ rest)))
        ≡ ok (m, rest)
  unfolding read_mount
  read_mount-write m rest h =
      rw
        (
          read-write_string utf8 FrameType.workload_spec m.tag _ h.0,
          read-write_string utf8 FrameType.workload_spec m.destination
              (put_bool m.read_only ++ rest) h.1,
        )
        (unfold put_bool put_u8 get_u8 in ground arith)

  pub read_mounts-write :
      (ms : List VsockMount) (rest : Bytes)
      → All (FitsMount utf8) ms
      → read_mounts utf8 (length ms) (write_mounts ms ++ rest) ≡ ok (ms, rest)
  unfolding read_mounts write_mounts
  read_mounts-write [] rest h = refl
  read_mounts-write (m ∷ ms) rest h =
      simp append_assoc
        (rw (read_mount-write m (write_mounts ms ++ rest) h.0, read_mounts-write ms rest h.1))

  read_opt_mounts-write :
      (ms : List VsockMount)
      → All (FitsMount utf8) ms
      → length ms < u32_mod
      → read_opt_mounts utf8 (put_len ms ++ write_mounts ms) ≡ ok (ms, [])
  unfolding read_opt_mounts put_len
  read_opt_mounts-write ms h k =
      let e : length ms % u32_mod ≡ length ms = omega (arith, k) in
      rw (e, get-put_u32 (length ms) (write_mounts ms) k, leb-put_u32 (length ms) (write_mounts ms))
        (rw append-nil at (read_mounts-write ms [] h))

  spec-read :
      (s : Spec) → FitsSpec utf8 s → read_spec utf8 (encode_spec s) ≡ ok (Frame.workload_spec s, [])
  unfolding read_spec encode_spec
  spec-read s h = rw (
    read-write_list utf8 s.command _ h.command h.command_count,
    read-write_list utf8 s.env _ h.env h.env_count,
    read-write_string utf8 FrameType.workload_spec s.working_dir _ h.working_dir,
    read_tty-put_bool s.tty _,
    read_opt-put_u32 s.rows _ h.rows,
    read_opt-put_u32 s.cols _ h.cols,
    read_opt_mounts-write s.mounts h.mounts h.mount_count,
  )

  exit_flag :
      (flags : ℕ) (rest : Bytes)
      → flags < 256
      → read_exit (put_u8 flags ++ rest)
        ≡ ◌>>=◌
            (read_flagged FrameType.workload_exit (not (flags % 2 == 0)))
            (λ code. do
              signal ← read_flagged FrameType.workload_exit (leb 2 (flags % 4))
              pure (Frame.workload_exit code signal))
            rest
  unfolding read_exit
  exit_flag flags rest h = rw (
    need_enough FrameType.workload_exit 1 (put_u8 flags ++ rest) (unfold put_u8 in omega arith),
    get-put_u8 flags rest h,
  )

  unflagged-read : (ty : FrameType) (cur : Bytes) → read_flagged ty false cur ≡ ok (none, cur)
  unfolding read_flagged
  unflagged-read ty cur = refl

  flagged-read :
      (ty : FrameType) (c : ℕ) (rest : Bytes)
      → c < u32_mod
      → read_flagged ty true (put_u32 c ++ rest) ≡ ok (some c, rest)
  unfolding read_flagged
  flagged-read ty c rest h = rw (need-put_u32 ty, get-put_u32 c rest h)

  whole_string :
      (ty : FrameType) (s : Bytes)
      → IsText utf8 s
      → read_string utf8 ty (write_string s) ≡ ok (s, [])
  whole_string ty s h = rw append-nil at (read-write_string utf8 ty s [] h)

  error-read :
      (m : Bytes) → IsText utf8 m → read_error utf8 (write_string m) ≡ ok (Frame.error m, [])
  unfolding read_error
  error-read m h = rw (whole_string FrameType.error m h)

  hello-read :
      (id : Bytes) (pid : ℕ)
      → IsText utf8 id
      → pid < u32_mod
      → read_hello utf8 (put_u32 pid ++ write_string id) ≡ ok (Frame.init_hello id pid, [])
  unfolding read_hello
  hello-read id pid h k = rw (
    need-put_u32 FrameType.init_hello,
    get-put_u32 pid (write_string id) k,
    whole_string FrameType.init_hello id h,
  )

  exit-read :
      (c s : Option ℕ)
      → FitsOpt c
      → FitsOpt s
      → read_exit (put_u8 (exit_flags c s) ++ (put_opt c ++ put_opt s))
        ≡ ok (Frame.workload_exit c s, [])
  unfolding put_opt exit_flags
  exit-read none none h k = rw (exit_flag 0 [] (omega arith), unflagged-read, unflagged-read)
  exit-read none (some s) h k = rw (
    exit_flag 2 (put_u32 s) (omega arith),
    unflagged-read,
    ← append-nil (put_u32 s),
    flagged-read FrameType.workload_exit s [] k,
  )
  exit-read (some c) none h k = rw (
    exit_flag 1 (put_u32 c ++ []) (omega arith),
    flagged-read FrameType.workload_exit c [] h,
    unflagged-read,
  )
  exit-read (some c) (some s) h k = rw (
    exit_flag 3 (put_u32 c ++ put_u32 s) (omega arith),
    flagged-read FrameType.workload_exit c (put_u32 s) h,
    ← append-nil (put_u32 s),
    flagged-read FrameType.workload_exit s [] k,
  )

  window-read :
      (r c : ℕ)
      → r < u16_mod
      → c < u16_mod
      → read_window_size (put_u16 r ++ put_u16 c) ≡ ok (Frame.window_size r c, [])
  unfolding read_window_size need put_u16 get_u16
  window-read r c h k = rw (be16_bytes r h, be16_bytes c k)

  -- Decoding the payload of a frame whose parts fit, by the frame's type, gives the frame back.
  pub decode-encode_payload :
      (f : Frame) → Fits utf8 f → decode utf8 (frame_type f) (encode_payload f) ≡ ok f
  unfolding decode decode_payload encode_payload frame_type
  decode-encode_payload (Frame.init_hello id pid) h = rw (hello-read id pid h.0 h.1)
  decode-encode_payload (Frame.workload_spec s) h = rw (spec-read s h)
  decode-encode_payload (Frame.workload_stdout b) h = refl
  decode-encode_payload (Frame.workload_stderr b) h = refl
  decode-encode_payload (Frame.workload_stdin b) h = refl
  decode-encode_payload Frame.stdin_eof h = refl
  decode-encode_payload (Frame.workload_exit c s) h = rw (exit-read c s h.0 h.1)
  decode-encode_payload (Frame.error m) h = rw (error-read m h)
  decode-encode_payload (Frame.window_size r c) h = rw (window-read r c h.0 h.1)
