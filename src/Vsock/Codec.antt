-- ===== src/Vsock/Codec.antt =====
-- runtime/pullrun-vsock/src/lib.rs: `encode_payload`, `decode_payload`, `encode`, `decode`.
-- `utf8` stands for `std::str::from_utf8(bytes).is_ok()`.
use pullrun.Base.{
  ℕ, zero, suc, ◌%◌, Bool, true, false, not, Option, none, some, List, [], ◌∷◌, ◌++◌, leb, ◌==◌,
  if◌then◌else◌, length,
}
use pullrun.Base.Words.{Bytes, u32_mod}
use pullrun.Vsock.Frame.{
  FrameType, Frame, Spec, VsockMount, Outcome, ok, err, panic, frame_type, to_u8,
}
use pullrun.Vsock.Cursor.{
  Reader, ◌>>=◌, ◌>>◌, pure, need, get_u8, get_u16, get_u32, put_u8, put_u16, put_u32, write_string,
  read_string,
}

unfoldable pub put_bool : Bool → Bytes
put_bool b = put_u8 (if b then 1 else 0)

unfoldable pub write_strings : List Bytes → Bytes
write_strings [] = []
write_strings (s ∷ ss) = write_string s ++ write_strings ss

unfoldable pub write_mounts : List VsockMount → Bytes
write_mounts [] = []
write_mounts (m ∷ ms) =
    write_string m.tag ++ (write_string m.destination ++ (put_bool m.read_only ++ write_mounts ms))

-- `put_u32(v.len() as u32)`
unfoldable pub put_len {ℓ} : {A : Type ℓ} → List A → Bytes
put_len xs = put_u32 (length xs % u32_mod)

unfoldable pub encode_spec : Spec → Bytes
encode_spec s =
    put_len s.command
    ++ (write_strings s.command
        ++ (put_len s.env
            ++ (write_strings s.env
                ++ (write_string s.working_dir
                    ++ (put_bool s.tty
                        ++ (put_u32 s.rows
                            ++ (put_u32 s.cols ++ (put_len s.mounts ++ write_mounts s.mounts))))))))

unfoldable pub exit_flags : Option ℕ → Option ℕ → ℕ
exit_flags none none = 0
exit_flags (some c) none = 1
exit_flags none (some s) = 2
exit_flags (some c) (some s) = 3

unfoldable pub put_opt : Option ℕ → Bytes
put_opt none = []
put_opt (some c) = put_u32 c

unfoldable pub encode_payload : Frame → Bytes
encode_payload (Frame.init_hello id pid) = put_u32 pid ++ write_string id
encode_payload (Frame.workload_spec s) = encode_spec s
encode_payload (Frame.workload_stdout b) = b
encode_payload (Frame.workload_stderr b) = b
encode_payload (Frame.workload_stdin b) = b
encode_payload Frame.stdin_eof = []
encode_payload (Frame.workload_exit c s) = put_u8 (exit_flags c s) ++ (put_opt c ++ put_opt s)
encode_payload (Frame.error m) = write_string m
encode_payload (Frame.window_size r c) = put_u16 r ++ put_u16 c

-- The whole frame: length, tag, payload.
unfoldable pub encode : Frame → Bytes
encode f = put_len (encode_payload f) ++ (to_u8 (frame_type f) ∷ encode_payload f)

-- The fields that older peers leave out.
unfoldable pub read_tty : Reader Bool
read_tty cur =
    if leb 1 (length cur) then (do b ← get_u8; pure (not (b == 0))) cur else ok (false, cur)

unfoldable pub read_opt_u32 : Reader ℕ
read_opt_u32 cur = if leb 4 (length cur) then get_u32 cur else ok (0, cur)

-- `if flag { if cur.remaining() < 4 { return Err(..) } Some(cur.get_i32()) } else { None }`
unfoldable pub read_flagged : FrameType → Bool → Reader (Option ℕ)
read_flagged ty false = pure none
read_flagged ty true = do need ty 4; c ← get_u32; pure (some c)

unfoldable pub read_window_size : Reader Frame
read_window_size = do
  need FrameType.window_size 4
  rows ← get_u16
  cols ← get_u16
  pure (Frame.window_size rows cols)

-- Bits 0 and 1 of the flag byte.
unfoldable pub read_exit : Reader Frame
read_exit = do
  need FrameType.workload_exit 1
  flags ← get_u8
  code ← read_flagged FrameType.workload_exit (not (flags % 2 == 0))
  signal ← read_flagged FrameType.workload_exit (leb 2 (flags % 4))
  pure (Frame.workload_exit code signal)

abbrev pub finish : Outcome (Frame × Bytes) → Outcome Frame
finish (ok (f, cur)) = ok f
finish (err e) = err e
finish panic = panic

module _ (utf8 : Bytes → Bool) where
  unfoldable pub read_strings : ℕ → Reader (List Bytes)
  read_strings zero = pure []
  read_strings (suc n) = do
    s ← read_string utf8 FrameType.workload_spec
    rest ← read_strings n
    pure (s ∷ rest)

  -- The last getter has no guard of its own.
  unfoldable pub read_mount : Reader VsockMount
  read_mount = do
    tag ← read_string utf8 FrameType.workload_spec
    destination ← read_string utf8 FrameType.workload_spec
    read_only ← get_u8
    pure (record { tag = tag; destination = destination; read_only = not (read_only == 0) })

  unfoldable pub read_mounts : ℕ → Reader (List VsockMount)
  read_mounts zero = pure []
  read_mounts (suc n) = do m ← read_mount; rest ← read_mounts n; pure (m ∷ rest)

  unfoldable pub read_opt_mounts : Reader (List VsockMount)
  read_opt_mounts cur =
      if leb 4 (length cur) then (do n ← get_u32; read_mounts n) cur else ok ([], cur)

  unfoldable pub read_list : Reader (List Bytes)
  read_list = do need FrameType.workload_spec 4; n ← get_u32; read_strings n

  unfoldable pub read_spec : Reader Frame
  read_spec = do
    command ← read_list
    env ← read_list
    working_dir ← read_string utf8 FrameType.workload_spec
    tty ← read_tty
    rows ← read_opt_u32
    cols ← read_opt_u32
    mounts ← read_opt_mounts
    pure (
        Frame.workload_spec (record {
          command = command;
          env = env;
          working_dir = working_dir;
          tty = tty;
          rows = rows;
          cols = cols;
          mounts = mounts;
        }))

  unfoldable pub read_hello : Reader Frame
  read_hello = do
    need FrameType.init_hello 4
    pid ← get_u32
    id ← read_string utf8 FrameType.init_hello
    pure (Frame.init_hello id pid)

  unfoldable pub read_error : Reader Frame
  read_error = do msg ← read_string utf8 FrameType.error; pure (Frame.error msg)

  -- The decoder of each type; what it leaves of the payload is dropped by `decode`.
  unfoldable pub decode_payload : FrameType → Reader Frame
  decode_payload FrameType.init_hello = read_hello
  decode_payload FrameType.workload_spec = read_spec
  decode_payload FrameType.workload_stdout = λ cur. ok (Frame.workload_stdout cur, [])
  decode_payload FrameType.workload_stderr = λ cur. ok (Frame.workload_stderr cur, [])
  decode_payload FrameType.workload_stdin = λ cur. ok (Frame.workload_stdin cur, [])
  decode_payload FrameType.stdin_eof = pure Frame.stdin_eof
  decode_payload FrameType.workload_exit = read_exit
  decode_payload FrameType.error = read_error
  decode_payload FrameType.window_size = read_window_size

  unfoldable pub decode : FrameType → Bytes → Outcome Frame
  decode ty payload = finish (decode_payload ty payload)
