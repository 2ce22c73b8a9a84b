-- ===== src/Vsock/Frame.antt =====
-- runtime/pullrun-vsock/src/lib.rs: `FrameType`, `Frame`, `VsockMount`, `ProtocolError`.
-- A `String` and a `Bytes` are their bytes; an i32 is its 32-bit pattern.
use pullrun.Base.{ℕ, ◌≡◌, refl, Bool, Option, none, some, List, ◌==◌, if◌then◌else◌}
use pullrun.Base.Words.{Bytes}

pub data FrameType : Type 0 where
  init_hello workload_spec workload_stdout workload_stderr workload_stdin : FrameType
  stdin_eof workload_exit error window_size : FrameType

-- `ty as u8`
unfoldable pub to_u8 : FrameType → ℕ
to_u8 FrameType.init_hello = 1
to_u8 FrameType.workload_spec = 2
to_u8 FrameType.workload_stdout = 3
to_u8 FrameType.workload_stderr = 4
to_u8 FrameType.workload_stdin = 5
to_u8 FrameType.stdin_eof = 6
to_u8 FrameType.workload_exit = 7
to_u8 FrameType.error = 8
to_u8 FrameType.window_size = 9

unfoldable pub from_u8 : ℕ → Option FrameType
from_u8 b =
    if b == 1
    then some FrameType.init_hello
    else if b == 2
    then some FrameType.workload_spec
    else if b == 3
    then some FrameType.workload_stdout
    else if b == 4
    then some FrameType.workload_stderr
    else if b == 5
    then some FrameType.workload_stdin
    else if b == 6
    then some FrameType.stdin_eof
    else if b == 7
    then some FrameType.workload_exit
    else if b == 8
    then some FrameType.error
    else if b == 9
    then some FrameType.window_size
    else none

pub record VsockMount : Type 0 where
  pub tag : Bytes
  pub destination : Bytes
  pub read_only : Bool

pub record Spec : Type 0 where
  pub command : List Bytes
  pub env : List Bytes
  pub working_dir : Bytes
  pub tty : Bool
  pub rows : ℕ
  pub cols : ℕ
  pub mounts : List VsockMount

pub data Frame : Type 0 where
  init_hello : Bytes → ℕ → Frame
  workload_spec : Spec → Frame
  workload_stdout : Bytes → Frame
  workload_stderr : Bytes → Frame
  workload_stdin : Bytes → Frame
  stdin_eof : Frame
  workload_exit : Option ℕ → Option ℕ → Frame
  error : Bytes → Frame
  window_size : ℕ → ℕ → Frame

unfoldable pub frame_type : Frame → FrameType
frame_type (Frame.init_hello id pid) = FrameType.init_hello
frame_type (Frame.workload_spec s) = FrameType.workload_spec
frame_type (Frame.workload_stdout b) = FrameType.workload_stdout
frame_type (Frame.workload_stderr b) = FrameType.workload_stderr
frame_type (Frame.workload_stdin b) = FrameType.workload_stdin
frame_type Frame.stdin_eof = FrameType.stdin_eof
frame_type (Frame.workload_exit c s) = FrameType.workload_exit
frame_type (Frame.error m) = FrameType.error
frame_type (Frame.window_size r c) = FrameType.window_size

pub data ProtocolError : Type 0 where
  unexpected_eof : FrameType → ProtocolError
  payload_too_large : ℕ → ProtocolError
  truncated : FrameType → ℕ → ℕ → ProtocolError
  bad_utf8 : FrameType → ProtocolError
  io : ProtocolError

-- What a call gives: `Ok`, `Err`, or a panic of the `bytes` crate's unchecked getters.
pub data Outcome {ℓ} (A : Type ℓ) : Type ℓ where
  ok : A → Outcome A
  err : ProtocolError → Outcome A
  panic : Outcome A

-- The tag byte determines the frame type.
pub from_u8-to_u8 : (ty : FrameType) → from_u8 (to_u8 ty) ≡ some ty
unfolding from_u8 to_u8
from_u8-to_u8 FrameType.init_hello = refl
from_u8-to_u8 _ = refl
