-- ===== src/Vsock/Tests.antt =====
-- runtime/pullrun-vsock/src/lib.rs: the frames on concrete bytes.
use pullrun.Base.{
  ℕ, ◌≤◌, ◌≡◌, refl, Bool, true, ◌&&◌, none, some, [], ◌∷◌, ◌++◌, arith, ltb, length, replicate,
  length-replicate,
}
use pullrun.Base.Words.{Bytes}
use pullrun.Vsock.Frame.{Frame, Spec, ok}
use pullrun.Vsock.Codec.{
  encode_payload, encode_spec, put_len, write_strings, write_mounts, put_bool,
}
use pullrun.Vsock.Cursor.{write_string, put_u32, put_u8}
use pullrun.Vsock.Stream.{read_frame, write_frame, max_payload}
use pullrun.Vsock.RoundTrip.{read-write_frame}
use pullrun.Vsock.RoundTrip.Payload.{FitsSpec}

-- The ASCII part of UTF-8.
abbrev ascii : Bytes → Bool
ascii [] = true
ascii (b ∷ bs) = ltb b 128 && ascii bs

abbrev shell : Spec
shell = record {
  command = (47 ∷ 98 ∷ []) ∷ (45 ∷ 99 ∷ []) ∷ [];
  env = (65 ∷ 61 ∷ 49 ∷ []) ∷ [];
  working_dir = 47 ∷ [];
  tty = true;
  rows = 24;
  cols = 80;
  mounts = record { tag = 118 ∷ []; destination = 47 ∷ 118 ∷ []; read_only = true } ∷ [];
}

shell-FitsSpec : FitsSpec ascii shell
shell-FitsSpec = record {
  command = ((refl, omega arith), ((refl, omega arith), tt));
  command_count = omega arith;
  env = ((refl, omega arith), tt);
  env_count = omega arith;
  working_dir = (refl, omega arith);
  rows = omega arith;
  cols = omega arith;
  mounts = (((refl, omega arith), (refl, omega arith)), tt);
  mount_count = omega arith;
}

abbrev hello : Frame
hello = Frame.init_hello (110 ∷ 49 ∷ []) 300

hello-short : length (encode_payload hello) ≤ max_payload
unfolding encode_payload write_string put_u32
hello-short = omega arith

shell-short : length (encode_payload (Frame.workload_spec shell)) ≤ max_payload
unfolding encode_payload encode_spec put_len write_strings write_mounts put_bool write_string
    put_u32 put_u8
shell-short = omega arith

abbrev exited : Frame
exited = Frame.workload_exit (some 4294967295) none

read-write_frame_example :
    read_frame ascii (write_frame [] hello ++ 1 ∷ 2 ∷ []) ≡ ok (hello, 1 ∷ 2 ∷ [])
read-write_frame_example =
    read-write_frame ascii hello (1 ∷ 2 ∷ []) ((refl, omega arith), omega arith) hello-short

-- Zeros, counted but not computed.
unfoldable zeros : ℕ → Bytes
zeros n = replicate n 0

length-stdout : (n : ℕ) → length (encode_payload (Frame.workload_stdout (zeros n))) ≡ n
unfolding encode_payload zeros
length-stdout n = length-replicate n 0

abbrev big : Frame
big = Frame.workload_stdout (zeros 16777217)
