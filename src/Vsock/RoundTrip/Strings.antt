-- ===== src/Vsock/RoundTrip/Strings.antt =====
-- Strings and lists of strings on the wire.
use pullrun.Base.{
  ℕ, ◌%◌, ◌≤◌, ◌<◌, ◌≡◌, refl, Bool, true, List, [], ◌∷◌, ◌++◌, arith, append_assoc, le→ltb, length,
  length-append, take-append_length, drop-append_length, All,
}
use pullrun.Base.Words.{Bytes, u32_mod}
use pullrun.Vsock.Frame.{FrameType, ok}
use pullrun.Vsock.Cursor.{need, put_u32, write_string, take_string, read_string, get-put_u32}
use pullrun.Vsock.Codec.{write_strings, put_len, read_strings, read_list}

-- A Rust `String` whose length a u32 holds.
abbrev pub IsText : (Bytes → Bool) → Bytes → Type 0
IsText utf8 s = (utf8 s ≡ true) × (length s < u32_mod)

pub need_enough :
    (ty : FrameType) (n : ℕ) (cur : Bytes) → n ≤ length cur → need ty n cur ≡ ok (tt, cur)
unfolding need
need_enough ty n cur h = rw (le→ltb _ _ h)

pub need-put_u32 :
    (ty : FrameType) (n : ℕ) (rest : Bytes)
    → need ty 4 (put_u32 n ++ rest) ≡ ok (tt, put_u32 n ++ rest)
unfolding put_u32
need-put_u32 ty n rest = need_enough ty 4 _ (omega arith)

module _ (utf8 : Bytes → Bool) where
  take_string-append :
      (ty : FrameType) (s rest : Bytes)
      → IsText utf8 s
      → take_string utf8 ty (length s) (s ++ rest) ≡ ok (s, rest)
  unfolding take_string
  take_string-append ty s rest h = rw (
    le→ltb (length (s ++ rest)) (length s) (omega (arith, length-append s rest)),
    take-append_length s rest,
    h.0,
    drop-append_length s rest,
  )

  pub read-write_string :
      (ty : FrameType) (s rest : Bytes)
      → IsText utf8 s
      → read_string utf8 ty (write_string s ++ rest) ≡ ok (s, rest)
  unfolding read_string write_string
  read-write_string ty s rest h =
      let e : length s % u32_mod ≡ length s = omega (arith, h.1) in
      rw (e, append_assoc, need-put_u32 ty, get-put_u32 (length s) (s ++ rest) h.1)
        (take_string-append ty s rest h)

  pub read-write_strings :
      (ss : List Bytes) (rest : Bytes)
      → All (IsText utf8) ss
      → read_strings utf8 (length ss) (write_strings ss ++ rest) ≡ ok (ss, rest)
  unfolding read_strings write_strings
  read-write_strings [] rest h = refl
  read-write_strings (s ∷ ss) rest h = rw (
    append_assoc,
    read-write_string _ s (write_strings ss ++ rest) h.0,
    read-write_strings ss rest h.1,
  )

  pub read-write_list :
      (ss : List Bytes) (rest : Bytes)
      → All (IsText utf8) ss
      → length ss < u32_mod
      → read_list utf8 (put_len ss ++ (write_strings ss ++ rest)) ≡ ok (ss, rest)
  unfolding read_list put_len
  read-write_list ss rest h k =
      let e : length ss % u32_mod ≡ length ss = omega (arith, k) in
      rw
        (
          e,
          need-put_u32 FrameType.workload_spec,
          get-put_u32 (length ss) (write_strings ss ++ rest) k,
        )
        (read-write_strings ss rest h)
