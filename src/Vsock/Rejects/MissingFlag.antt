-- ===== src/Vsock/Rejects/MissingFlag.antt =====
-- runtime/pullrun-vsock/src/lib.rs: a WorkloadSpec payload that ends just before the `read_only`
-- byte of its last mount.
use pullrun.Base.{
  ℕ, ◌%◌, ◌<◌, ◌≡◌, ◌≢◌, refl, ap, sym, ◌≡⟨◌⟩◌, ◌∎, Bool, List, [], ◌∷◌, ◌++◌, arith, append_assoc,
  append-nil, length, All,
}
use pullrun.Base.Words.{Bytes, u32_mod}
use pullrun.Vsock.Frame.{FrameType, Frame, Spec, VsockMount, panic}
use pullrun.Vsock.Cursor.{get_u8, put_u8, put_u32, write_string, get-put_u32}
use pullrun.Vsock.Codec.{
  put_bool, put_len, write_strings, write_mounts, encode_spec, encode_payload, read_mount,
  read_mounts, read_opt_mounts, read_spec, decode_payload, decode,
}
use pullrun.Vsock.RoundTrip.Strings.{read-write_string, read-write_list}
use pullrun.Vsock.RoundTrip.Payload.{
  FitsSpec, FitsMount, read_mount-write, read_tty-put_bool, read_opt-put_u32, leb-put_u32,
}

unfoldable pub drop_last {ℓ} : {A : Type ℓ} → List A → List A
drop_last [] = []
drop_last (x ∷ []) = []
drop_last (x ∷ y ∷ r) = x ∷ drop_last (y ∷ r)

drop_last-append {ℓ} :
    {A : Type ℓ} (xs ys : List A) → ys ≢ [] → drop_last (xs ++ ys) ≡ xs ++ drop_last ys
unfolding drop_last
drop_last-append [] ys h = refl
drop_last-append (x ∷ []) [] h = absurd (h refl)
drop_last-append (x ∷ []) (y ∷ ys) h = refl
drop_last-append (x ∷ z ∷ xs) ys h = ap (◌∷◌ x) (drop_last-append (z ∷ xs) ys h)

string-ne-nil : (s r : Bytes) → write_string s ++ r ≢ []
unfolding write_string put_u32
string-ne-nil s r p = cc

mounts-ne-nil : (m : VsockMount) (ms : List VsockMount) → write_mounts (m ∷ ms) ≢ []
unfolding write_mounts
mounts-ne-nil m ms = string-ne-nil m.tag _

u32-ne-nil : (n : ℕ) (r : Bytes) → put_u32 n ++ r ≢ []
unfolding put_u32
u32-ne-nil n r p = cc

module _ (utf8 : Bytes → Bool) where
  mount-cut :
      (m : VsockMount)
      → FitsMount utf8 m
      → read_mount utf8 (write_string m.tag ++ write_string m.destination) ≡ panic
  unfolding read_mount
  mount-cut m h =
      rw
        (
          read-write_string utf8 FrameType.workload_spec m.tag (write_string m.destination) h.0,
          ← append-nil (write_string m.destination),
          read-write_string utf8 FrameType.workload_spec m.destination [] h.1,
        )
        (unfold get_u8 in refl)

  mounts-cut :
      (m : VsockMount) (ms : List VsockMount)
      → All (FitsMount utf8) (m ∷ ms)
      → read_mounts utf8 (length (m ∷ ms)) (drop_last (write_mounts (m ∷ ms))) ≡ panic
  unfolding read_mounts write_mounts
  mounts-cut m [] h = rw cut (rw (mount-cut m h.0))
    where
      cut : drop_last (write_mounts (m ∷ [])) ≡ write_string m.tag ++ write_string m.destination
      cut =
          rw
            (
              drop_last-append (write_string m.tag)
                  (write_string m.destination ++ (put_bool m.read_only ++ []))
                  (string-ne-nil m.destination _),
              drop_last-append (write_string m.destination) (put_bool m.read_only ++ [])
                  (unfold put_bool put_u8 in λ p. cc),
            )
            (unfold put_bool put_u8 drop_last in rw append-nil)
  mounts-cut m (m' ∷ ms) h = rw cut (rw (read_mount-write utf8 m _ h.0, mounts-cut m' ms h.1))
    where
      cut :
          drop_last (write_mounts (m ∷ m' ∷ ms))
          ≡ write_string m.tag
            ++ (write_string m.destination
                ++ (put_bool m.read_only ++ drop_last (write_mounts (m' ∷ ms))))
      cut = rw (
        drop_last-append (write_string m.tag)
            (write_string m.destination ++ (put_bool m.read_only ++ write_mounts (m' ∷ ms)))
            (string-ne-nil m.destination _),
        drop_last-append (write_string m.destination)
            (put_bool m.read_only ++ write_mounts (m' ∷ ms)) (unfold put_bool put_u8 in λ p. cc),
        drop_last-append (put_bool m.read_only) (write_mounts (m' ∷ ms)) (mounts-ne-nil m' ms),
      )

  abbrev before_mounts : Spec → Bytes → Bytes
  before_mounts s r =
      put_len s.command
      ++ (write_strings s.command
          ++ (put_len s.env
              ++ (write_strings s.env
                  ++ (write_string s.working_dir
                      ++ (put_bool s.tty
                          ++ (put_u32 s.rows ++ (put_u32 s.cols ++ (put_len s.mounts ++ r))))))))

  opt_mounts-cut :
      (ms : List VsockMount)
      → ms ≢ []
      → All (FitsMount utf8) ms
      → length ms < u32_mod
      → read_opt_mounts utf8 (put_len ms ++ drop_last (write_mounts ms)) ≡ panic
  unfolding read_opt_mounts put_len
  opt_mounts-cut [] ne h k = absurd (ne refl)
  opt_mounts-cut (m ∷ ms) ne h k =
      let e : length (m ∷ ms) % u32_mod ≡ length (m ∷ ms) = omega (arith, k) in
      let cut = drop_last (write_mounts (m ∷ ms)) in
      rw (
        e,
        get-put_u32 (length (m ∷ ms)) cut k,
        leb-put_u32 (length (m ∷ ms)) cut,
        mounts-cut m ms h,
      )

  spec-cut :
      (s : Spec)
      → FitsSpec utf8 s
      → s.mounts ≢ []
      → read_spec utf8 (before_mounts s (drop_last (write_mounts s.mounts))) ≡ panic
  unfolding read_spec
  spec-cut s h ne = rw (
    read-write_list utf8 s.command _ h.command h.command_count,
    read-write_list utf8 s.env _ h.env h.env_count,
    read-write_string utf8 FrameType.workload_spec s.working_dir _ h.working_dir,
    read_tty-put_bool s.tty _,
    read_opt-put_u32 s.rows _ h.rows,
    read_opt-put_u32 s.cols _ h.cols,
    opt_mounts-cut s.mounts ne h.mounts h.mount_count,
  )

  before_mounts-append : (s : Spec) (r : Bytes) → before_mounts s r ≡ before_mounts s [] ++ r
  before_mounts-append s r = simp append_assoc

  cut-before_mounts :
      (s : Spec) (r : Bytes)
      → r ≢ []
      → drop_last (before_mounts s r) ≡ before_mounts s (drop_last r)
  cut-before_mounts s r ne =
      drop_last (before_mounts s r)
      ≡⟨ ap drop_last (before_mounts-append s r) ⟩ drop_last (before_mounts s [] ++ r)
      ≡⟨ drop_last-append (before_mounts s []) r ne ⟩ before_mounts s [] ++ drop_last r
      ≡⟨ sym (before_mounts-append s (drop_last r)) ⟩ before_mounts s (drop_last r) ∎

  written-ne-nil : (ms : List VsockMount) → ms ≢ [] → write_mounts ms ≢ []
  written-ne-nil [] ne = absurd (ne refl)
  written-ne-nil (m ∷ ms) ne = mounts-ne-nil m ms

  -- The payload of a WorkloadSpec whose parts fit and that has at least one mount, without its
  -- last byte, makes the decoder panic.
  pub decode-missing_flag :
      (s : Spec)
      → FitsSpec utf8 s
      → s.mounts ≢ []
      → decode utf8 FrameType.workload_spec (drop_last (encode_payload (Frame.workload_spec s)))
        ≡ panic
  unfolding decode decode_payload encode_payload encode_spec
  decode-missing_flag s h ne =
      rw (cut-before_mounts s (write_mounts s.mounts) (written-ne-nil s.mounts ne), spec-cut s h ne)
