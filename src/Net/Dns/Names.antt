-- ===== src/Net/Dns/Names.antt =====
-- runtime/pullrun-net/src/dns.rs: the names that `build_a_response` writes are those that
-- `parse_qname` reads.
use pullrun.Base.{
  ℕ, zero, suc, ◌%◌, ◌≤◌, ◌<◌, ◌≡◌, ◌≢◌, refl, sym, ap, ◌∙◌, inl, inr, Bool, true, false, not, ◌||◌,
  List, [], ◌∷◌, ◌++◌, append_assoc, append-nil, All, ◌==◌, ltb, length, take, drop, length-drop,
  length-append, take-append_length, drop-append_length, Bool-cases, arith,
}
use pullrun.Base.Words.{Bytes}
use pullrun.Base.Text.{split_on, cat, cat, cat_rest, cat-split_on}
use pullrun.Net.Dns.{qname, endless, dotted, qname_loop, parse_qname, encode_labels, encode_name}

module _ (utf8 : Bytes → Bool) where
  loop-ends :
      (fuel : ℕ) (name buf : Bytes) → length buf ≤ fuel → qname_loop utf8 fuel name buf ≢ endless
  unfolding qname_loop
  loop-ends fuel name [] h e = cc
  loop-ends zero name (len ∷ buf) h e = absurd (omega arith)
  loop-ends (suc fuel) name (len ∷ buf) h e = elim (Bool-cases (len == 0)) [
    | inl y ↦ cc (y, e)
    | inr n ↦ elim (Bool-cases (ltb (length buf) len || not (utf8 (take len buf)))) [
      | inl y ↦ cc (n, y, e)
      | inr f ↦
          loop-ends fuel (dotted name (take len buf)) (drop len buf)
            (omega (arith, length-drop len buf)) (rw (qname_loop, n, f) at e)
    ]
  ]

  -- `parse_qname` ends on every input.
  pub parse_qname-ends : (buf : Bytes) → parse_qname utf8 buf ≢ endless
  unfolding parse_qname
  parse_qname-ends buf = loop-ends (length buf) [] buf (omega arith)

  -- A label that fits in its length byte.
  abbrev pub IsLabel : Bytes → Type 0
  IsLabel l = (1 ≤ length l) × (length l < 256) × (utf8 l ≡ true)

  abbrev joined : Bytes → List Bytes → Bytes
  joined name [] = name
  joined name (l ∷ ls) = joined (dotted name l) ls

  loop_label :
      (fuel len : ℕ) (name buf l more : Bytes)
      → (len == 0) ≡ false
      → ltb (length buf) len ≡ false
      → take len buf ≡ l
      → drop len buf ≡ more
      → utf8 l ≡ true
      → qname_loop utf8 (suc fuel) name (len ∷ buf) ≡ qname_loop utf8 fuel (dotted name l) more
  unfolding qname_loop
  loop_label fuel len name buf l more some_byte long taken left valid =
      rw (← taken, ← left) (let good : utf8 (take len buf) ≡ true = ap utf8 taken ∙ valid in cc)

  loop-labels :
      (fuel : ℕ) (name : Bytes) (ls : List Bytes) (rest : Bytes)
      → All IsLabel ls
      → length (encode_labels ls) ≤ fuel
      → qname_loop utf8 fuel name (encode_labels ls ++ rest) ≡ qname (joined name ls)
  unfolding qname_loop
  loop-labels zero name [] rest h f = absurd (omega arith)
  loop-labels (suc fuel) name [] rest h f = refl
  loop-labels zero name (l ∷ ls) rest h f = absurd (omega arith)
  loop-labels (suc fuel) name (l ∷ ls) rest ((some_byte, short, valid), t) f =
      let len : length l % 256 ≡ length l = omega arith in
      let split : l ++ encode_labels ls ++ rest ≡ l ++ (encode_labels ls ++ rest) =
        append_assoc l (encode_labels ls) rest in
      let taken : take (length l) (l ++ encode_labels ls ++ rest) ≡ l =
        ap (take (length l)) split ∙ take-append_length l (encode_labels ls ++ rest) in
      let left : drop (length l) (l ++ encode_labels ls ++ rest) ≡ encode_labels ls ++ rest =
        ap (drop (length l)) split ∙ drop-append_length l (encode_labels ls ++ rest) in
      let first : (length l == 0) ≡ false = ground arith in
      let long : ltb (length (l ++ encode_labels ls ++ rest)) (length l) ≡ false =
        ground
          (arith, length-append l (encode_labels ls), length-append (l ++ encode_labels ls) rest) in
      ap (λ n. qname_loop utf8 (suc fuel) name (n ∷ (l ++ encode_labels ls ++ rest))) len
      ∙ loop_label fuel (length l) name (l ++ encode_labels ls ++ rest) l (encode_labels ls ++ rest)
          first long taken left valid
      ∙ loop-labels fuel (dotted name l) ls rest t
          (omega (arith, length-append l (encode_labels ls)))

  joined-cat :
      (name : Bytes) (ls : List Bytes) → 1 ≤ length name → joined name ls ≡ name ++ cat_rest b'.' ls
  joined-cat name [] h = sym (append-nil name)
  joined-cat [] (l ∷ ls) h = absurd (omega arith)
  joined-cat (c ∷ name) (l ∷ ls) h =
      joined-cat ((c ∷ name) ++ b'.' ∷ l) ls (omega arith)
      ∙ append_assoc (c ∷ name) (b'.' ∷ l) (cat_rest b'.' ls)

  joined-split : (ls : List Bytes) → All IsLabel ls → joined [] ls ≡ cat b'.' ls
  joined-split [] h = refl
  joined-split (l ∷ ls) (h, t) = joined-cat l ls h.0

  -- The encoding of a name whose parts are valid UTF-8 of 1 to 255 bytes parses to the name, whatever
  -- follows it.
  pub parse-encode_name :
      (name rest : Bytes)
      → All IsLabel (split_on b'.' name)
      → parse_qname utf8 (encode_name name ++ rest) ≡ qname name
  unfolding parse_qname
  parse-encode_name name rest h =
      loop-labels (length (encode_name name ++ rest)) [] (split_on b'.' name) rest h
        (omega (arith, length-append (encode_name name) rest))
      ∙ ap qname (joined-split (split_on b'.' name) h ∙ cat-split_on b'.' name)
