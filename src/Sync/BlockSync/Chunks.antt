-- ===== src/Sync/BlockSync/Chunks.antt =====
-- runtime/pullrun-sync/src/block_sync.rs: the chunks of a blob, put together again.
use pullrun.Base.{
  ℕ, zero, suc, ◌+◌, ◌-◌, ◌≤◌, ◌<◌, ◌≡◌, ◌≢◌, refl, sym, ap, ◌∙◌, inl, inr, Option, some, List, [],
  ◌∷◌, ◌++◌, append_assoc, append-nil, arith, leb, Bool-cases, leb→le, leb→lt, lt→ltb, le→ltb,
  le→leb, length, length-drop, take, drop,
}
use pullrun.Base.Words.{Bytes}
use pullrun.Store.Digest.{Digest, from_hex}
use pullrun.Sync.BlockSync.{
  BlobChunk, chunk_size, chunk_end, chunk_at, send_loop, send_blob, get_blobs,
}
use pullrun.Sync.Puller.{
  Stream, ended, messages, gives, collect, nonempty, nonempty_of, try_fetch_from_peer,
}

chunk_size-pos : 0 < chunk_size
unfolding chunk_size
chunk_size-pos = omega arith

take-all : (n : ℕ) (xs : Bytes) → length xs ≤ n → take n xs ≡ xs
take-all zero [] h = refl
take-all zero (x ∷ xs) h = absurd (omega arith)
take-all (suc n) [] h = refl
take-all (suc n) (x ∷ xs) h = ap (◌∷◌ x) (take-all n xs (omega arith))

take-drop : (n : ℕ) (xs : Bytes) → take n xs ++ drop n xs ≡ xs
take-drop zero xs = refl
take-drop (suc n) [] = refl
take-drop (suc n) (x ∷ xs) = ap (◌∷◌ x) (take-drop n xs)

drop-nil : (k : ℕ) → drop {A = ℕ} k [] ≡ []
drop-nil zero = refl
drop-nil (suc k) = refl

drop-drop : (m n : ℕ) (xs : Bytes) → drop n (drop m xs) ≡ drop (m + n) xs
drop-drop zero n xs = let e : 0 + n ≡ n = omega arith in rw e
drop-drop (suc m) n [] = let e : suc m + n ≡ suc (m + n) = omega arith in rw e (drop-nil n)
drop-drop (suc m) n (x ∷ xs) =
    let e : suc m + n ≡ suc (m + n) = omega arith in rw e (drop-drop m n xs)

-- The part of a blob from one offset on, its first chunk and the later ones.
chunk-append :
    (a b : ℕ) (body : Bytes) → a ≤ b → take (b - a) (drop a body) ++ drop b body ≡ drop a body
chunk-append a b body h =
    let e : a + (b - a) ≡ b = omega arith in
    let d : drop (b - a) (drop a body) ≡ drop b body =
      drop-drop a (b - a) body ∙ ap (λ (n : ℕ). drop n body) e in
    ap (λ (xs : Bytes). take (b - a) (drop a body) ++ xs) (sym d) ∙ take-drop (b - a) (drop a body)

-- What a sender's chunks are worth to a receiver that holds `acc`, whatever follows them.
record Sent (n : ℕ) (digest body : Bytes) (offset : ℕ) : Type 0 where
  chunks : List BlobChunk
  sent : send_loop n digest body offset ≡ some chunks
  received :
      (acc : Bytes) (rest : Stream)
      → collect (messages chunks rest) acc ≡ gives (some (acc ++ drop offset body))

last-chunk :
    (n : ℕ) (digest body : Bytes) (offset : ℕ)
    → offset < length body
    → length body ≤ chunk_end offset body
    → length body ≤ n + offset
    → Sent (suc n) digest body offset
unfolding send_loop collect
last-chunk zero digest body offset h l fuel = absurd (omega (arith, h, fuel))
last-chunk (suc n) digest body offset h l fuel =
    let all : take (chunk_end offset body - offset) (drop offset body) ≡ drop offset body =
      take-all (chunk_end offset body - offset) (drop offset body)
        (omega (arith, length-drop offset body, l)) in
    record {
      chunks = chunk_at digest body offset ∷ [];
      sent = rw (lt→ltb offset (length body) h, le→ltb (chunk_end offset body) (length body) l);
      received = λ acc rest. rw (le→leb (length body) (chunk_end offset body) l, all);
    }

send_loop-Sent :
    (n : ℕ) (digest body : Bytes) (offset : ℕ)
    → offset < length body
    → length body ≤ n + offset
    → Sent (suc n) digest body offset
unfolding send_loop collect
send_loop-Sent zero digest body offset h fuel = absurd (omega (arith, h, fuel))
send_loop-Sent (suc n) digest body offset h fuel =
    elim (Bool-cases (leb (length body) (chunk_end offset body))) [
      | inl l ↦ last-chunk (suc n) digest body offset h (leb→le _ _ l) fuel
      | inr more ↦
          let next : chunk_end offset body < length body = leb→lt _ _ more in
          let r =
            send_loop-Sent n digest body (chunk_end offset body) next
              (omega (arith, chunk_size-pos, next, fuel)) in
          record {
            chunks = chunk_at digest body offset ∷ r.chunks;
            sent = rw (lt→ltb offset (length body) h, r.sent);
            received = λ acc rest. rw (
              more,
              r.received (acc ++ take (chunk_end offset body - offset) (drop offset body)) rest,
              append_assoc,
              chunk-append offset (chunk_end offset body) body
                  (omega (arith, chunk_size-pos, next)),
            );
          }
    ]

nonempty-some : (body : Bytes) → body ≢ [] → nonempty (some body) ≡ some body
nonempty-some [] h = absurd (h refl)
nonempty-some (b ∷ bs) h = refl

positive : (body : Bytes) → body ≢ [] → 0 < length body
positive [] h = absurd (h refl)
positive (b ∷ bs) h = omega arith

-- A node that holds a nonempty blob answers a request for it with chunks that the other side puts
-- together to the blob; the rounds of the loop are enough for every length.
pub fetch-get_blobs :
    (hex_decode : Bytes → Option Bytes) (get_blob : Digest → Option Bytes) (digest : Bytes)
    (d : Digest) (body : Bytes)
    → from_hex hex_decode digest ≡ some d
    → get_blob d ≡ some body
    → body ≢ []
    → (chunks : List BlobChunk) × (get_blobs hex_decode get_blob (digest ∷ []) ≡ some chunks)
      × (try_fetch_from_peer (some (messages chunks ended)) ≡ gives (some body))
unfolding get_blobs send_blob try_fetch_from_peer
fetch-get_blobs hex_decode get_blob digest d body p g ne =
    let r = send_loop-Sent (length body) digest body 0 (positive body ne) (omega arith) in
    (
      r.chunks,
      rw (p, g, r.sent, append-nil),
      ap nonempty_of (r.received [] ended) ∙ ap gives (nonempty-some body ne),
    )
