-- ===== src/Sync/Gossip/Fresh.antt =====
-- runtime/pullrun-sync/src/gossip.rs: the cache over time, and the peers that it names.
use mathlib.Core.List.{Mem, mem-cons_self, mem-cons_of_mem}
use Prim.Native.String.{String}
use pullrun.Base.{
  ℕ, suc, ◌+◌, ◌-◌, ◌≤◌, ◌≡◌, refl, sym, ap, ◌∙◌, subst, inl, inr, Bool, true, false, Option, none,
  some, List, [], ◌∷◌, arith, if◌then◌else◌, Bool-cases, Option-cases, some-inj, le→leb, All,
  append-nil, length, ◌<◌,
}
use pullrun.Base.Words.{Bytes, u64_mod, u32_mod}
use pullrun.Base.Map
use pullrun.Base.Map.{Map, Eq, string_eq, get-put_self, beq_refl}
use pullrun.Sync.Bloom.{BloomFilter, word_count, contains, to_bytes, from_bytes}
use pullrun.Sync.Bloom.Wire.{from-to_bytes}
use pullrun.Sync.Gossip.{
  PeerBloomInfo, Cache, is_fresh, cache_ttl, refreshed, update, peer_count, remove_stale, may_have,
  collect_peer, find_peers_with_blob,
}

stale_later :
    (now later : ℕ) (info : PeerBloomInfo)
    → now ≤ later
    → is_fresh now info ≡ false
    → is_fresh later info ≡ false
stale_later now later info h e = ground arith

module _ (sha256 : Bytes → Bytes) where
  -- Removing the entries that are stale at one time changes, from then on, neither the number of peers
  -- nor the peers that a search names.
  pub remove_stale-unseen :
      (now later : ℕ) (cache : Cache) (digest : Bytes)
      → now ≤ later
      → (peer_count later (remove_stale now cache) ≡ peer_count later cache)
        × (find_peers_with_blob sha256 later digest (remove_stale now cache)
            ≡ find_peers_with_blob sha256 later digest cache)
  unfolding peer_count remove_stale find_peers_with_blob may_have
  remove_stale-unseen now later [] digest h = (refl, refl)
  remove_stale-unseen now later ((k, info) ∷ cache) digest h =
      let (count, found) = remove_stale-unseen now later cache digest h in
      elim (Bool-cases (is_fresh now info)) [
        | inl y ↦ (
          rw y (ap (λ (n : ℕ). if is_fresh later info then suc n else n) count),
          rw y (ap (collect_peer sha256 info (may_have sha256 later digest info)) found),
        )
        | inr n ↦
            let gone = stale_later now later info h n in
            (
              rw (n, gone) count,
              rw (n, gone)
                  (found ∙ sym (skip info (find_peers_with_blob sha256 later digest cache))),
            )
      ]
    where
      skip :
          (i : PeerBloomInfo) (o : Option (List (String × String)))
          → collect_peer sha256 i (some false) o ≡ o
      skip i none = refl
      skip i (some peers) = refl

  -- An entry whose filter has the blob is among the peers that a search names.
  find-Mem :
      (now : ℕ) (digest : Bytes) (cache : Cache) (k : String) (i : PeerBloomInfo)
      (peers : List (String × String))
      → Map.get cache k ≡ some i
      → may_have sha256 now digest i ≡ some true
      → find_peers_with_blob sha256 now digest cache ≡ some peers
      → Mem (i.node_id, i.sync_addr) peers
  unfolding find_peers_with_blob Map.get
  find-Mem now digest [] k i peers g m e = cc
  find-Mem now digest ((j, v) ∷ cache) k i peers g m e =
      elim (Option-cases (find_peers_with_blob sha256 now digest cache)) [
        | inl n ↦ no_rest (may_have sha256 now digest v) (rw n at e)
        | inr (ps, r) ↦ elim (Option-cases (may_have sha256 now digest v)) [
          | inl n ↦ cc (rw n at e)
          | inr (b, s) ↦ elim (Bool-cases (string_eq.beq j k)) [
            | inl y ↦
                let same : v ≡ i = some-inj (rw y at g) in
                let there : b ≡ true =
                  some-inj (sym s ∙ ap (may_have sha256 now digest) same ∙ m) in
                let all : (v.node_id, v.sync_addr) ∷ ps ≡ peers =
                  some-inj (rw (r, s, there) at e) in
                subst (λ (x : PeerBloomInfo). Mem (x.node_id, x.sync_addr) peers) same
                  (subst (λ l. Mem (v.node_id, v.sync_addr) l) all mem-cons_self)
            | inr n ↦
                subst (λ l. Mem (i.node_id, i.sync_addr) l) (some-inj (rw (r, s) at e))
                  (behind b ps (find-Mem now digest cache k i ps (rw n at g) m r))
          ]
        ]
      ]
    where
      no_rest : {A : Type 0} (o : Option Bool) → collect_peer sha256 v o none ≡ some peers → A
      no_rest none q = cc
      no_rest (some b) q = cc

      behind :
          (b : Bool) (ps : List (String × String))
          → Mem (i.node_id, i.sync_addr) ps
          → Mem (i.node_id, i.sync_addr) (if b then (v.node_id, v.sync_addr) ∷ ps else ps)
      behind true ps q = mem-cons_of_mem (v.node_id, v.sync_addr) q
      behind false ps q = q

-- Each entry is kept under its own id.
abbrev pub IsKeyed : Cache → Type 0
IsKeyed cache = (k : String) (i : PeerBloomInfo) → Map.get cache k ≡ some i → i.node_id ≡ k

refreshed-parts :
    (cache : Cache) (node_id sync_addr : String) (info : PeerBloomInfo)
    → IsKeyed cache
    → info.node_id ≡ node_id
    → info.sync_addr ≡ sync_addr
    → let i = refreshed (Map.get cache node_id) sync_addr info in
      (i.node_id ≡ node_id)
      × (i.sync_addr ≡ sync_addr)
      × (i.bloom_bytes ≡ info.bloom_bytes)
      × (i.last_updated ≡ info.last_updated)
refreshed-parts cache node_id sync_addr info keyed a b =
    elim (Option-cases (Map.get cache node_id)) [
      | inl n ↦ rw n (a, b, refl, refl)
      | inr (old, o) ↦ rw o (keyed node_id old o, refl, refl, refl)
    ]

-- In a cache whose entries stand under their own ids: after a well-formed filter was stored for a
-- peer, known before or not, a search within five minutes that does not panic names the peer,
-- with the new address, for every blob that the filter contains.
pub find-update :
    (sha256 : Bytes → Bytes) (cache : Cache) (node_id sync_addr : String) (info : PeerBloomInfo)
    (f : BloomFilter) (now : ℕ) (digest : Bytes) (peers : List (String × String))
    → IsKeyed cache
    → info.node_id ≡ node_id
    → info.sync_addr ≡ sync_addr
    → info.bloom_bytes ≡ to_bytes f
    → f.m < u64_mod
    → f.k < u32_mod
    → All (λ w. w < u64_mod) f.bits
    → length f.bits ≡ word_count f.m
    → now ≤ info.last_updated + cache_ttl
    → contains sha256 f digest ≡ some true
    → find_peers_with_blob sha256 now digest (update node_id sync_addr info cache) ≡ some peers
    → Mem (node_id, sync_addr) peers
unfolding update may_have contains
find-update sha256 cache node_id sync_addr info f now digest peers keyed a b bytes hm hk hw l soon
      there e =
    let i = refreshed (Map.get cache node_id) sync_addr info in
    let (id, addr, filter, time) = refreshed-parts cache node_id sync_addr info keyed a b in
    let fresh : is_fresh now i ≡ true =
      le→leb (now - i.last_updated) cache_ttl (omega (arith, time, soon)) in
    let parsed =
      ap from_bytes (filter ∙ (bytes ∙ sym (append-nil (to_bytes f))))
      ∙ from-to_bytes f [] hm hk hw l in
    let found : may_have sha256 now digest i ≡ some true = rw (fresh, parsed) there in
    rw (id, addr) at
      (find-Mem sha256 now digest (Map.put cache node_id i) node_id i peers
        (get-put_self cache node_id i) found e)
