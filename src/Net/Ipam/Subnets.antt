-- ===== src/Net/Ipam/Subnets.antt =====
-- runtime/pullrun-net/src/ipam.rs: `subnet_for` gives each key one /24 of its own.
use Prim.Native.String.{String}
use pullrun.Base.{
  ℕ, zero, suc, ◌+◌, ◌*◌, ◌≤◌, ◌<◌, ◌≡◌, ◌≢◌, ◌⊎◌, inl, inr, refl, sym, ap, ◌∙◌, subst, false,
  Option, none, some, List, [], ◌∷◌, arith, ltb, contains, Bool-cases, ltb→le, some-inj,
  Option-cases,
}
use pullrun.Base.Map
use pullrun.Base.Map.{Map, nat_eq, string_eq, get-put_self, get-put_cases}
use pullrun.Net.IpRange.{IpRange, IsRange, wrap}
use pullrun.Net.Ipam.{
  Ipam, new, known_or, subnet_size, subnet_at, take_subnet, has_base, search_subnet, subnet_for,
  live_subnets_in_range,
}

-- The i-th /24 of a range, whole inside it.
pub record IsSubnet (range r : IpRange) : Type 0 where
  pub index : ℕ
  pub base : r.base ≡ range.base + index * 256
  pub size : r.size ≡ 256
  pub within : index * 256 + 256 ≤ range.size

pub record IsAssigned (s : Ipam) : Type 0 where
  pub placed : (k : String) (r : IpRange) → Map.get s.subnets k ≡ some r → IsSubnet s.range r
  pub apart :
      (j k : String) (p q : IpRange)
      → Map.get s.subnets j ≡ some p
      → Map.get s.subnets k ≡ some q
      → p.base ≡ q.base
      → j ≡ k

has_base-get :
    (b : ℕ) (m : Map String IpRange) (k : String) (r : IpRange)
    → has_base b m ≡ false
    → Map.get m k ≡ some r
    → r.base ≢ b
unfolding has_base Map.get
has_base-get b [] k r h e = cc
has_base-get b ((j, s) ∷ m) k r h e = ground (arith, has_base-get b m k r)

-- What one search promises: a fresh subnet under `key`, or no new entry.
pub record Found (live : List ℕ) (key : String) (s t : Ipam) (r : IpRange) : Type 0 where
  pub placed : IsSubnet s.range r
  pub not_live : contains live r.base ≡ false
  pub not_used : has_base r.base s.subnets ≡ false
  pub stored : t.subnets ≡ Map.put s.subnets key r
  pub range : t.range ≡ s.range

subnet_at-IsSubnet :
    (s : Ipam)
    → IsRange s.range
    → s.next_subnet + 1 < 16777216
    → ltb s.range.size (wrap (wrap (s.next_subnet + 1) * subnet_size)) ≡ false
    → IsSubnet s.range (subnet_at s)
subnet_at-IsSubnet s v b h =
    let fits : s.next_subnet * 256 + 256 ≤ s.range.size =
      omega (arith, ltb→le s.range.size (wrap (wrap (s.next_subnet + 1) * subnet_size)) h) in
    record {
      index = s.next_subnet;
      base = omega (arith, fits, v.within);
      size = refl;
      within = fits;
    }

again-Found :
    {live : List ℕ} {key : String} {s t : Ipam} {r : IpRange} (n : ℕ)
    → Found live key (record s { next_subnet = n }) t r
    → Found live key s t r
again-Found n f = record {
  placed = f.placed;
  not_live = f.not_live;
  not_used = f.not_used;
  stored = f.stored;
  range = f.range;
}

search-Found :
    (rounds : ℕ) (live : List ℕ) (key : String) (s : Ipam) (r : IpRange)
    → IsRange s.range
    → s.next_subnet + rounds < 16777216
    → (search_subnet rounds live key s).0 ≡ some r
    → Found live key s (search_subnet rounds live key s).1 r
unfolding search_subnet
search-Found zero live key s r v b e = cc
search-Found (suc n) live key s r v b e =
    elim (Bool-cases (ltb s.range.size (wrap (wrap (s.next_subnet + 1) * subnet_size)))) [
      | inl full ↦ cc (rw full at e)
      | inr room ↦ elim (Bool-cases (contains live (subnet_at s).base)) [
        | inl taken ↦
            rw (room, taken)
              (again-Found _ (search-Found n live key _ r v (omega arith) (rw (room, taken) at e)))
        | inr free ↦ elim (Bool-cases (has_base (subnet_at s).base s.subnets)) [
          | inl used ↦
              rw (room, free, used)
                (again-Found _
                  (search-Found n live key _ r v (omega arith) (rw (room, free, used) at e)))
          | inr unused ↦
              rw (room, free, unused)
                (subst (λ x. Found live key s (take_subnet key s) x)
                  (some-inj (rw (room, free, unused) at e))
                  (record {
                    placed = subnet_at-IsSubnet s v (omega arith) room;
                    not_live = free;
                    not_used = unused;
                    stored = refl;
                    range = refl;
                  }))
        ]
      ]
    ]

search-keeps :
    (rounds : ℕ) (live : List ℕ) (key : String) (s : Ipam)
    → (search_subnet rounds live key s).0 ≡ none
    → ((search_subnet rounds live key s).1.subnets ≡ s.subnets)
      × ((search_subnet rounds live key s).1.range ≡ s.range)
unfolding search_subnet
search-keeps zero live key s e = (refl, refl)
search-keeps (suc n) live key s e =
    ground (arith, search-keeps n live key (record s { next_subnet = wrap (s.next_subnet + 1) }))

Found-IsAssigned :
    {live : List ℕ} {key : String} {s t : Ipam} {r : IpRange}
    → Found live key s t r
    → IsAssigned s
    → IsAssigned t
Found-IsAssigned {live} {key} {s} {t} {r} f a = record {
  placed = λ k p e. rw f.range (elim (entry k p e) [
    | inl (_, same) ↦ subst (IsSubnet s.range) same f.placed
    | inr (_, old) ↦ a.placed k p old
  ]);
  apart = λ j k p q ej ek eq. elim (entry j p ej) [
    | inl (kj, same) ↦ elim (entry k q ek) [
      | inl (kk, _) ↦ sym kj ∙ kk
      | inr (_, old) ↦ absurd (
          has_base-get r.base s.subnets k q f.not_used old
            (sym eq ∙ ap (λ (x : IpRange). x.base) (sym same)))
    ]
    | inr (_, oldj) ↦ elim (entry k q ek) [
      | inl (_, same) ↦ absurd (
          has_base-get r.base s.subnets j p f.not_used oldj
            (eq ∙ ap (λ (x : IpRange). x.base) (sym same)))
      | inr (_, oldk) ↦ a.apart j k p q oldj oldk eq
    ]
  ];
}
  where
    entry :
        (k : String) (p : IpRange)
        → Map.get t.subnets k ≡ some p
        → ((key ≡ k) × (r ≡ p)) ⊎ ((key ≢ k) × (Map.get s.subnets k ≡ some p))
    entry k p e = get-put_cases s.subnets key r k p (subst (λ m. Map.get m k ≡ some p) f.stored e)

IsAssigned-keep :
    {s t : Ipam} → t.subnets ≡ s.subnets → t.range ≡ s.range → IsAssigned s → IsAssigned t
IsAssigned-keep e f a = record {
  placed = λ k p h. rw f (a.placed k p (rw e at h));
  apart = λ j k p q hj hk. a.apart j k p q (rw e at hj) (rw e at hk);
}

search-IsAssigned :
    (live : List ℕ) (key : String) (s : Ipam)
    → IsRange s.range
    → s.next_subnet + 64 < 16777216
    → IsAssigned s
    → IsAssigned (search_subnet 64 live key s).1
search-IsAssigned live key s v b a = elim (Option-cases (search_subnet 64 live key s).0) [
  | inl e ↦ let kept = search-keeps 64 live key s e in IsAssigned-keep kept.0 kept.1 a
  | inr (r, e) ↦ Found-IsAssigned (search-Found 64 live key s r v b e) a
]

pub IsAssigned-new : (r : IpRange) → IsAssigned (new r)
unfolding new Map.get
IsAssigned-new r = record { placed = λ k p e. cc; apart = λ j k p q e. cc }

-- On a range within the address space, `subnet_for` keeps every key on a whole /24 of the range
-- and no two keys on one, whatever routes the host has, as long as the counter is 64 below its
-- wrap-around.
pub subnet_for-IsAssigned :
    (routes : List (ℕ × ℕ)) (key : String) (s : Ipam)
    → IsRange s.range
    → s.next_subnet + 64 < 16777216
    → IsAssigned s
    → IsAssigned (subnet_for routes key s).1
unfolding subnet_for
subnet_for-IsAssigned routes key s v b a = elim (Option-cases (Map.get s.subnets key)) [
  | inl e ↦ rw e (search-IsAssigned _ key s v b a)
  | inr (r, e) ↦ rw e a
]

-- Where a new key gets a subnet, the host does not route it and no other key has it, under the
-- same bounds on the range and the counter.
pub subnet_for-fresh :
    (routes : List (ℕ × ℕ)) (key : String) (s : Ipam) (r : IpRange)
    → IsRange s.range
    → s.next_subnet + 64 < 16777216
    → Map.get s.subnets key ≡ none
    → (subnet_for routes key s).0 ≡ some r
    → (contains (live_subnets_in_range s.range.base s.range.size routes) r.base ≡ false)
      × ((k : String) (p : IpRange) → Map.get s.subnets k ≡ some p → p.base ≢ r.base)
unfolding subnet_for
subnet_for-fresh routes key s r v b n e =
    let f =
      search-Found 64 (live_subnets_in_range s.range.base s.range.size routes) key s r v b
        (rw n at e) in
    (f.not_live, λ k p. has_base-get r.base s.subnets k p f.not_used)

-- A key that was given a subnet is given the same one when it asks again, whatever the host's
-- routes are by then, and asking again changes nothing, under the same bounds.
pub subnet_for-again :
    (routes later : List (ℕ × ℕ)) (key : String) (s : Ipam) (r : IpRange)
    → IsRange s.range
    → s.next_subnet + 64 < 16777216
    → (subnet_for routes key s).0 ≡ some r
    → subnet_for later key (subnet_for routes key s).1 ≡ (some r, (subnet_for routes key s).1)
unfolding subnet_for
subnet_for-again routes later key s r v b e = elim (Option-cases (Map.get s.subnets key)) [
  | inl n ↦ rw n (again (rw n at e))
  | inr (p, h) ↦ rw (h, h) (ap (λ (o : Option IpRange). (o, s)) (rw h at e))
]
  where
    live : List ℕ
    live = live_subnets_in_range s.range.base s.range.size routes

    later_live : List ℕ
    later_live =
        live_subnets_in_range (search_subnet 64 live key s).1.range.base
          (search_subnet 64 live key s).1.range.size later

    stored :
        (search_subnet 64 live key s).0 ≡ some r
        → Map.get (search_subnet 64 live key s).1.subnets key ≡ some r
    stored q = rw ((search-Found 64 live key s r v b q).stored) (get-put_self s.subnets key r)

    again :
        (search_subnet 64 live key s).0 ≡ some r
        → known_or
            (Map.get (search_subnet 64 live key s).1.subnets key)
            later_live
            key
            (search_subnet 64 live key s).1
          ≡ (some r, (search_subnet 64 live key s).1)
    again q = rw (stored q)

-- In an `Ipam` whose subnets are whole and apart, two different keys have disjoint subnets.
pub subnets_apart :
    (s : Ipam) (j k : String) (p q : IpRange)
    → IsAssigned s
    → Map.get s.subnets j ≡ some p
    → Map.get s.subnets k ≡ some q
    → j ≢ k
    → (p.base + p.size ≤ q.base) ⊎ (q.base + q.size ≤ p.base)
subnets_apart s j k p q a ej ek ne =
    let x = a.placed j p ej in
    let y = a.placed k q ek in
    apart x.index y.index p.base q.base p.size q.size x.base y.base x.size y.size
      (λ e. ne (a.apart j k p q ej ek e))
  where
    apart :
        (m n b c z w : ℕ)
        → b ≡ s.range.base + m * 256
        → c ≡ s.range.base + n * 256
        → z ≡ 256
        → w ≡ 256
        → b ≢ c
        → (b + z ≤ c) ⊎ (c + w ≤ b)
    apart m n b c z w eb ec ez ew d = ground arith
