-- ===== src/Net/Ipam/Hosts.antt =====
-- runtime/pullrun-net/src/ipam.rs: `allocate_in` hands out the hosts of a subnet, each once.
use Prim.Native.String.{String}
use pullrun.Base.{
  ℕ, ◌+◌, ◌≤◌, ◌<◌, ◌≡◌, ◌≢◌, ◌⊎◌, inl, inr, sym, ap, subst, ◌∙◌, false, Option, none, some, List,
  [], ◌∷◌, arith, leb, ◌==◌, ==_iff, if◌then◌else◌, Bool-cases, Option-cases, leb→lt, some-inj, All,
}
use pullrun.Base.Words.{u32_mod}
use pullrun.Base.Map
use pullrun.Base.Map.{Map, nat_eq, string_eq, get-put, get-put_cases}
use pullrun.Net.IpRange.{IpRange, IsRange, wrap}
use pullrun.Net.Ipam.{Ipam, counter_of, allocate_in, pred32}
use pullrun.Net.Ipam.Subnets.{IsAssigned, subnets_apart}

-- The offset that the next host of a subnet gets.
abbrev pub offset : Ipam → ℕ → ℕ
offset s base = counter_of (Map.get s.next_in_subnet base)

-- Every counter is past the gateway.
abbrev pub IsCounting : Ipam → Type 0
IsCounting s = (base n : ℕ) → Map.get s.next_in_subnet base ≡ some n → 2 ≤ n

offset-ge : (s : Ipam) (base : ℕ) → IsCounting s → 2 ≤ offset s base
offset-ge s base h = elim (Option-cases (Map.get s.next_in_subnet base)) [
  | inl e ↦ rw e (omega arith)
  | inr (n, e) ↦ rw e (h base n e)
]

abbrev set_offset : Ipam → ℕ → ℕ → Ipam
set_offset s base n = record s { next_in_subnet = Map.put s.next_in_subnet base n }

offset-set_offset :
    (s : Ipam) (b n base : ℕ)
    → offset (set_offset s b n) base ≡ (if b == base then n else offset s base)
offset-set_offset s b n base = rw (get-put s.next_in_subnet b n base) (ground arith)

-- The subnet is full, or its next host is usable and is given.
Allocated : IpRange → Ipam → Option ℕ × Ipam → Type 0
Allocated q s out =
    (out ≡ (none, set_offset s q.base (offset s q.base)))
    ⊎ ((offset s q.base + 1 < q.size)
        × (out ≡ (some (q.base + offset s q.base), set_offset s q.base (offset s q.base + 1))))

wrap_small : (n : ℕ) → n < u32_mod → wrap n ≡ n
wrap_small n h = omega arith

allocated : (q : IpRange) (s : Ipam) → IsRange q → Allocated q s (allocate_in q s)
unfolding allocate_in Allocated
allocated q s v = elim (Bool-cases (leb (pred32 q.size) (offset s q.base))) [
  | inl full ↦ inl (rw full)
  | inr room ↦
      let fits : offset s q.base + 1 < q.size =
        omega (arith, v.within, v.nonempty, leb→lt (pred32 q.size) (offset s q.base) room) in
      inr (
        fits,
        rw (
          room,
          wrap_small (q.base + offset s q.base) (omega (arith, v.within)),
          wrap_small (offset s q.base + 1) (omega (arith, v.within)),
        ),
      )
]

offset-allocate_in :
    (q : IpRange) (s : Ipam) (base : ℕ)
    → IsRange q
    → offset s base ≤ offset (allocate_in q s).1 base
unfolding Allocated
offset-allocate_in q s base v = elim (allocated q s v) [
  | inl e ↦ rw e (ground (arith, offset-set_offset s q.base (offset s q.base) base))
  | inr (_, e) ↦ rw e (ground (arith, offset-set_offset s q.base (offset s q.base + 1) base))
]

set_offset-IsCounting : (s : Ipam) (b n : ℕ) → 2 ≤ n → IsCounting s → IsCounting (set_offset s b n)
set_offset-IsCounting s b n k h base m e = elim (get-put_cases s.next_in_subnet b n base m e) [
  | inl (_, same) ↦ omega (arith, same)
  | inr (_, old) ↦ h base m old
]

allocate_in-IsCounting :
    (q : IpRange) (s : Ipam) → IsRange q → IsCounting s → IsCounting (allocate_in q s).1
unfolding Allocated
allocate_in-IsCounting q s v h = elim (allocated q s v) [
  | inl e ↦ rw e (set_offset-IsCounting s q.base _ (offset-ge s q.base h) h)
  | inr (_, e) ↦ rw e (set_offset-IsCounting s q.base _ (omega (arith, offset-ge s q.base h)) h)
]

-- A history of calls: each names the subnet of its workload. The list holds what was given.
abbrev give : Option ℕ → IpRange → List (IpRange × ℕ) → List (IpRange × ℕ)
give none q rest = rest
give (some ip) q rest = (q, ip) ∷ rest

unfoldable pub assign_hosts : List IpRange → Ipam → List (IpRange × ℕ)
assign_hosts [] s = []
assign_hosts (q ∷ qs) s = give (allocate_in q s).0 q (assign_hosts qs (allocate_in q s).1)

-- No address stands twice.
abbrev pub Distinct : List (IpRange × ℕ) → Type 0
Distinct [] = Unit
Distinct ((q, ip) ∷ l) = All (λ g. g.1 ≢ ip) l × Distinct l

-- The subnet is in use under some key.
abbrev pub InUse : Ipam → IpRange → Type 0
InUse t q = (k : String) × (Map.get t.subnets k ≡ some q)

abbrev Usable : Ipam → IpRange × ℕ → Type 0
Usable s (q, ip) = (q.base + offset s q.base ≤ ip) × (ip + 1 < q.base + q.size)

All-map {ℓ} :
    {A : Type ℓ} (P Q : A → Type 0) (l : List A) → ((a : A) → P a → Q a) → All P l → All Q l
All-map P Q [] f h = tt
All-map P Q (a ∷ l) f h = (f a h.0, All-map P Q l f h.1)

Usable-later :
    (q : IpRange) (s : Ipam) (l : List (IpRange × ℕ))
    → IsRange q
    → All (Usable (allocate_in q s).1) l
    → All (Usable s) l
Usable-later q s l v h =
    All-map (Usable (allocate_in q s).1) (Usable s) l
      (λ g u. (omega (arith, u.0, offset-allocate_in q s g.0.base v), u.1)) h

-- Every history stays with the hosts of its subnets.
assign-Usable : (qs : List IpRange) (s : Ipam) → All IsRange qs → All (Usable s) (assign_hosts qs s)
unfolding assign_hosts Allocated
assign-Usable [] s v = tt
assign-Usable (q ∷ qs) s v =
    let later = Usable-later q s _ v.0 (assign-Usable qs (allocate_in q s).1 v.1) in
    elim (allocated q s v.0) [
      | inl e ↦ rw (ap (λ (p : Option ℕ × Ipam). p.0) e) later
      | inr (fits, e) ↦
          rw (ap (λ (p : Option ℕ × Ipam). p.0) e) ((omega arith, omega (arith, fits)), later)
    ]

assign-All :
    (P : IpRange → Type 0) (qs : List IpRange) (s : Ipam)
    → All P qs
    → All (λ g. P g.0) (assign_hosts qs s)
unfolding assign_hosts
assign-All P [] s h = tt
assign-All P (q ∷ qs) s h = elim (Option-cases (allocate_in q s).0) [
  | inl e ↦ rw e (assign-All P qs (allocate_in q s).1 h.1)
  | inr (ip, e) ↦ rw e (h.0, assign-All P qs (allocate_in q s).1 h.1)
]

All-zip {ℓ} :
    {A : Type ℓ} (P Q : A → Type 0) (l : List A) → All P l → All Q l → All (λ a. P a × Q a) l
All-zip P Q [] p q = tt
All-zip P Q (a ∷ l) p q = ((p.0, q.0), All-zip P Q l p.1 q.1)

-- A later host is another address, in the same subnet or in a disjoint one.
later-ne :
    (t s : Ipam) (q : IpRange) (g : IpRange × ℕ)
    → IsAssigned t
    → InUse t q
    → InUse t g.0
    → offset s q.base + 1 < q.size
    → Usable (set_offset s q.base (offset s q.base + 1)) g
    → g.1 ≢ q.base + offset s q.base
later-ne t s q g a (j, ej) (k, ek) fits u = elim (Bool-cases (q.base == g.0.base)) [
  | inl same ↦ λ e. ground (arith, offset-set_offset s q.base (offset s q.base + 1) g.0.base)
  | inr other ↦ λ e. ground (arith, subnets_apart t j k q g.0 a ej ek (different other))
]
  where
    different : (q.base == g.0.base) ≡ false → j ≢ k
    different o jk =
        let e : q ≡ g.0 =
          some-inj (sym ej ∙ subst (λ x. Map.get t.subnets x ≡ some g.0) (sym jk) ek) in
        cc (o, (==_iff q.base g.0.base).1 (ap (λ (x : IpRange). x.base) e))

-- Where each call names a subnet that is in use, in an `Ipam` whose subnets are apart, no address
-- is given twice, in one subnet or in two, whatever the order of the calls.
pub assign_hosts-Distinct :
    (t : Ipam) (qs : List IpRange) (s : Ipam)
    → IsAssigned t
    → All (InUse t) qs
    → All IsRange qs
    → Distinct (assign_hosts qs s)
unfolding assign_hosts Allocated
assign_hosts-Distinct t [] s a u v = tt
assign_hosts-Distinct t (q ∷ qs) s a u v =
    let rest = assign_hosts-Distinct t qs (allocate_in q s).1 a u.1 v.1 in
    let later =
      All-zip (λ g. InUse t g.0) (Usable (allocate_in q s).1) (assign_hosts qs (allocate_in q s).1)
        (assign-All (InUse t) qs (allocate_in q s).1 u.1)
        (assign-Usable qs (allocate_in q s).1 v.1) in
    elim (allocated q s v.0) [
      | inl e ↦ rw (ap (λ (p : Option ℕ × Ipam). p.0) e) rest
      | inr (fits, e) ↦ rw (ap (λ (p : Option ℕ × Ipam). p.0) e) (
        All-map (λ g. InUse t g.0 × Usable (allocate_in q s).1 g)
            (λ g. g.1 ≢ q.base + offset s q.base) _
            (λ g p.
              later-ne t s q g a u.0 p.0 fits
                (subst (λ w. Usable w g) (ap (λ (p : Option ℕ × Ipam). p.1) e) p.1))
            later,
        rest,
      )
    ]
