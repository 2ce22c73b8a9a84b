-- ===== src/Net/Ipam/Race.antt =====
-- runtime/pullrun-net/src/ipam.rs: `allocate` under any interleaving of its callers. A step is one
-- access to the shared counter; what a caller loaded is its own.
use pullrun.Base.{
  ℕ, ◌+◌, ◌≤◌, ◌<◌, ◌≡◌, ◌≢◌, true, false, Option, none, some, List, [], ◌∷◌, arith, leb, ◌==◌,
  if◌then◌else◌, leb→lt, All,
}
use pullrun.Net.IpRange.{IpRange, IsRange, wrap}
use pullrun.Net.Ipam.{pred32}

-- `next`, the value that each caller holds between its load and its exchange, and the addresses
-- that were returned, the newest first.
pub record World : Type 0 where
  pub next : ℕ
  pub loaded : ℕ → Option ℕ
  pub given : List ℕ

abbrev pub hold : (ℕ → Option ℕ) → ℕ → Option ℕ → ℕ → Option ℕ
hold f i v j = if i == j then v else f j

pub data Step (r : IpRange) : World → World → Type 0 where
  -- `self.next.load`
  load : (w : World) (i : ℕ) → Step r w (record w { loaded = hold w.loaded i (some w.next) })
  -- `return None`
  full :
      (w : World) (i c : ℕ)
      → w.loaded i ≡ some c
      → leb (pred32 r.size) c ≡ true
      → Step r w (record w { loaded = hold w.loaded i none })
  -- `compare_exchange` succeeds
  swap :
      (w : World) (i c : ℕ)
      → w.loaded i ≡ some c
      → leb (pred32 r.size) c ≡ false
      → w.next ≡ c
      → Step r w (record w {
        next = wrap (c + 1);
        loaded = hold w.loaded i none;
        given = wrap (r.base + c) ∷ w.given;
      })
  -- another caller came first: the loop starts again
  retry :
      (w : World) (i c : ℕ)
      → w.loaded i ≡ some c
      → leb (pred32 r.size) c ≡ false
      → w.next ≢ c
      → Step r w (record w { loaded = hold w.loaded i none })

pub data Reach (r : IpRange) (s : World) : World → Type 0 where
  here : Reach r s s
  step : {t u : World} → Reach r s t → Step r t u → Reach r s u

abbrev pub start : World
start = record { next = 2; loaded = λ i. none; given = [] }

-- Addresses fall along the list; each is past the gateway and before the broadcast address.
abbrev pub Falling : IpRange → ℕ → List ℕ → Type 0
Falling r n [] = Unit
Falling r n (ip ∷ ips) =
    (ip < n) × (r.base + 2 ≤ ip) × (ip + 1 < r.base + r.size) × Falling r ip ips

record Inv (r : IpRange) (w : World) : Type 0 where
  past_gateway : 2 ≤ w.next
  falling : Falling r (r.base + w.next) w.given

swap-Inv :
    (r : IpRange) (w : World) (c : ℕ)
    → IsRange r
    → leb (pred32 r.size) c ≡ false
    → w.next ≡ c
    → Inv r w
    → (2 ≤ wrap (c + 1)) × Falling r (r.base + wrap (c + 1)) (wrap (r.base + c) ∷ w.given)
swap-Inv r w c v room e i =
    let fits : c + 1 < r.size =
      omega (arith, v.within, v.nonempty, leb→lt (pred32 r.size) c room) in
    let same : wrap (r.base + c) ≡ r.base + w.next = omega (arith, v.within, e) in
    rw same (
      omega (arith, i.past_gateway, e, v.within),
      (omega (arith, v.within, e), omega (arith, i.past_gateway), omega (arith, e), i.falling),
    )

Step-Inv : {r : IpRange} {w u : World} → IsRange r → Step r w u → Inv r w → Inv r u
Step-Inv v (load w i) h = record { past_gateway = h.past_gateway; falling = h.falling }
Step-Inv v (full w i c l f) h = record { past_gateway = h.past_gateway; falling = h.falling }
Step-Inv {r} v (swap w i c l f e) h =
    let (a, b) = swap-Inv r w c v f e h in record { past_gateway = a; falling = b }
Step-Inv v (retry w i c l f e) h = record { past_gateway = h.past_gateway; falling = h.falling }

Reach-Inv : {r : IpRange} {s w : World} → IsRange r → Reach r s w → Inv r s → Inv r w
Reach-Inv v here h = h
Reach-Inv v (step p st) h = Step-Inv v st (Reach-Inv v p h)

abbrev pub Distinct : List ℕ → Type 0
Distinct [] = Unit
Distinct (ip ∷ ips) = All (λ x. x ≢ ip) ips × Distinct ips

Falling-lt : (r : IpRange) (n : ℕ) (ips : List ℕ) → Falling r n ips → All (λ x. x < n) ips
Falling-lt r n [] h = tt
Falling-lt r n (ip ∷ ips) h = (h.0, lift ips (Falling-lt r ip ips h.3))
  where
    lift : (l : List ℕ) → All (λ x. x < ip) l → All (λ x. x < n) l
    lift [] q = tt
    lift (x ∷ l) q = (omega (arith, q.0, h.0), lift l q.1)

All-ne : (n : ℕ) (l : List ℕ) → All (λ x. x < n) l → All (λ x. x ≢ n) l
All-ne n [] h = tt
All-ne n (x ∷ l) h = (omega (arith, h.0), All-ne n l h.1)

Falling-Distinct : (r : IpRange) (n : ℕ) (ips : List ℕ) → Falling r n ips → Distinct ips
Falling-Distinct r n [] h = tt
Falling-Distinct r n (ip ∷ ips) h =
    (All-ne ip ips (Falling-lt r ip ips h.3), Falling-Distinct r ip ips h.3)

abbrev pub IsHost : IpRange → ℕ → Type 0
IsHost r ip = (r.base + 2 ≤ ip) × (ip + 1 < r.base + r.size)

Falling-IsHost : (r : IpRange) (n : ℕ) (ips : List ℕ) → Falling r n ips → All (IsHost r) ips
Falling-IsHost r n [] h = tt
Falling-IsHost r n (ip ∷ ips) h = ((h.1, h.2), Falling-IsHost r ip ips h.3)

-- From a new counter, on a range within the address space: however the callers interleave, no
-- address is returned twice, and each lies between the gateway and the broadcast address.
pub Reach-Distinct :
    (r : IpRange) (w : World)
    → IsRange r
    → Reach r start w
    → Distinct w.given × All (IsHost r) w.given
Reach-Distinct r w v p =
    let i = Reach-Inv v p (record { past_gateway = omega arith; falling = tt }) in
    (Falling-Distinct r _ w.given i.falling, Falling-IsHost r _ w.given i.falling)
