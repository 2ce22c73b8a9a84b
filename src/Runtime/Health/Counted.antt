-- ===== src/Runtime/Health/Counted.antt =====
-- runtime/pullrun-runtime/src/service.rs: what a row of failed probes makes of a workload's health.
use pullrun.Base.{
  ℕ, zero, suc, ◌+◌, ◌%◌, ◌≤◌, ◌<◌, ◌≡◌, refl, sym, ◌∙◌, ap, false, not, leb, if◌then◌else◌,
  Bool-cases, inl, inr, arith, le→leb, leb→le,
}
use pullrun.Base.Words.{Bytes, u32_mod}
use pullrun.Base.Text.{eq_bytes, eq_bytes_sound}
use pullrun.Runtime.Names.{healthy, unhealthy, starting}
use pullrun.Runtime.State.{WorkloadState}
use pullrun.Runtime.Health.{apply_probe, passed_probe, failed_probe}

-- Failed probes, one after the other.
unfoldable pub fail_times : ℕ → ℕ → ℕ → WorkloadState → WorkloadState
fail_times now retries zero s = s
fail_times now retries (suc n) s = apply_probe now retries false (fail_times now retries n s)

failures-step :
    (now retries : ℕ) (s : WorkloadState)
    → (apply_probe now retries false s).health_failures ≡ (s.health_failures + 1) % u32_mod
unfolding apply_probe failed_probe
failures-step now retries s = refl

failures :
    (now retries n : ℕ) (s : WorkloadState)
    → s.health_failures + n < u32_mod
    → (fail_times now retries n s).health_failures ≡ s.health_failures + n
unfolding fail_times
failures now retries zero s h = omega arith
failures now retries (suc n) s h =
    let ih = failures now retries n s (omega (arith, h)) in
    failures-step now retries (fail_times now retries n s) ∙ omega (arith, ih, h)

abbrev judged : ℕ → ℕ → Bytes
judged retries k = if leb retries k then unhealthy else starting

failed_health : Bytes → ℕ → ℕ → Bytes
failed_health health retries k =
    if leb retries k
    then unhealthy
    else if not (eq_bytes health unhealthy)
    then starting
    else health

failed_health-judged :
    (health : Bytes) (retries k : ℕ)
    → (health ≡ unhealthy → retries ≤ k)
    → failed_health health retries k ≡ judged retries k
unfolding failed_health
failed_health-judged health retries k low = elim (Bool-cases (leb retries k)) [
  | inl y ↦ rw y refl
  | inr n ↦ elim (Bool-cases (eq_bytes health unhealthy)) [
    | inl y ↦ cc (n, le→leb retries k (low (eq_bytes_sound health unhealthy y)))
    | inr m ↦ rw (n, m) refl
  ]
]

health-step :
    (now retries : ℕ) (s : WorkloadState)
    → (apply_probe now retries false s).health
      ≡ failed_health s.health retries ((s.health_failures + 1) % u32_mod)
unfolding apply_probe failed_probe failed_health
health-step now retries s = refl

starting_ne : ¬ (starting ≡ unhealthy)
unfolding eq_bytes
starting_ne e = cc (ap (λ s. eq_bytes s unhealthy) e)

healthy_ne : ¬ (healthy ≡ unhealthy)
unfolding eq_bytes
healthy_ne e = cc (ap (λ s. eq_bytes s unhealthy) e)

judged-low : (retries k : ℕ) → judged retries k ≡ unhealthy → retries ≤ k
judged-low retries k h = elim (Bool-cases (leb retries k)) [
  | inl y ↦ leb→le retries k y
  | inr n ↦ absurd (starting_ne (rw n at h))
]

passed-failures : (now : ℕ) (s : WorkloadState) → (passed_probe now s).health_failures ≡ 0
unfolding passed_probe
passed-failures now s = refl

passed-health : (now : ℕ) (s : WorkloadState) → (passed_probe now s).health ≡ healthy
unfolding passed_probe
passed-health now s = refl

abbrev after : ℕ → ℕ → ℕ → WorkloadState → WorkloadState
after now retries n s = fail_times now retries n (passed_probe now s)

after-judged :
    (now retries n : ℕ) (s : WorkloadState)
    → suc n < u32_mod
    → ((after now retries n s).health ≡ unhealthy → retries ≤ n)
    → (after now retries (suc n) s).health ≡ judged retries (suc n)
unfolding fail_times
after-judged now retries n s h low =
    let f = failures now retries n (passed_probe now s) (omega (arith, h, passed-failures now s)) in
    let k : ((after now retries n s).health_failures + 1) % u32_mod ≡ suc n =
      omega (arith, f, passed-failures now s, h) in
    health-step now retries (after now retries n s)
    ∙ ap (failed_health (after now retries n s).health retries) k
    ∙ failed_health-judged (after now retries n s).health retries (suc n)
        (λ e. omega (arith, low e))

after-low :
    (now retries n : ℕ) (s : WorkloadState)
    → n < u32_mod
    → (after now retries n s).health ≡ unhealthy
    → retries ≤ n
unfolding fail_times
after-low now retries zero s h e = absurd (healthy_ne (sym (passed-health now s) ∙ e))
after-low now retries (suc n) s h e =
    let low = after-low now retries n s (omega (arith, h)) in
    judged-low retries (suc n) (sym (after-judged now retries n s h low) ∙ e)

-- After a probe that passes, the first failed probes leave a workload starting, and it is unhealthy
-- from the one on that makes the number of retries: the counter does not wrap around before.
pub health-counts :
    (now retries n : ℕ) (s : WorkloadState)
    → suc n < u32_mod
    → (fail_times now retries (suc n) (passed_probe now s)).health
      ≡ (if leb retries (suc n) then unhealthy else starting)
health-counts now retries n s h =
    after-judged now retries n s h (after-low now retries n s (omega (arith, h)))
