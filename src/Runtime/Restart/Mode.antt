-- ===== src/Runtime/Restart/Mode.antt =====
-- runtime/pullrun-runtime/src/service.rs: the network mode and the wait of a restart.
use pullrun.Base.{
  ℕ, ◌^◌, ◌≤◌, min, ◌≡◌, ◌≢◌, ◌⊎◌, refl, Bool, false, [], not, ◌∙◌, arith, ap, Bool-cases, inl, inr,
  ltb, ltb→lt, ltb→le,
}
use native.Mathlib.Nat.{pow-le-pow_right}
use pullrun.Runtime.Exec.{
  NetworkMode, loopback_mode, bridge_mode, host_mode, slirp_mode, container_mode,
}
use pullrun.Runtime.Network.{parse_network_mode, network_mode_str, promoted, parse-network_mode_str}
use pullrun.Runtime.State.{WorkloadState}
use pullrun.Runtime.Restart.{stored_mode, restart_mode, is_nil, backoff_secs}

stored_mode-str :
    (s : WorkloadState) (mode : NetworkMode)
    → s.network_mode ≡ network_mode_str mode
    → stored_mode s ≡ network_mode_str mode
unfolding stored_mode network_mode_str
stored_mode-str s loopback_mode h = rw h
stored_mode-str s bridge_mode h = rw h
stored_mode-str s host_mode h = rw h
stored_mode-str s slirp_mode h = rw h
stored_mode-str s (container_mode target) h = rw h

restart_mode-promoted :
    (s : WorkloadState) (mode : NetworkMode)
    → s.network_mode ≡ network_mode_str mode
    → restart_mode s ≡ promoted mode (not (is_nil s.network_rules))
unfolding restart_mode
restart_mode-promoted s mode h =
    ap (λ t. parse_network_mode t (not (is_nil s.network_rules))) (stored_mode-str s mode h)
    ∙ parse-network_mode_str mode (not (is_nil s.network_rules))

promoted-same :
    (mode : NetworkMode) (rules : Bool)
    → (mode ≢ loopback_mode) ⊎ (rules ≡ false)
    → promoted mode rules ≡ mode
promoted-same loopback_mode rules (inl h) = absurd (h refl)
promoted-same loopback_mode rules (inr h) = rw h
promoted-same bridge_mode rules h = refl
promoted-same host_mode rules h = refl
promoted-same slirp_mode rules h = refl
promoted-same (container_mode target) rules h = refl

-- A workload whose stored mode is the text of the mode that it ran in restarts in that mode, where it
-- ran in another mode than the loopback or has no network rules at all.
pub restart_mode-exact :
    (s : WorkloadState) (mode : NetworkMode)
    → s.network_mode ≡ network_mode_str mode
    → (mode ≢ loopback_mode) ⊎ (s.network_rules ≡ [])
    → restart_mode s ≡ mode
restart_mode-exact s mode h why =
    restart_mode-promoted s mode h
    ∙ promoted-same mode (not (is_nil s.network_rules)) (elim why [
      | inl other ↦ inl other
      | inr none_left ↦ inr (ap (λ rs. not (is_nil rs)) none_left)
    ])

-- The wait before a restart doubles with each, from one second up to half a minute.
pub backoff_secs-doubles :
    (n : ℕ) → (backoff_secs n ≡ min (2 ^ n) 30) × (1 ≤ backoff_secs n) × (backoff_secs n ≤ 30)
unfolding backoff_secs
backoff_secs-doubles n =
    let small : 1 ≤ 2 ^ min n 63 = pow-le-pow_right {n = 2} (omega arith) {i = 0} (omega arith) in
    let cut : min (2 ^ min n 63) 30 ≡ min (2 ^ n) 30 = elim (Bool-cases (ltb n 63)) [
      | inl y ↦
          let lt = ltb→lt _ _ y in
          let e : min n 63 ≡ n = omega (arith, lt) in ap (λ k. min (2 ^ k) 30) e
      | inr f ↦
          let le = ltb→le _ _ f in
          let e : min n 63 ≡ 63 = omega (arith, le) in
          let big : 2 ^ 63 ≤ 2 ^ n = pow-le-pow_right {n = 2} (omega arith) le in
          ap (λ k. min (2 ^ k) 30) e ∙ omega (arith, big)
    ] in
    (cut, omega (arith, small), omega arith)
