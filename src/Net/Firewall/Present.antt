-- ===== src/Net/Firewall/Present.antt =====
-- runtime/pullrun-net/src/firewall.rs: what `enable_nat` leaves on the host.
use Prim.Native.String.{String}
use pullrun.Base.{◌≡◌, refl, sym, ap, ◌∙◌, subst, Bool, true, false, ◌||◌, List}
use pullrun.Net.Firewall.{
  Rule, check_rule, append_rule, args, masquerade, forward_out, forward_in, Exit, success, failure,
  missing, io_error, Result, ok, err, check, run, of_check, of_run, unless_present, ensure,
  or_installed, and_then, enable_nat, rules_present,
}

module _ {S : Type 0} (exec : List String → S → Exit × S) (has : S → Rule → Bool) where
  -- What the manual of iptables says of `-C` and `-A`.
  pub record IsIptables : Type 0 where
    pub check_keeps : (r : Rule) (s : S) → (exec (args check_rule r) s).1 ≡ s
    pub check_sound : (r : Rule) (s : S) → (exec (args check_rule r) s).0 ≡ success → has s r ≡ true
    pub check_complete :
        (r : Rule) (s : S) → has s r ≡ true → (exec (args check_rule r) s).0 ≡ success
    pub append_adds :
        (r : Rule) (s : S)
        → (exec (args append_rule r) s).0 ≡ success
        → has (exec (args append_rule r) s).1 r ≡ true
    pub append_keeps :
        (r q : Rule) (s : S)
        → (exec (args append_rule r) s).0 ≡ success
        → has s q ≡ true
        → has (exec (args append_rule r) s).1 q ≡ true

  module _ (i : IsIptables) where
    -- What a block that succeeded did: the rule was there and nothing changed, or it was appended.
    record Ensured (rule : Rule) (s t : S) (installed : Bool) : Type 0 where
      there : has t rule ≡ true
      keeps : (q : Rule) → has s q ≡ true → has t q ≡ true
      same : installed ≡ false → t ≡ s

    appended :
        (rule : Rule) (s t : S) (b : Bool)
        → run exec (args append_rule rule) s ≡ (ok b, t)
        → Ensured rule s t b
    unfolding run
    appended rule s t b e =
        go (exec (args append_rule rule) s).0 (exec (args append_rule rule) s).1 refl e
      where
        go :
            (x : Exit) (u : S)
            → exec (args append_rule rule) s ≡ (x, u)
            → of_run exec (x, u) ≡ (ok b, t)
            → Ensured rule s t b
        go success u h f =
            let ok_exit : (exec (args append_rule rule) s).0 ≡ success =
              ap (λ (p : Exit × S). p.0) h in
            let after : (exec (args append_rule rule) s).1 ≡ t =
              ap (λ (p : Exit × S). p.1) h ∙ ap (λ (p : Result Bool × S). p.1) f in
            record {
              there = subst (λ x. has x rule ≡ true) after (i.append_adds rule s ok_exit);
              keeps = λ q p. subst (λ x. has x q ≡ true) after (i.append_keeps rule q s ok_exit p);
              same = λ n. cc (f, n);
            }
        go failure u h f = cc
        go missing u h f = cc
        go io_error u h f = cc

    ensured :
        (rule : Rule) (s t : S) (b : Bool) → ensure exec rule s ≡ (ok b, t) → Ensured rule s t b
    unfolding ensure check
    ensured rule s t b e =
        go (exec (args check_rule rule) s).0 (exec (args check_rule rule) s).1 refl e
      where
        go :
            (x : Exit) (u : S)
            → exec (args check_rule rule) s ≡ (x, u)
            → unless_present exec rule (of_check exec (x, u)) ≡ (ok b, t)
            → Ensured rule s t b
        go success u h f =
            let here : has s rule ≡ true = i.check_sound rule s (ap (λ (p : Exit × S). p.0) h) in
            let u_s : u ≡ s = sym (ap (λ (p : Exit × S). p.1) h) ∙ i.check_keeps rule s in
            let t_s : t ≡ s = sym (ap (λ (p : Result Bool × S). p.1) f) ∙ u_s in
            record {
              there = subst (λ x. has x rule ≡ true) (sym t_s) here;
              keeps = λ q p. subst (λ x. has x q ≡ true) (sym t_s) p;
              same = λ n. t_s;
            }
        go failure u h f =
            let u_s : u ≡ s = sym (ap (λ (p : Exit × S). p.1) h) ∙ i.check_keeps rule s in
            appended rule s t b (subst (λ x. run exec (args append_rule rule) x ≡ (ok b, t)) u_s f)
        go missing u h f = cc
        go io_error u h f = cc

    ok_eq : {c d : Bool} → ◌≡◌ {A = Result Bool} (ok c) (ok d) → c ≡ d
    ok_eq h = cc

    -- A block after others that succeeded.
    record Split (x : Result Bool × S) (rule : Rule) (b : Bool) (t : S) : Type 0 where
      before : Bool
      after : Bool
      between : S
      first : x ≡ (ok before, between)
      last : ensure exec rule between ≡ (ok after, t)
      any : b ≡ (before || after)

    split :
        (x : Result Bool × S) (rule : Rule) (b : Bool) (t : S)
        → and_then exec x rule ≡ (ok b, t)
        → Split x rule b t
    split (err f, s) rule b t e = cc
    split (ok installed, s) rule b t e = go (ensure exec rule s).0 (ensure exec rule s).1 refl e
      where
        go :
            (r : Result Bool) (u : S)
            → ensure exec rule s ≡ (r, u)
            → or_installed exec installed (r, u) ≡ (ok b, t)
            → Split (ok installed, s) rule b t
        go (err f) u h g = cc
        go (ok new) u h g =
            let u_t : u ≡ t = ap (λ (p : Result Bool × S). p.1) g in
            record {
              before = installed;
              after = new;
              between = s;
              first = refl;
              last = subst (λ x. ensure exec rule s ≡ (ok new, x)) u_t h;
              any = sym (ok_eq (ap (λ (p : Result Bool × S). p.0) g));
            }

    -- The three rules, each rule that was there before, and no change where none is reported.
    pub record Enabled (bridge cidr outbound : String) (s t : S) (b : Bool) : Type 0 where
      pub masquerades : has t (masquerade cidr outbound) ≡ true
      pub forwards_out : has t (forward_out bridge outbound) ≡ true
      pub forwards_in : has t (forward_in bridge outbound) ≡ true
      pub keeps : (q : Rule) → has s q ≡ true → has t q ≡ true
      pub same : b ≡ false → t ≡ s

    -- On a host whose -C and -A do as documented: where `enable_nat` succeeds, the three rules
    -- are present and every rule that was is kept; where it reports that it installed nothing,
    -- the host is as it was.
    pub enable_nat-Enabled :
        (bridge cidr outbound : String) (s t : S) (b : Bool)
        → enable_nat exec bridge cidr outbound s ≡ (ok b, t)
        → Enabled bridge cidr outbound s t b
    unfolding enable_nat
    enable_nat-Enabled bridge cidr outbound s t b e =
        let p =
          split
            (and_then exec (ensure exec (masquerade cidr outbound) s) (forward_out bridge outbound))
            (forward_in bridge outbound) b t e in
        let q =
          split (ensure exec (masquerade cidr outbound) s) (forward_out bridge outbound) p.before
            p.between p.first in
        let m = ensured (masquerade cidr outbound) s q.between q.before q.first in
        let o = ensured (forward_out bridge outbound) q.between p.between q.after q.last in
        let n = ensured (forward_in bridge outbound) p.between t p.after p.last in
        record {
          masquerades = n.keeps _ (o.keeps _ m.there);
          forwards_out = n.keeps _ o.there;
          forwards_in = n.there;
          keeps = λ r h. n.keeps r (o.keeps r (m.keeps r h));
          same = λ f.
              let (p_off, n_off) = neither p.before p.after (sym p.any ∙ f) in
              let (m_off, o_off) = neither q.before q.after (sym q.any ∙ p_off) in
              n.same n_off ∙ (o.same o_off ∙ m.same m_off);
        }
      where
        neither : (c d : Bool) → (c || d) ≡ false → (c ≡ false) × (d ≡ false)
        neither true d h = cc
        neither false d h = (refl, h)

    pair-eq : {A B : Type 0} (x : A × B) (a : A) (b : B) → x.0 ≡ a → x.1 ≡ b → x ≡ (a, b)
    pair-eq (c, d) a b h k = cc

    ensure-present : (rule : Rule) (s : S) → has s rule ≡ true → ensure exec rule s ≡ (ok false, s)
    unfolding ensure check
    ensure-present rule s h = rw (
        pair-eq (exec (args check_rule rule) s) success s (i.check_complete rule s h)
          (i.check_keeps rule s))

    -- On such a host, whose -C and -A do as documented: after a call that succeeded,
    -- `rules_present` answers yes, and a second call installs nothing and leaves the host as it
    -- is.
    pub enable_nat-again :
        (bridge cidr outbound : String) (s t : S) (b : Bool)
        → enable_nat exec bridge cidr outbound s ≡ (ok b, t)
        → (enable_nat exec bridge cidr outbound t ≡ (ok false, t))
          × (rules_present exec bridge cidr outbound t ≡ (ok true, t))
    unfolding enable_nat rules_present check
    enable_nat-again bridge cidr outbound s t b e =
        let h = enable_nat-Enabled bridge cidr outbound s t b e in
        let c =
          pair-eq (exec (args check_rule (masquerade cidr outbound)) t) success t
            (i.check_complete (masquerade cidr outbound) t h.masquerades)
            (i.check_keeps (masquerade cidr outbound) t) in
        (
          rw (
            ensure-present (masquerade cidr outbound) t h.masquerades,
            ensure-present (forward_out bridge outbound) t h.forwards_out,
            ensure-present (forward_in bridge outbound) t h.forwards_in,
          ),
          rw c,
        )
