-- ===== src/Net/FirewallTests.antt =====
-- runtime/pullrun-net/src/firewall.rs on a host that keeps its rules in a list.
use Prim.Native.String.{String}
use pullrun.Base.{
  ◌≡◌, refl, sym, ◌∙◌, ap, Bool, true, false, ◌&&◌, ◌||◌, List, [], ◌∷◌, ◌++◌, if◌then◌else◌,
}
use pullrun.Base.Map.{string_eq, beq_refl}
use pullrun.Net.Firewall.{
  Table, Rule, nat, filter, check_rule, append_rule, args, table_args, masquerade, forward_out,
  forward_in, Exit, success, failure, enable_nat, ensure, check, run, ok,
}
use pullrun.Net.Firewall.Present.{IsIptables}

-- A host whose rules are the commands that check them.
abbrev Host : Type 0
Host = List (List String)

abbrev same : List String → List String → Bool
same [] [] = true
same [] (b ∷ t) = false
same (a ∷ s) [] = false
same (a ∷ s) (b ∷ t) = string_eq.beq a b && same s t

abbrev holds : Host → List String → Bool
holds [] c = false
holds (d ∷ h) c = same d c || holds h c

abbrev checks : List String → Host → Exit × Host
checks c h = (if holds h c then success else failure, h)

-- `act` on the flag, with the command before and behind it.
abbrev act : List String → String → List String → Host → Exit × Host
act before f behind h =
    if string_eq.beq f "-C"
    then checks (before ++ f ∷ behind) h
    else if string_eq.beq f "-A"
    then (success, (before ++ "-C" ∷ behind) ∷ h)
    else (failure, h)

abbrev iptables : List String → Host → Exit × Host
iptables [] h = (failure, h)
iptables (f ∷ []) h = act [] f [] h
iptables (f ∷ g ∷ []) h = act [] f (g ∷ []) h
iptables (f ∷ g ∷ k ∷ behind) h =
    if string_eq.beq f "-t" then act (f ∷ g ∷ []) k behind h else act [] f (g ∷ k ∷ behind) h

abbrev has_rule : Host → Rule → Bool
has_rule h r = holds h (args check_rule r)

same_refl : (c : List String) → same c c ≡ true
same_refl [] = refl
same_refl (a ∷ c) = rw (beq_refl a, same_refl c)

-- The command that `args` makes of a rule's parts.
abbrev command : Table → String → String → List String → List String
command table f chain rest = table_args table ++ f ∷ chain ∷ rest

iptables-command :
    (table : Table) (f chain : String) (rest : List String) (h : Host)
    → string_eq.beq f "-t" ≡ false
    → iptables (command table f chain rest) h ≡ act (table_args table) f (chain ∷ rest) h
iptables-command nat f chain rest h e = refl
iptables-command filter f chain [] h e = refl
iptables-command filter f chain (x ∷ rest) h e = rw e

iptables-check :
    (r : Rule) (h : Host) → iptables (args check_rule r) h ≡ checks (args check_rule r) h
unfolding args
iptables-check r h = iptables-command r.table "-C" r.chain r.rest h refl

iptables-append :
    (r : Rule) (h : Host) → iptables (args append_rule r) h ≡ (success, args check_rule r ∷ h)
unfolding args
iptables-append r h = iptables-command r.table "-A" r.chain r.rest h refl

first-success : (b : Bool) → (if b then success else failure) ≡ success → b ≡ true
first-success true e = refl
first-success false e = cc

iptables-IsIptables : IsIptables iptables has_rule
iptables-IsIptables = record {
  check_keeps = λ r h. ap (λ (p : Exit × Host). p.1) (iptables-check r h);
  check_sound = λ r h e.
      first-success (has_rule h r) (sym (ap (λ (p : Exit × Host). p.0) (iptables-check r h)) ∙ e);
  check_complete = λ r h e.
      ap (λ (p : Exit × Host). p.0) (iptables-check r h)
      ∙ ap (λ (b : Bool). if b then success else failure) e;
  append_adds = λ r h e.
      ap (λ (p : Exit × Host). has_rule p.1 r) (iptables-append r h)
      ∙ ap (λ (b : Bool). b || has_rule h r) (same_refl (args check_rule r));
  append_keeps = λ r q h e k.
      ap (λ (p : Exit × Host). has_rule p.1 q) (iptables-append r h)
      ∙ either (same (args check_rule r) (args check_rule q)) (has_rule h q) k;
}
  where
    either : (a b : Bool) → b ≡ true → (a || b) ≡ true
    either true b e = refl
    either false b e = e

abbrev enabled : Host
enabled =
    args check_rule (forward_in "pr0" "eth0")
    ∷ args check_rule (forward_out "pr0" "eth0")
    ∷ args check_rule (masquerade "10.20.1.0/24" "eth0")
    ∷ []

enabled-run : enable_nat iptables "pr0" "10.20.1.0/24" "eth0" [] ≡ (ok true, enabled)
unfolding enable_nat ensure check run args masquerade forward_out forward_in
enabled-run = refl
