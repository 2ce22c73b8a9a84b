-- ===== src/Net/Firewall.antt =====
-- runtime/pullrun-net/src/firewall.rs: `IptablesBackend`. A command of the host is a call of `exec`,
-- which gives its exit and the host's state after it.
pub mod Present
use Prim.Native.String.{String}
use pullrun.Base.{ℕ, Bool, true, false, ◌||◌, List, [], ◌∷◌, ◌++◌}

-- The table that `-t` names, where it does; the chain; and the match and target behind it.
pub data Table : Type 0 where
  nat filter : Table

pub record Rule : Type 0 where
  pub table : Table
  pub chain : String
  pub rest : List String

pub data Action : Type 0 where
  check_rule append_rule delete_rule : Action

abbrev pub flag : Action → String
flag check_rule = "-C"
flag append_rule = "-A"
flag delete_rule = "-D"

abbrev pub table_args : Table → List String
table_args nat = "-t" ∷ "nat" ∷ []
table_args filter = []

unfoldable pub args : Action → Rule → List String
args action rule = table_args rule.table ++ flag action ∷ rule.chain ∷ rule.rest

unfoldable pub masquerade : String → String → Rule
masquerade bridge_cidr outbound = record {
  table = nat;
  chain = "POSTROUTING";
  rest = "-s" ∷ bridge_cidr ∷ "!" ∷ "-d" ∷ bridge_cidr ∷ "-o" ∷ outbound ∷ "-j" ∷ "MASQUERADE" ∷ [];
}

unfoldable pub forward_out : String → String → Rule
forward_out bridge outbound = record {
  table = filter;
  chain = "FORWARD";
  rest = "-i" ∷ bridge ∷ "-o" ∷ outbound ∷ "-j" ∷ "ACCEPT" ∷ [];
}

unfoldable pub forward_in : String → String → Rule
forward_in bridge outbound = record {
  table = filter;
  chain = "FORWARD";
  rest =
      "-i" ∷ outbound ∷ "-o" ∷ bridge ∷ "-m" ∷ "state" ∷ "--state" ∷ "RELATED,ESTABLISHED" ∷ "-j"
      ∷ "ACCEPT" ∷ [];
}

-- How a command ends: its status, or why it could not be started.
pub data Exit : Type 0 where
  success failure missing io_error : Exit

pub data FirewallError : Type 0 where
  command_failed command_not_found : FirewallError

pub data Result (A : Type 0) : Type 0 where
  ok : A → Result A
  err : FirewallError → Result A

module _ {S : Type 0} (exec : List String → S → Exit × S) where
  abbrev pub of_check : Exit × S → Result Bool × S
  of_check (success, s) = (ok true, s)
  of_check (failure, s) = (ok false, s)
  of_check (missing, s) = (err command_not_found, s)
  of_check (io_error, s) = (err command_failed, s)

  unfoldable pub check : List String → S → Result Bool × S
  check command s = of_check (exec command s)

  abbrev pub of_run : Exit × S → Result Bool × S
  of_run (success, s) = (ok true, s)
  of_run (failure, s) = (err command_failed, s)
  of_run (missing, s) = (err command_not_found, s)
  of_run (io_error, s) = (err command_failed, s)

  -- The unit that `run` returns is `true` here.
  unfoldable pub run : List String → S → Result Bool × S
  run command s = of_run (exec command s)

  abbrev pub unless_present : Rule → Result Bool × S → Result Bool × S
  unless_present rule (ok true, s) = (ok false, s)
  unless_present rule (ok false, s) = run (args append_rule rule) s
  unless_present rule (err e, s) = (err e, s)

  -- One of the three blocks: whether it installed the rule.
  unfoldable pub ensure : Rule → S → Result Bool × S
  ensure rule s = unless_present rule (check (args check_rule rule) s)

  abbrev pub or_installed : Bool → Result Bool × S → Result Bool × S
  or_installed installed (ok new, s) = (ok (installed || new), s)
  or_installed installed (err e, s) = (err e, s)

  -- The next block, where the one before did not fail.
  abbrev pub and_then : Result Bool × S → Rule → Result Bool × S
  and_then (ok installed, s) rule = or_installed installed (ensure rule s)
  and_then (err e, s) rule = (err e, s)

  unfoldable pub enable_nat : String → String → String → S → Result Bool × S
  enable_nat bridge_name bridge_cidr outbound_iface s =
      and_then
        (and_then (ensure (masquerade bridge_cidr outbound_iface) s)
          (forward_out bridge_name outbound_iface))
        (forward_in bridge_name outbound_iface)

  -- The results of the three deletions are dropped.
  unfoldable pub disable_nat : String → String → String → S → S
  disable_nat bridge_name bridge_cidr outbound_iface s =
      let s1 = (run (args delete_rule (masquerade bridge_cidr outbound_iface)) s).1 in
      let s2 = (run (args delete_rule (forward_out bridge_name outbound_iface)) s1).1 in
      (run (args delete_rule (forward_in bridge_name outbound_iface)) s2).1

  unfoldable pub rules_present : String → String → String → S → Result Bool × S
  rules_present bridge_name bridge_cidr outbound_iface s =
      check (args check_rule (masquerade bridge_cidr outbound_iface)) s
