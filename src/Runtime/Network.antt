-- ===== src/Runtime/Network.antt =====
-- runtime/pullrun-runtime/src/service.rs: a workload's network mode, as a string and parsed.
use pullrun.Base.{◌≡◌, refl, Bool, Option, none, some, ◌++◌, if◌then◌else◌, drop, length}
use pullrun.Base.Words.{Bytes}
use pullrun.Base.Text.{eq_bytes, starts_with}
use pullrun.Runtime.Names.{bridge, host, slirp, isolated, container_prefix}
use pullrun.Runtime.Exec.{
  NetworkMode, loopback_mode, bridge_mode, host_mode, slirp_mode, container_mode,
}

-- `s.strip_prefix(prefix)`
unfoldable pub strip_prefix : Bytes → Bytes → Option Bytes
strip_prefix prefix s = if starts_with prefix s then some (drop (length prefix) s) else none

abbrev pub named_mode : Bytes → Bool → NetworkMode
named_mode s has_inbound_ports =
    if eq_bytes s bridge
    then bridge_mode
    else if eq_bytes s host
    then host_mode
    else if eq_bytes s slirp
    then slirp_mode
    else if has_inbound_ports
    then bridge_mode
    else loopback_mode

abbrev pub joined_or_named : Bytes → Bool → Option Bytes → NetworkMode
joined_or_named s has_inbound_ports (some target) = container_mode target
joined_or_named s has_inbound_ports none = named_mode s has_inbound_ports

unfoldable pub parse_network_mode : Bytes → Bool → NetworkMode
parse_network_mode s has_inbound_ports =
    joined_or_named s has_inbound_ports (strip_prefix container_prefix s)

unfoldable pub network_mode_str : NetworkMode → Bytes
network_mode_str loopback_mode = isolated
network_mode_str bridge_mode = bridge
network_mode_str host_mode = host
network_mode_str slirp_mode = slirp
network_mode_str (container_mode target) = container_prefix ++ target

-- What inbound ports make of a mode.
abbrev pub promoted : NetworkMode → Bool → NetworkMode
promoted loopback_mode has_inbound_ports = if has_inbound_ports then bridge_mode else loopback_mode
promoted bridge_mode has_inbound_ports = bridge_mode
promoted host_mode has_inbound_ports = host_mode
promoted slirp_mode has_inbound_ports = slirp_mode
promoted (container_mode target) has_inbound_ports = container_mode target

-- A mode is read back from its string, whatever the ports, unless it is the loopback and there are
-- inbound ports, which make it the bridge.
pub parse-network_mode_str :
    (mode : NetworkMode) (has_inbound_ports : Bool)
    → parse_network_mode (network_mode_str mode) has_inbound_ports ≡ promoted mode has_inbound_ports
unfolding parse_network_mode network_mode_str strip_prefix starts_with eq_bytes
parse-network_mode_str loopback_mode p = refl
parse-network_mode_str bridge_mode p = refl
parse-network_mode_str host_mode p = refl
parse-network_mode_str slirp_mode p = refl
parse-network_mode_str (container_mode target) p = refl
