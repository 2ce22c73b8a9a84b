-- ===== src/Runtime/Names.antt =====
-- runtime/pullrun-runtime/src/service.rs: the strings of a workload's state and of a request.
use pullrun.Base.{[], ◌∷◌}
use pullrun.Base.Words.{Bytes}

abbrev pub running : Bytes
running = b'r' ∷ b'u' ∷ b'n' ∷ b'n' ∷ b'i' ∷ b'n' ∷ b'g' ∷ []

abbrev pub stopped : Bytes
stopped = b's' ∷ b't' ∷ b'o' ∷ b'p' ∷ b'p' ∷ b'e' ∷ b'd' ∷ []

abbrev pub exited : Bytes
exited = b'e' ∷ b'x' ∷ b'i' ∷ b't' ∷ b'e' ∷ b'd' ∷ []

abbrev pub pending : Bytes
pending = b'p' ∷ b'e' ∷ b'n' ∷ b'd' ∷ b'i' ∷ b'n' ∷ b'g' ∷ []

abbrev pub vm : Bytes
vm = b'v' ∷ b'm' ∷ []

abbrev pub firecracker : Bytes
firecracker = b'f' ∷ b'i' ∷ b'r' ∷ b'e' ∷ b'c' ∷ b'r' ∷ b'a' ∷ b'c' ∷ b'k' ∷ b'e' ∷ b'r' ∷ []

abbrev pub container : Bytes
container = b'c' ∷ b'o' ∷ b'n' ∷ b't' ∷ b'a' ∷ b'i' ∷ b'n' ∷ b'e' ∷ b'r' ∷ []

abbrev pub container_rootless : Bytes
container_rootless =
    b'c' ∷ b'o' ∷ b'n' ∷ b't' ∷ b'a' ∷ b'i' ∷ b'n' ∷ b'e' ∷ b'r' ∷ b'-' ∷ b'r' ∷ b'o' ∷ b'o' ∷ b't'
    ∷ b'l' ∷ b'e' ∷ b's' ∷ b's' ∷ []

abbrev pub sandbox : Bytes
sandbox = b's' ∷ b'a' ∷ b'n' ∷ b'd' ∷ b'b' ∷ b'o' ∷ b'x' ∷ []

abbrev pub bridge : Bytes
bridge = b'b' ∷ b'r' ∷ b'i' ∷ b'd' ∷ b'g' ∷ b'e' ∷ []

abbrev pub host : Bytes
host = b'h' ∷ b'o' ∷ b's' ∷ b't' ∷ []

abbrev pub slirp : Bytes
slirp = b's' ∷ b'l' ∷ b'i' ∷ b'r' ∷ b'p' ∷ []

abbrev pub isolated : Bytes
isolated = b'i' ∷ b's' ∷ b'o' ∷ b'l' ∷ b'a' ∷ b't' ∷ b'e' ∷ b'd' ∷ []

abbrev pub container_prefix : Bytes
container_prefix = b'c' ∷ b'o' ∷ b'n' ∷ b't' ∷ b'a' ∷ b'i' ∷ b'n' ∷ b'e' ∷ b'r' ∷ b':' ∷ []

abbrev pub inbound : Bytes
inbound = b'i' ∷ b'n' ∷ b'b' ∷ b'o' ∷ b'u' ∷ b'n' ∷ b'd' ∷ []

abbrev pub outbound : Bytes
outbound = b'o' ∷ b'u' ∷ b't' ∷ b'b' ∷ b'o' ∷ b'u' ∷ b'n' ∷ b'd' ∷ []

abbrev pub tcp : Bytes
tcp = b't' ∷ b'c' ∷ b'p' ∷ []

abbrev pub udp : Bytes
udp = b'u' ∷ b'd' ∷ b'p' ∷ []

abbrev pub bind : Bytes
bind = b'b' ∷ b'i' ∷ b'n' ∷ b'd' ∷ []

abbrev pub tmpfs : Bytes
tmpfs = b't' ∷ b'm' ∷ b'p' ∷ b'f' ∷ b's' ∷ []

abbrev pub volume : Bytes
volume = b'v' ∷ b'o' ∷ b'l' ∷ b'u' ∷ b'm' ∷ b'e' ∷ []

abbrev pub ro : Bytes
ro = b'r' ∷ b'o' ∷ []

abbrev pub rbind : Bytes
rbind = b'r' ∷ b'b' ∷ b'i' ∷ b'n' ∷ b'd' ∷ []

abbrev pub slash : Bytes
slash = b'/' ∷ []

abbrev pub loopback : Bytes
loopback = b'l' ∷ b'o' ∷ b'o' ∷ b'p' ∷ b'b' ∷ b'a' ∷ b'c' ∷ b'k' ∷ []

abbrev pub healthy : Bytes
healthy = b'h' ∷ b'e' ∷ b'a' ∷ b'l' ∷ b't' ∷ b'h' ∷ b'y' ∷ []

abbrev pub unhealthy : Bytes
unhealthy = b'u' ∷ b'n' ∷ b'h' ∷ b'e' ∷ b'a' ∷ b'l' ∷ b't' ∷ b'h' ∷ b'y' ∷ []

abbrev pub starting : Bytes
starting = b's' ∷ b't' ∷ b'a' ∷ b'r' ∷ b't' ∷ b'i' ∷ b'n' ∷ b'g' ∷ []

abbrev pub unknown : Bytes
unknown = b'u' ∷ b'n' ∷ b'k' ∷ b'n' ∷ b'o' ∷ b'w' ∷ b'n' ∷ []

abbrev pub no_text : Bytes
no_text = []
