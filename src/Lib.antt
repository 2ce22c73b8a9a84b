-- ===== src/Lib.antt =====
-- A model of the core of pullrun, a container runtime in Rust (runtime/), with the theorems that make
-- it correct. Ten crates are modelled:
--
-- runtime/pullrun-vsock (Vsock). The frames between the host and the init process of a guest.
--   Vsock.Frame: `FrameType`, `Frame` and `ProtocolError`; a String and a Bytes are their bytes, an
--   i32 is its 32-bit pattern. Vsock.Cursor: reading and writing at a cursor; a getter of the `bytes`
--   crate panics where too few bytes remain. Vsock.Codec: `encode_payload`, `decode_payload`, `encode`
--   and `decode`, one reader per frame type. Vsock.Stream: `read_frame` and `write_frame`; a stream is
--   the bytes still to come. UTF-8 validity is a parameter. Memory exhaustion by `with_capacity` is
--   not modelled.
--
-- runtime/pullrun-net (Net). Addresses of workloads.
--   Net.IpRange: `IpRange` and `from_cidr`, the parsers of the standard library as parameters.
--   Net.Ipam: `Ipam` as a record of its counters and maps; a call under its lock is one step, and
--   /proc/net/route is the list of its parsed routes. `subnet_for` searches for 64 rounds, as the code
--   does. Net.Ipam.Race: `allocate` as a step relation over any number of callers, one atomic access a
--   step. Arithmetic on u32 wraps, as in a release build.
--   Net.Firewall: the iptables backend of firewall.rs; a command of the host is a call of a parameter,
--   and what the manual of iptables says of -C and -A is a hypothesis.
--   Net.Dns: the DNS proxy of dns.rs; the loop over labels runs on one round for each byte.
--
-- runtime/pullrun-policy (Policy). Whether a workload may run an image.
--   Policy.Signature: `check_signature`, which reads a blob of the store, checks that its payload names
--   the image, and looks for a trusted key. Policy.Sbom: the report of `evaluate_sbom` and its highest
--   score. Policy.Engine: `evaluate_for_image` as its stages, joined where the code goes on. The record
--   of `Services` holds Ed25519, SHA-256, the archives of rkyv, the order of f32 and the lookup of a
--   blob. Reasons of a denial are data in place of formatted text.
--
-- runtime/pullrun-sync (Sync). What nodes tell each other of their blobs.
--   Sync.Bloom: `BloomFilter`; a result of `none` is a panic. SHA-256 is a parameter, and so are `m`
--   and `k`, which the code computes in floating point. Sync.Delta: `compute_delta` of delta.rs and
--   `rebuild_bloom_filter` of block_sync.rs, which uses the filter; the walk over the store is the list
--   of its digests.
--   Sync.BlockSync: `get_blobs` sends a blob in chunks, `sync_blobs` accepts what a peer pushes; a
--   stream is the list of its messages, and the chunk loop runs on one round for each byte and one
--   more. Sync.Puller: `fetch_blob_with_sync` takes a blob from the local store, a peer or the
--   registry; a peer is the stream that it answers with, which may stall. Sync.Gossip: `PeerBloomCache`, which names the
--   peers that may hold a blob; times are nanoseconds of one clock.
--
-- runtime/pullrun-store (Store). Store.Digest: `Digest::from_hex`, with the decoder of hexadecimal text
--   as a parameter. Store.Blobs: the blobs of `MmapStore` on disk and in their cache; a path is the
--   digest that it is made of, and I/O other than a missing file does not fail.
--   Store.Dag: the nodes of node.rs. Store.Nodes: `MmapStore` as node files, blob files, their caches and
--   the reference counts; rkyv and SHA-256 are the record `Archive`. Store.Walk: `walk_reachable`, whose
--   loop runs on one round for each root and each stored edge. Store.RemoveTag: `remove_tag`, whose
--   cascade runs on one round for each stored edge and one more; Store.Recount: the recount and the
--   image size. Store.OpLock: the lock files of op_lock.rs.
--
-- runtime/pullrun-gc (Gc). `GarbageCollector::collect` over the store and its lock files; directories
--   are the maps of their files.
--
-- runtime/pullrun-oci (Oci). The Dockerfile parser, on ASCII text. Oci.Words: what it uses of the
--   standard library. Oci.Lines: `preprocess_lines` and `split_into_blocks`. Oci.Instruction:
--   `parse_instruction`, with serde_json and the parser of u16 as parameters; the loop over flags runs
--   on one round for each byte and one more. Oci.Dockerfile: `parse_from`, `parse_block`, `parse`.
--
-- runtime/pullrun-vm (Vm). Vm.Pool: `VmPool` of pool.rs; Vm.Pool.Reach: its tasks and callers as a
--   step relation, one access under the lock a step; a boot is outside of the lock, and no step. Vm.Quote: the command line of the init script that
--   ext4.rs writes.
--
-- runtime/pullrun-runtime and runtime/pullrun-exec (Runtime). The daemon's workloads. Runtime.Events: the
--   kinds of events of events.rs and their strings. Runtime.Exec: what types.rs of pullrun-exec hands to
--   an executor. The others are parts of service.rs. Runtime.State: `WorkloadState`, the state that
--   handlers and watchers share, and the checkpoints, each the state that its file holds.
--   Runtime.Network, Runtime.Validate and Runtime.ExitCode: network modes, the checks of ids and mounts,
--   `parse_exit_code`. Runtime.Run: `run_workload` as built for Linux; Run.Monad: a handler that fails
--   keeps what it has changed so far; Run.Checks, Run.Staging and Run.Handler: its phases. Runtime.Stop:
--   `stop_workload`. Runtime.Watcher and Runtime.Restart: the exit watcher and `attempt_restart`, cut
--   where the lock of the map is given up. Runtime.Health: the health watcher. Runtime.Recovery: the start
--   of the daemon. Runtime.Prune: `prune` on the daemon's state. Runtime.Images: `enumerate_gc_roots`,
--   `gc` on the collector of Gc, `remove_image` on the store of Store. Runtime.Lifecycle: a step
--   relation in which each section under the lock, and each write of a checkpoint that follows it, is a
--   step, in any order. The executor, the file system, the clock, the
--   staging of kernels and the stores of secrets are arguments; an executor's answers may differ from
--   step to step.
--
-- Base holds what they share: Boolean tests, lists measured by native numbers, byte and word
-- arithmetic, bits, trimming, and finite maps as association lists.
--
-- Loops over a list or a counted range are structural recursion and need no fuel.
--
-- Not modelled: the rest of the gRPC service (attaching, building, pulling and pushing, networks,
-- streams, and what is built for macOS only), the executor, the hypervisors, the guest's init, the
-- proxy, and the registry client, which are I/O; the memory maps of the store;
-- the nftables backend, which runs a script.
pub mod Base
pub mod Gc
pub mod Net
pub mod Oci
pub mod Policy
pub mod Runtime
pub mod Store
pub mod Sync
pub mod Vm
pub mod Vsock
