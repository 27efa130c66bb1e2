-- ===== src/Lib.antt =====
-- nfqttl sets the TTL of the packets that a phone forwards for the clients of its hotspot. A daemon
-- (src/daemon.rs) finds the interfaces (src/net.rs), installs the rules (src/firewall.rs) and, where
-- the kernel has no TTL target, starts workers (src/nfqueue.rs) that receive packets over a netlink
-- queue, rewrite them (src/packet.rs) and answer with a verdict. Its settings come from one file
-- (src/config.rs). `nfqttl verify` (src/verify.rs) samples the traffic and judges it.
--
-- Files:
-- - Base and its children: bytes and words, lists over the native numbers, texts as lists of code
--   points (Base/Text: trim, split_whitespace, lines, split_once, parse), results (Base/Results: a
--   run is a value, an error, a panic, or stuck if its fuel does not suffice).
-- - Packet: `set_ipv4_ttl` of src/packet.rs. The sum over the header is its loop, the folding of
--   the carries recurs on the well-founded order of the sums.
-- - Nfqueue: src/nfqueue.rs, the messages (`attr`, `begin_into`, `finish_len`) and `verdict`, as
--   `scan` over the attributes, `treat` for the packet and `answer` for the reply.
--   Nfqueue/Configure: `ack`, `configure_params` and `configure`.
-- - Worker: the loop of `worker` in src/nfqueue.rs. What `poll` and `recvfrom` return is a list of
--   events; what `sendto` returns is a parameter.
-- - Config: `Config::load` of src/config.rs, with a `match` on the key as the data type `Key`;
--   Config/Validate: `Config::validate`.
-- - Net: src/net.rs, the parsers of the outputs of `ip`, and `classify`. A `BTreeSet` is an
--   increasing list.
-- - Verify: src/verify.rs, `parse_counters`, `total_hits`, `Hist`, `observe`, `drain`, `judge` and
--   `parse_options`; Verify/Run: `sample`, `counters` and `run`, over what it reads of the system,
--   where the window of time is one step of the system and its calls of `poll` are a list.
-- - Firewall: src/firewall.rs. A command is a value with the words of its rule; the tool that runs it
--   and prints the rules is a parameter (Firewall/Words has both), and Firewall/Laws says what the
--   program relies on in it: changes may fail, checks and listings are carried out.
-- - Daemon: src/daemon.rs, `queue_stats`, `stall_sample`, the choices of `run_inner`, and `recover`
--   with the calls it makes as a list. A `BTreeMap` is an association list.
--   Daemon/Workers: `Workers`, over the system's calls for processes, logs and state files; the
--   system changes only when it is called, pauses included.
--   Daemon/Loop: the main loop of `run_inner`, one round as a function of its variables
--   (Daemon/Loop/Variables) and of what the round reads, over an interface for the firewall, the
--   workers, the shaping and the offload settings. Daemon/Loop/Logged has an interface that notes
--   the calls that are made of it. The clock is read once per round. The rotation of
--   the workers' logs and the texts of the state files are left out. Daemon/System: the interface
--   filled with the parts of the program, and what holds of them together.
-- - Qos: src/qos.rs, `attr`, `attrs`, `encode`, `options`, `hex` and `unhex`; Qos/Message:
--   `message`, `decode_qdisc`, `owned` and `replaceable`;
--   Qos/Replies: the loop of `request` over a datagram; Qos/Desired: `desired`, with
--   the contents of the files `ifindex` as a parameter; Qos/Journals: `journals` and the text of
--   `write_journal`; Qos/Reconcile: `reconcile`, `sync` and `cleanup`, over the trait `Backend` and
--   the state directory, of which Qos/Reconcile/Kernel says what the program relies on.
-- - Offload: src/offload.rs, over the commands that read and write the settings and the files of
--   the journal, of which any may fail; Offload/Store says what is relied on, that files that are
--   there can be removed among it.
-- - Util: src/util.rs, `owned_pid`, over what it reads of a process, and `tail_lines`.
-- - Ctl: src/ctl.rs, `configure`. A `BTreeMap` is an association list in the order of its keys. The
--   files and the stop and start of the daemon are a parameter. Ctl/Control: `stop`, `start`,
--   `restart` and `toggle`, composed of the cleanups of Firewall, Qos and Offload; Ctl/Stopped says
--   what it relies on between them, that each leaves the state of the others alone, and that iptables
--   and ip6tables are each found at every look or at none.
-- - Cli: src/main.rs, the arguments of `nfqttl worker`.
--
-- Integers are the native numbers, with `% 2 ^ w` where the source's type can wrap. Words are
-- little-endian, as on the arm64 devices the program is built for. Error messages are kept as
-- strings or as constructors, without the numbers formatted into them.
--
-- Fuel: `scan` has the length of the message, and each round reads at least 4 bytes of it; the loop
-- over the frames of a datagram has the length of the datagram, and each frame takes at least 16
-- bytes; likewise `ack`. `attrs` has the length of the bytes, of which an attribute takes at least 4, and
-- `replies` the length of the datagram. The theorems show that the results are never stuck. `drain`
-- has its own limit of 4096 rounds, the start of the workers its 80, `del_jump` its 16. The wait for
-- the daemon in `stop` lasts 45 seconds, at most 450 pauses of a tenth of a second.
--
-- Not modelled: opening sockets, the exchange of messages with the kernel in src/qos.rs, the lock
-- files, the handling of signals, logs, what the commands print, the shell scripts, the web page, and
-- the older version in C (nfqttl_c).
pub mod Base
pub mod Packet
pub mod Nfqueue
pub mod Worker
pub mod Config
pub mod Net
pub mod Verify
pub mod Firewall
pub mod Daemon
pub mod Qos
pub mod Offload
pub mod Util
pub mod Ctl
pub mod Cli
