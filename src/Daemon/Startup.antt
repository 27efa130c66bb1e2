-- ===== src/Daemon/Startup.antt =====
-- What the daemon chooses at its start suits the configuration and the system.
use nfqttl.Base.{◌≤◌, ◌<◌, ◌≡◌, arith, Bool, true, false, ◌↔◌, Result, ok, Error, Post}
use nfqttl.Config.{Config, Backend, Ipv6Mode}
use nfqttl.Firewall.{Ipv6Plan}
use nfqttl.Daemon.{EffectiveBackend, Probes, Choice, choose_backend, choose_v6, choose}

pub record Suits (fw : Probes) (c : Config) (d : Choice) : Type 0 where
  pub kernel_target : d.backend ≡ EffectiveBackend.kernel → fw.ttl_target ≡ true
  pub kernel_forced : c.backend ≡ Backend.kernel → d.backend ≡ EffectiveBackend.kernel
  pub queue_forced : c.backend ≡ Backend.nfqueue → d.backend ≡ EffectiveBackend.nfqueue
  pub some_workers : 1 ≤ d.active_workers
  pub few_workers : d.active_workers ≤ c.workers
  pub balanced : 1 < d.active_workers → (d.backend ≡ EffectiveBackend.nfqueue) × (fw.balance ≡ true)
  pub v6_target : d.v6 ≡ Ipv6Plan.normalize → (fw.ip6t ≡ true) × (fw.hl_target ≡ true)
  pub v6_block : d.v6 ≡ Ipv6Plan.block → fw.ip6t ≡ true
  pub v6_enforced : c.ipv6_mode ≡ Ipv6Mode.block → fw.ip6t ≡ true → d.v6 ≡ Ipv6Plan.block
  pub v6_unenforced :
      c.ipv6_mode ≡ Ipv6Mode.block → fw.ip6t ≡ false → d.v6 ≡ Ipv6Plan.pass_no_ip6tables
  pub v6_forced : c.ipv6_mode ≡ Ipv6Mode.normalize → d.v6 ≡ Ipv6Plan.normalize
  pub v6_pass : c.ipv6_mode ≡ Ipv6Mode.pass → d.v6 ≡ Ipv6Plan.pass

-- The system has what the configuration demands.
pub record Meets (fw : Probes) (c : Config) : Type 0 where
  pub kernel : c.backend ≡ Backend.kernel → fw.ttl_target ≡ true
  pub ip6t : c.ipv6_mode ≡ Ipv6Mode.normalize → fw.ip6t ≡ true
  pub hl : c.ipv6_mode ≡ Ipv6Mode.normalize → fw.hl_target ≡ true

abbrev pub is_ok : Result Error Choice → Bool
is_ok (ok d) = true
is_ok _ = false

-- For a configuration with a worker: the choice needs no target that the system lacks, and the
-- backend and the IPv6 mode that the configuration demands are chosen, but where ip6tables is missing
-- a demanded block is not enforced and IPv6 passes (`pass-no-ip6tables`). There are 1 to `workers`
-- workers, and several only for queues that the kernel balances. The daemon chooses without an
-- error exactly if the system has the targets that a demanded kernel backend and a demanded
-- normalization of IPv6 need.
pub choose-Suits :
    (fw : Probes) (c : Config)
    → 1 ≤ c.workers
    → Post (Suits fw c) (choose fw c) × ((is_ok (choose fw c) ≡ true) ↔ Meets fw c)
unfolding choose choose_backend choose_v6
choose-Suits fw c w = (ground arith, ground arith)
