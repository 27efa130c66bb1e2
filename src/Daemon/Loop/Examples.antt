-- ===== src/Daemon/Loop/Examples.antt =====
-- A small system on which the loop makes one round, and is then disturbed.
use nfqttl.Base.{◌≡◌, refl, Bool, true, false, [], ◌∷◌, some, none}
use nfqttl.Base.Text.{codes}
use nfqttl.Config.{default}
use nfqttl.Firewall.{Ipv6Plan, chain_a}
use nfqttl.Daemon.{EffectiveBackend}
use nfqttl.Daemon.Loop.{
  World, Inputs, Loop, start_loop, look, install_part, apply_rules, watch_queues, round, resync,
  rescan, looked,
}
use nfqttl.Daemon.Loop.Orderly.{Installs}

-- The state is whether the workers are up.
abbrev small : World Bool
small = record {
  clean = λ s. (true, s);
  install4 = λ links kernel workers ttl a s. (true, some chain_a, s);
  install6 = λ links v6 hl a s. (true, a, s);
  rules_ok = λ v6 a links kernel workers ttl mode s. s;
  stop = λ s. false;
  start = λ n s. (true, true);
  healthy = λ n s. (s, s);
  sync = λ c l s. s;
  apply_offload = λ on s. s;
  restore_offload = λ s. s;
}

small-Installs : Installs small
small-Installs = record { names = λ links kernel workers ttl a s h. refl }

abbrev first_inputs : Inputs
first_inputs = record {
  stopping = false;
  disabled = false;
  now = 5;
  found = record { down = codes "wlan1" ∷ []; up = codes "rmnet0" ∷ [] };
  stats = none;
  notified = false;
}

abbrev begun : Loop Bool
begun = start_loop false 2 0

abbrev after_round : Loop Bool
after_round = looked small default EffectiveBackend.nfqueue Ipv6Plan.block first_inputs (
    look small default EffectiveBackend.nfqueue Ipv6Plan.block first_inputs (
      resync small default EffectiveBackend.nfqueue Ipv6Plan.block first_inputs
        (rescan default first_inputs begun)))

abbrev disturbed : Loop Bool
disturbed = record after_round { world = false }

first_round :
    round small default EffectiveBackend.nfqueue Ipv6Plan.block first_inputs begun
    ≡ some after_round
unfolding round
first_round = refl

-- After the first round the rules are in place.
after_round_rules : after_round.guard.active4 ≡ some chain_a
unfolding start_loop look install_part apply_rules watch_queues
after_round_rules = refl
