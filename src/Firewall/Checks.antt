-- ===== src/Firewall/Checks.antt =====
-- The daemon's check of the rules after an installation.
use nfqttl.Base.{ℕ, ◌≡◌, ◌∙◌, ap, Bool, true, false, List, Option, some}
use nfqttl.Base.Text.{Text}
use nfqttl.Net.{Links}
use nfqttl.Firewall.{
  Tool, Ipv6Plan, rules_ok, other_chain, install4, install6, target4, target6, expected_target,
  is_mode_pass,
}
use nfqttl.Firewall.Laws.{Iptables}
use nfqttl.Firewall.Fill.{pairs, IsTarget, target4-IsTarget, target6-IsTarget}
use nfqttl.Firewall.Frames.{Slot, slot_chain, IsOutcome}
use nfqttl.Firewall.Agree.{install-IsOutcome, rules_ok-IsInstalled}

module _ {S : Type 0} (t : Tool S) where
  -- An installation that reports success passes the check.
  abbrev pub Passes :
      (v6 kernel : Bool) (workers value : ℕ) (mode : Ipv6Plan) (links : Links)
      → Bool × Option Text × S
      → Type 0
  Passes v6 kernel workers value mode links (true, active, u) =
      rules_ok t v6 active links kernel workers value mode u ≡ true
  Passes v6 kernel workers value mode links (false, active, u) = Unit

  module _ (w : Iptables t) where
    outcome-Passes :
        (v6 kernel : Bool) (workers value : ℕ) (mode : Ipv6Plan) (target : List Text)
        (links : Links) (k : Slot) (s : S) (m : Bool × Option Text × S)
        → IsTarget (expected_target v6 kernel workers value mode) target
        → IsOutcome t w v6 (pairs target links.down links.up) k s m
        → Passes v6 kernel workers value mode links m
    outcome-Passes v6 kernel workers value mode target links k s (false, active, u) same h = tt
    outcome-Passes v6 kernel workers value mode target links k s (true, active, u) same (e, h) =
        ap (λ a. rules_ok t v6 a links kernel workers value mode u) e
        ∙ rules_ok-IsInstalled t w v6 kernel workers value mode target links
            (other_chain v6 (slot_chain v6 k)) s u same h

    -- For a tool that behaves as its manual says, whose checks and listings are carried out: after
    -- `install4` has succeeded, `rules_ok` with the same backend, workers, TTL and links accepts the rules, whatever the IPv6 mode.
    pub install4-Passes :
        (ip6t : Option (Tool S)) (links : Links) (kernel : Bool) (workers ttl : ℕ) (mode : Ipv6Plan)
        (k : Slot) (s : S)
        → Passes false kernel workers ttl mode links
            (install4 t ip6t links kernel workers ttl (slot_chain false k) s)
    install4-Passes ip6t links kernel workers ttl mode k s =
        outcome-Passes false kernel workers ttl mode (target4 kernel workers ttl) links k s _
          (target4-IsTarget kernel workers ttl mode)
          (install-IsOutcome t w false (target4 kernel workers ttl) links k s)

    -- For a tool that behaves as its manual says, whose checks and listings are carried out, in a
    -- mode that installs IPv6 rules: after `install6` has succeeded, `rules_ok` with the same mode, hop limit and links accepts them.
    pub install6-Passes :
        (ipt : Tool S) (links : Links) (mode : Ipv6Plan) (workers hl : ℕ) (k : Slot) (s : S)
        → is_mode_pass mode ≡ false
        → Passes true true workers hl mode links
            (install6 ipt (some t) links mode hl (slot_chain true k) s)
    unfolding install6
    install6-Passes ipt links mode workers hl k s active_mode = rw active_mode (
        outcome-Passes true true workers hl mode (target6 mode hl) links k s _
          (target6-IsTarget mode hl workers)
          (install-IsOutcome t w true (target6 mode hl) links k s))
