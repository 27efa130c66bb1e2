-- ===== src/Daemon/Loop/Variables.antt =====
-- src/daemon.rs, `run_inner`: what the main loop calls and reads, its variables and its times.
use nfqttl.Base.{ℕ, ◌-◌, Bool, true, false, leb, ◌∷◌, ◌++◌, Option, none, some}
use nfqttl.Base.Text.{Text, to_text}
use nfqttl.Config.{Config}
use nfqttl.Net.{Links}
use nfqttl.Firewall.{Ipv6Plan}
use nfqttl.Daemon.{EffectiveBackend, QStats, Progress, Guard}

-- What the loop calls, over the state of the system.
pub record World (S : Type 0) : Type 0 where
  pub clean : S → Bool × S
  pub install4 : Links → Bool → ℕ → ℕ → Option Text → S → Bool × Option Text × S
  pub install6 : Links → Ipv6Plan → ℕ → Option Text → S → Bool × Option Text × S
  pub rules_ok : Bool → Option Text → Links → Bool → ℕ → ℕ → Ipv6Plan → S → Bool
  pub stop : S → S
  pub start : ℕ → S → Bool × S
  pub healthy : ℕ → S → Bool × S
  pub sync : Config → Links → S → S
  pub apply_offload : Bool → S → S
  pub restore_offload : S → S

-- What one round reads. `notified` is the result of the wait at its end.
pub record Inputs : Type 0 where
  pub stopping : Bool
  pub disabled : Bool
  pub now : ℕ
  pub found : Links
  pub stats : Option Text
  pub notified : Bool

-- The phase that the state file shows.
pub data Phase : Type 0 where
  starting idle installing running recovering : Phase

-- The variables of the loop, and the system. Times are in milliseconds.
pub record Loop (S : Type 0) : Type 0 where
  pub world : S
  pub guard : Guard
  pub links : Links
  pub last : Text
  pub progress : Progress
  pub last_drops : Text
  pub warn_backlog : ℕ
  pub stable : ℕ
  pub scan : ℕ
  pub check : ℕ
  pub offload_check : ℕ
  pub sqm_check : ℕ
  pub monitor : ℕ
  pub changed : Bool
  pub first : Bool
  pub phase : Phase

-- `next` goes on in the round, `again` is a `continue`.
pub data Flow (S : Type 0) : Type 0 where
  next again : Loop S → Flow S

abbrev pub is_some : Option Text → Bool
is_some none = false
is_some (some t) = true

abbrev pub is_nfqueue : EffectiveBackend → Bool
is_nfqueue EffectiveBackend.nfqueue = true
is_nfqueue EffectiveBackend.kernel = false

abbrev pub has_rules6 : Ipv6Plan → Bool
has_rules6 Ipv6Plan.normalize = true
has_rules6 Ipv6Plan.block = true
has_rules6 _ = false

-- `since.elapsed() >= span`
abbrev pub is_due : ℕ → ℕ → ℕ → Bool
is_due now since span = leb span (now - since)

abbrev pub drops_of : QStats → Text
drops_of q = to_text q.kdrops ++ (b':' ∷ to_text q.udrops)
