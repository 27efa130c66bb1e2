-- ===== src/Verify/Run.antt =====
-- src/verify.rs, `run`, without the printing of the report. What it reads of the system is an
-- interface; the window of time is a step of the system, in which `poll` and `recvfrom` report
-- what they do. Opening a socket, `Firewall::select` and the listings leave the system alone.
use nfqttl.Base.{
  ℕ, ◌+◌, ◌%◌, ◌^◌, Bool, true, false, ◌&&◌, ◌||◌, not, if◌then◌else◌, List, [], ◌∷◌, Option, none,
  some, Result, ok, err, panic, stuck, Error,
}
use nfqttl.Base.Words.{Bytes}
use nfqttl.Base.Text.{Text, codes, text_eq, parse_uint}
use nfqttl.Config.{Config, load}
use nfqttl.Config.Validate.{ConfigError, validate}
use nfqttl.Net.{Links}
use nfqttl.Firewall.{hook_of}
use nfqttl.Verify.{
  RuleCount, active_chain, parse_counters, total_hits, Hist, empty_hist, foreign, drain, Evidence,
  judge, exit_code, exit_inconclusive, Options, parse_options,
}

-- What one call of `poll` reports: a signal, another error, or the packets that wait at each socket
-- that is readable, each with its type and cut to 128 bytes by the kernel.
pub data Poll : Type 0 where
  interrupted failed : Poll
  ready : List (List (ℕ × Bytes)) → Poll

unfoldable pub drain_all : List (List (ℕ × Bytes)) → Hist × Hist → Hist × Hist
drain_all [] h = h
drain_all (q ∷ qs) h = drain_all qs (drain q h)

-- The calls of `poll` until the time is over.
unfoldable pub sample_rounds : List Poll → Hist × Hist → Hist × Hist
sample_rounds [] h = h
sample_rounds (interrupted ∷ ps) h = sample_rounds ps h
sample_rounds (failed ∷ ps) h = h
sample_rounds (ready qs ∷ ps) h = sample_rounds ps (drain_all qs h)

-- Without sockets the time is slept through.
abbrev pub sample : List ℕ → List Poll → Hist × Hist → Hist × Hist
sample [] ps h = h
sample (tap ∷ taps) ps h = sample_rounds ps h

-- `state_file` and `proc_file` are `read_trim` in the state directory and of a path. `select` tells
-- whether ip6tables is there too, and `out` is the output of it (or of iptables).
pub record Device (S : Type 0) : Type 0 where
  pub config_text : S → Option Text
  pub state_file : Text → S → Option Text
  pub proc_file : Text → S → Option Text
  pub select : S → Option Bool
  pub out : Bool → List Text → S → Text
  pub discover : Config → S → Links
  pub open_tap : Text → S → Option ℕ
  pub window : List ℕ → ℕ → S → List Poll × S

-- Why `run` fails.
pub data Failure : Type 0 where
  bad_option : Error → Failure
  bad_config : ConfigError → Failure
  no_iptables : Failure

abbrev pub Snapshot : Type 0
Snapshot = Option Text × List RuleCount

abbrev pub or_empty : Option Text → Text
or_empty none = []
or_empty (some t) = t

abbrev pub or_64 : Option ℕ → ℕ
or_64 none = 64
or_64 (some n) = n

abbrev pub number_of : Option Text → Option ℕ
number_of none = none
number_of (some t) = parse_uint (2 ^ 8) t

-- `a4 != *c4`
abbrev pub differs : Option Text → Option Text → Bool
differs none none = false
differs (some a) (some b) = not (text_eq a b)
differs _ _ = true

abbrev pub is_modified : Text → Bool
is_modified mode = text_eq mode (codes "normalize") || text_eq mode (codes "block")

abbrev pub use_v6_rules : Option Bool → Text → Bool
use_v6_rules none mode = false
use_v6_rules (some ip6) mode = ip6 && is_modified mode

module _ {S : Type 0} (d : Device S) where
  abbrev pub counted : Bool → S → Option Text → Snapshot
  counted v6 s none = (none, [])
  counted v6 s (some chain) =
      (some chain, parse_counters (d.out v6 (codes "-L" ∷ chain ∷ codes "-nvx" ∷ []) s))

  unfoldable pub counters : Bool → S → Snapshot
  counters v6 s =
      counted v6 s (active_chain (d.out v6 (codes "-S" ∷ hook_of v6 ∷ []) s) (hook_of v6))

  abbrev pub proc_u8 : Text → S → ℕ
  proc_u8 path s = or_64 (number_of (d.proc_file path s))

  abbrev pub own4 : S → ℕ
  own4 = proc_u8 (codes "/proc/sys/net/ipv4/ip_default_ttl")

  abbrev pub upstreams_of : List Text → Config → S → List Text
  upstreams_of [] c s = (d.discover c s).up
  upstreams_of (i ∷ is) c s = i ∷ is

  abbrev pub with_tap : Option ℕ → List ℕ → List ℕ
  with_tap none taps = taps
  with_tap (some tap) taps = tap ∷ taps

  unfoldable pub open_taps : List Text → S → List ℕ
  open_taps [] s = []
  open_taps (name ∷ names) s = with_tap (d.open_tap name s) (open_taps names s)

  abbrev pub before4 : Option Bool → S → Option Snapshot
  before4 none s = none
  before4 (some ip6) s = some (counters false s)

  abbrev pub before6 : Option Bool → S → Option Snapshot
  before6 fw s =
      if use_v6_rules fw (or_empty (d.state_file (codes "ipv6_mode") s))
      then some (counters true s)
      else none

  -- The hits between the snapshots, and whether a chain has changed.
  abbrev pub compared : Option Snapshot → Option Snapshot → S → Option ℕ × Bool
  compared none _ s = (none, false)
  compared (some (c4, r4)) none s =
      let (a4, ra4) = counters false s in (some (total_hits r4 ra4), differs a4 c4)
  compared (some (c4, r4)) (some (c6, r6)) s =
      let (a4, ra4) = counters false s in
      let (a6, ra6) = counters true s in
      (some ((total_hits r4 ra4 + total_hits r6 ra6) % 2 ^ 64), differs a4 c4 || differs a6 c6)

  abbrev pub taps_of : Options → Config → S → List ℕ
  taps_of o c s = open_taps (upstreams_of o.ifaces c s) s

  abbrev pub window_of : Options → Config → S → List Poll × S
  window_of o c s = d.window (taps_of o c s) o.seconds s

  unfoldable pub evidence : Options → Config → Option Bool → S → Evidence
  evidence o c fw s =
      let (polls, after) = window_of o c s in
      let (h4, h6) = sample (taps_of o c s) polls (empty_hist, empty_hist) in
      let (hits, chain_changed) = compared (before4 fw s) (before6 fw s) after in
      record {
        hits = hits;
        wire4 = h4.total;
        foreign4 = foreign h4 (c.ttl ∷ own4 s ∷ []);
        chain_changed = chain_changed;
      }

  abbrev pub measured : Options → Config → Option Bool → S → Result Failure ℕ
  measured o c fw s = ok (exit_code (judge (evidence o c fw s)).0)

  abbrev pub selected : Options → Config → Option Bool → S → Result Failure ℕ
  selected o c none s = err no_iptables
  selected o c (some ip6) s = measured o c (some ip6) s

  abbrev pub is_active : S → Bool
  is_active s = text_eq (or_empty (d.state_file (codes "phase") s)) (codes "active")

  abbrev pub checked : Options → Config → S → Result Failure ℕ
  checked o c s =
      if o.wire_only
      then measured o c none s
      else if not (is_active s)
      then ok exit_inconclusive
      else selected o c (d.select s) s

  abbrev pub configured : Options → Result ConfigError (Unit {0}) → S → Result Failure ℕ
  configured o (ok u) s = checked o (load (d.config_text s)) s
  configured o (err e) s = err (bad_config e)
  configured o panic s = panic
  configured o stuck s = stuck

  abbrev pub parsed : Result Error Options → S → Result Failure ℕ
  parsed (ok o) s = configured o (validate (d.config_text s)) s
  parsed (err e) s = err (bad_option e)
  parsed panic s = panic
  parsed stuck s = stuck

  -- The exit code.
  unfoldable pub run : List Text → S → Result Failure ℕ
  run args s = parsed (parse_options args) s
