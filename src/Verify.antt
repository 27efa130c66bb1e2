-- ===== src/Verify.antt =====
-- src/verify.rs: the evidence of `nfqttl verify`, and the verdict on it.
pub mod Judge
pub mod Histogram
pub mod Hits
pub mod Run
pub mod Report
mod Examples
use nfqttl.Base.{
  ℕ, zero, suc, ◌+◌, ◌-◌, ◌*◌, ◌/◌, ◌%◌, ◌^◌, Bool, true, false, ◌&&◌, ◌||◌, not, leb, ltb, ◌==◌,
  in_range, if◌then◌else◌, List, [], ◌∷◌, ◌++◌, length, get_or, set, drop, replicate, Option, none,
  some, Result, ok, err, ◌>>=◌, Error, invalid_input,
}
use nfqttl.Base.Words.{Bytes}
use nfqttl.Base.Text.{
  Text, codes, text_eq, len, some_of, has_text, trim, split_whitespace, lines, starts_with,
  parse_uint,
}
use nfqttl.Config.{valid_iface}
use Prim.Native.String.{String}

abbrev pub exit_pass : ℕ
exit_pass = 0

abbrev pub exit_inconclusive : ℕ
exit_inconclusive = 2

abbrev pub exit_fail : ℕ
exit_fail = 3

abbrev pub default_seconds : ℕ
default_seconds = 8

abbrev pub leak_min_packets : ℕ
leak_min_packets = 10

abbrev pub leak_ratio_div : ℕ
leak_ratio_div = 20

abbrev pub wire_only_min_packets : ℕ
wire_only_min_packets = 10

pub record RuleCount : Type 0 where
  pub input : Text
  pub output : Text
  pub target : Text
  pub pkts : ℕ

-- A row of the counters: nine words, of which the first two are numbers.
unfoldable pub parse_row : List Text → Option RuleCount
parse_row (pkts ∷ bytes ∷ target ∷ prot ∷ opt ∷ input ∷ output ∷ source ∷ destination ∷ more) =
    elim (parse_uint (2 ^ 64) pkts) [
      | none ↦ none
      | some n ↦ elim (parse_uint (2 ^ 64) bytes) [
        | none ↦ none
        | some b ↦ some (record { input = input; output = output; target = target; pkts = n })
      ]
    ]
parse_row _ = none

unfoldable pub parse_rows : List Text → List RuleCount
parse_rows [] = []
parse_rows (l ∷ ls) = elim (parse_row (split_whitespace l)) [
  | none ↦ parse_rows ls
  | some r ↦ r ∷ parse_rows ls
]

abbrev pub parse_counters : Text → List RuleCount
parse_counters text = parse_rows (lines text)

-- The chain behind `-A <hook> -j `: the first rule of that form, unless it names nothing.
unfoldable pub active_chain_in : List Text → Text → Option Text
active_chain_in [] prefix = none
active_chain_in (l ∷ ls) prefix =
    let rest = active_chain_in ls prefix in
    let name = trim (drop (length prefix) l) in
    if starts_with prefix l then (if len name == 0 then none else some name) else rest

abbrev pub active_chain : Text → Text → Option Text
active_chain rules hook = active_chain_in (lines rules) (codes "-A " ++ (hook ++ codes " -j "))

abbrev pub same_rule : RuleCount → RuleCount → Bool
same_rule a b = text_eq b.input a.input && (text_eq b.output a.output && text_eq b.target a.target)

-- The packets of the rule in the earlier snapshot, 0 if it is not there.
unfoldable pub pkts_before : List RuleCount → RuleCount → ℕ
pkts_before [] a = 0
pkts_before (b ∷ bs) a = if same_rule a b then b.pkts else pkts_before bs a

unfoldable pub total_hits : List RuleCount → List RuleCount → ℕ
unfolding pkts_before
total_hits before [] = 0
total_hits before (a ∷ after) = ((a.pkts - pkts_before before a) + total_hits before after) % 2 ^ 64

pub record Hist : Type 0 where
  pub counts : List ℕ
  pub total : ℕ

abbrev pub empty_hist : Hist
empty_hist = record { counts = replicate 256 0; total = 0 }

unfoldable pub add : Hist → ℕ → Hist
add h v = record { counts = set h.counts v (get_or h.counts v 0 + 1); total = h.total + 1 }

unfoldable pub contains : List ℕ → ℕ → Bool
contains known v = some_of (λ x. x == v) known

-- The values from `v` on that are not in `known`.
unfoldable pub foreign_from : List ℕ → ℕ → List ℕ → ℕ
foreign_from known v [] = 0
foreign_from known v (c ∷ cs) = (if contains known v then 0 else c) + foreign_from known (v + 1) cs

abbrev pub foreign : Hist → List ℕ → ℕ
foreign h known = foreign_from known 0 h.counts

-- The IPv4 TTL or the IPv6 hop limit of a packet goes into its histogram.
unfoldable pub observe : Bytes → Hist × Hist → Hist × Hist
observe [] (h4, h6) = (h4, h6)
observe (first ∷ rest) (h4, h6) =
    let pkt = first ∷ rest in
    if first / 16 == 4 && leb 20 (length pkt)
    then (add h4 (get_or pkt 8 0), h6)
    else if first / 16 == 6 && leb 40 (length pkt)
    then (h4, add h6 (get_or pkt 7 0))
    else (h4, h6)

abbrev pub packet_outgoing : ℕ
packet_outgoing = 4

-- The rounds of `drain` on the packets that are queued, each with its type and cut to 128 bytes by
-- the kernel: an empty one ends the loop, the outgoing ones count.
unfoldable pub drain_rounds : ℕ → List (ℕ × Bytes) → Hist × Hist → Hist × Hist
unfolding observe
drain_rounds zero ps h = h
drain_rounds (suc n) [] h = h
drain_rounds (suc n) ((pkttype, []) ∷ ps) h = h
drain_rounds (suc n) ((pkttype, first ∷ rest) ∷ ps) h =
    drain_rounds n ps (if pkttype == packet_outgoing then observe (first ∷ rest) h else h)

abbrev pub drain : List (ℕ × Bytes) → Hist × Hist → Hist × Hist
drain = drain_rounds 4096

pub data Outcome : Type 0 where
  pass inconclusive fail : Outcome

abbrev pub exit_code : Outcome → ℕ
exit_code pass = exit_pass
exit_code inconclusive = exit_inconclusive
exit_code fail = exit_fail

-- `Outcome::name`
abbrev pub outcome_name : Outcome → String
outcome_name pass = "PASS"
outcome_name inconclusive = "INCONCLUSIVE"
outcome_name fail = "FAIL"

pub record Evidence : Type 0 where
  pub hits : Option ℕ
  pub wire4 : ℕ
  pub foreign4 : ℕ
  pub chain_changed : Bool

-- The product is of type `u64`.
abbrev pub is_leak : Evidence → Bool
is_leak e = leb leak_min_packets e.foreign4 && ltb e.wire4 (e.foreign4 * leak_ratio_div % 2 ^ 64)

abbrev pub judge_hits : Bool → Bool → ℕ → Outcome × String
judge_hits true changed zero = (
  fail,
  "packets leave with a foreign TTL while no rule matched: tethered traffic bypasses netfilter (hardware/BPF offload?). Restart the hotspot after offload is disabled",
)
judge_hits true changed (suc n) = (
  fail,
  "a share of packets leaves with a foreign TTL: an interface pair is not covered, or another rule/offload path bypasses the hook",
)
judge_hits false changed (suc n) =
    (pass, "tethered packets traverse the FORWARD hook and match the TTL/HL rule")
judge_hits false true zero =
    (inconclusive, "rules were reinstalled during the window: run verify again")
judge_hits false false zero = (
  inconclusive,
  "no forwarded packets matched: generate traffic from a hotspot client (a download) and run verify again",
)

abbrev pub judge_wire : Bool → ℕ → Outcome × String
judge_wire true wire4 = (
  fail,
  "a share of packets leaves with a foreign TTL: an interface pair is not covered, or another rule/offload path bypasses the hook",
)
judge_wire false wire4 =
    if leb wire_only_min_packets wire4
    then (
      pass,
      "sampled egress TTL is as configured (wire-only evidence: tethered and local packets cannot be told apart)",
    )
    else (
      inconclusive, "too few packets sampled on the wire: generate traffic and run verify again",
    )

-- The arms of the `match` on `hits`, with and without a leak.
unfoldable pub judge : Evidence → Outcome × String
judge e = elim e.hits [
  | none ↦ judge_wire (is_leak e) e.wire4
  | some n ↦ judge_hits (is_leak e) e.chain_changed n
]

pub record Options : Type 0 where
  pub seconds : ℕ
  pub ifaces : List Text
  pub wire_only : Bool

abbrev pub default_options : Options
default_options = record { seconds = default_seconds; ifaces = []; wire_only = false }

abbrev pub seconds_of : Text → Result Error ℕ
seconds_of s = elim (parse_uint (2 ^ 64) s) [
  | none ↦ err (invalid_input "--seconds expects a value from 2 to 60")
  | some n ↦
      if in_range 2 60 n then ok n else err (invalid_input "--seconds expects a value from 2 to 60")
]

abbrev pub iface_of : Text → Result Error Text
iface_of s =
    if valid_iface s then ok s else err (invalid_input "--iface expects a valid interface name")

abbrev pub add_iface : Options → Text → Options
add_iface o name =
    if has_text o.ifaces name then o else record o { ifaces = o.ifaces ++ (name ∷ []) }

-- The arguments that are left, `i` and `i + 1` being the first two.
unfoldable pub parse_options_from : Options → List Text → Result Error Options
parse_options_from o [] = ok o
parse_options_from o (a ∷ []) =
    if text_eq a (codes "--module-dir")
    then ok o
    else if text_eq a (codes "--seconds")
    then err (invalid_input "--seconds expects a value from 2 to 60")
    else if text_eq a (codes "--iface")
    then err (invalid_input "--iface expects a valid interface name")
    else if text_eq a (codes "--wire-only")
    then ok (record o { wire_only = true })
    else err (invalid_input "unknown verify option")
parse_options_from o (a ∷ b ∷ args) =
    let skip = parse_options_from o args in
    let timed = (do n ← seconds_of b; parse_options_from (record o { seconds = n }) args) in
    let named = (do name ← iface_of b; parse_options_from (add_iface o name) args) in
    let wired = parse_options_from (record o { wire_only = true }) (b ∷ args) in
    if text_eq a (codes "--module-dir")
    then skip
    else if text_eq a (codes "--seconds")
    then timed
    else if text_eq a (codes "--iface")
    then named
    else if text_eq a (codes "--wire-only")
    then wired
    else err (invalid_input "unknown verify option")

abbrev pub parse_options : List Text → Result Error Options
parse_options = parse_options_from default_options
