-- ===== src/Verify/Examples.antt =====
-- The verdict on a window of traffic.
use nfqttl.Base.{
  ℕ, ◌≡◌, refl, arith, List, [], ◌∷◌, replicate, if◌then◌else◌, none, some, ok, false,
}
use nfqttl.Base.Text.{
  codes, lines_from, words_from, parse_uint, starts_with, trim, text_eq, bytes, every, some_of,
}
use nfqttl.Config.{valid_iface}
use nfqttl.Verify.{
  parse_row, RuleCount, Evidence, total_hits, parse_rows, active_chain_in, default_options,
  parse_options_from, parse_counters, active_chain, parse_options,
}
use nfqttl.Verify.Run.{Poll, interrupted, failed, ready, Device, open_taps, counters, run}
use nfqttl.Verify.Report.{IsReport, run-IsReport, ttls4, all_ttls4, seen_ttls4}
use nfqttl.Config.{load_line, load_lines, load}
use nfqttl.Config.Validate.{check_sqm, validate, check_line, check_lines}
use nfqttl.Verify.Judge.{IsVerdict, judge-IsVerdict}
use nfqttl.Verify.Histogram.{unknown}

abbrev leak : Evidence
leak = record { hits = some 500; wire4 = 1000; foreign4 = 60; chain_changed = false }

judge-IsVerdict_example : IsVerdict leak
judge-IsVerdict_example = judge-IsVerdict leak (omega arith)

abbrev earlier : List RuleCount
earlier =
    record { input = codes "ap0"; output = codes "rmnet0"; target = codes "TTL"; pkts = 7 } ∷ []

a_row :
    parse_counters (codes "     7  420 TTL all -- ap0 rmnet0 0.0.0.0/0 0.0.0.0/0 TTL set to 64")
    ≡ earlier
unfolding parse_rows lines_from parse_row words_from parse_uint
a_row = refl

a_chain : active_chain (codes "-A FORWARD -j nfqttl_a ") (codes "FORWARD") ≡ some (codes "nfqttl_a")
unfolding active_chain_in lines_from starts_with trim text_eq bytes
a_chain = refl

some_options :
    parse_options (codes "--seconds" ∷ codes "5" ∷ codes "--iface" ∷ codes "ap0" ∷ [])
    ≡ ok (record { seconds = 5; ifaces = codes "ap0" ∷ []; wire_only = false })
unfolding parse_options_from text_eq parse_uint valid_iface bytes every some_of
some_options = refl

-- A tethered client whose packets leave with a TTL of 63 past the rules.
abbrev packet : List ℕ
packet = 69 ∷ 0 ∷ 0 ∷ 20 ∷ 0 ∷ 0 ∷ 0 ∷ 0 ∷ 63 ∷ 17 ∷ replicate 10 0

abbrev device : Device (List Poll)
device = record {
  config_text = λ s. some (codes "# by default");
  state_file = λ name s. if text_eq name (codes "phase") then some (codes "active") else none;
  proc_file = λ path s. none;
  select = λ s. some false;
  out = λ v6 args s. [];
  discover = λ c s. record { down = []; up = codes "rmnet0" ∷ [] };
  open_tap = λ name s. some 3;
  window = λ taps seconds s. (s, []);
}

abbrev reported : List Poll
reported = interrupted ∷ ready ((replicate 2 (4, packet)) ∷ []) ∷ failed ∷ []

run-IsReport_example :
    IsReport (run device [] reported) (unknown (64 ∷ 64 ∷ []) (63 ∷ 63 ∷ [])) 2 (some 0)
unfolding parse_options_from lines_from trim text_eq validate load check_sqm some_of starts_with
    bytes check_lines check_line load_lines load_line unknown ttls4 all_ttls4 seen_ttls4 open_taps
    counters total_hits active_chain_in
run-IsReport_example =
    run-IsReport device [] default_options (some false) reported refl refl (refl, refl, refl)
      (omega arith, (omega arith, tt)) (omega arith)
