-- ===== src/Verify/Report.antt =====
-- The exit code of `nfqttl verify`, by the packets that were seen in the window.
use nfqttl.Base.{
  ℕ, zero, suc, ◌*◌, ◌^◌, ◌≤◌, ◌<◌, ◌≡◌, refl, sym, ap, ◌∙◌, ◌↔◌, arith, Bool, true, false, ◌&&◌,
  leb, ◌==◌, ◌/◌, if◌then◌else◌, ◌⊎◌, inl, inr, List, [], ◌∷◌, ◌++◌, length, get_or, All, Option,
  none, some, Result, ok,
}
use nfqttl.Base.Words.{Bytes}
use nfqttl.Base.Text.{Text}
use nfqttl.Config.{load}
use nfqttl.Config.Validate.{validate}
use nfqttl.Verify.{
  Hist, empty_hist, foreign, Outcome, pass, inconclusive, fail, observe, drain_rounds, Options,
  parse_options, Evidence, judge, exit_code,
}
use nfqttl.Verify.Judge.{Seen, judge-IsVerdict}
use nfqttl.Verify.Histogram.{add_all, unknown, foreign-add_all}
use nfqttl.Verify.Run.{
  Poll, interrupted, failed, ready, drain_all, sample_rounds, sample, Device, Failure, own4,
  before4, before6, compared, taps_of, window_of, evidence, measured, is_active, run,
}

-- The TTL of a packet that goes out over IPv4 with a whole header.
abbrev pub ttl4 : ℕ × Bytes → List ℕ
ttl4 (pkttype, p) =
    if pkttype == 4 && (get_or p 0 0 / 16 == 4 && leb 20 (length p)) then get_or p 8 0 ∷ [] else []

-- Of the packets that wait at a socket, the first `n`, up to an empty one.
unfoldable pub ttls4 : ℕ → List (ℕ × Bytes) → List ℕ
ttls4 zero ps = []
ttls4 (suc n) [] = []
ttls4 (suc n) ((pkttype, []) ∷ ps) = []
ttls4 (suc n) ((pkttype, x ∷ p) ∷ ps) = ttl4 (pkttype, x ∷ p) ++ ttls4 n ps

unfoldable pub all_ttls4 : List (List (ℕ × Bytes)) → List ℕ
all_ttls4 [] = []
all_ttls4 (q ∷ qs) = ttls4 4096 q ++ all_ttls4 qs

-- Of all that `poll` reports, up to an error that is not a signal.
unfoldable pub seen_ttls4 : List Poll → List ℕ
seen_ttls4 [] = []
seen_ttls4 (interrupted ∷ ps) = seen_ttls4 ps
seen_ttls4 (failed ∷ ps) = []
seen_ttls4 (ready qs ∷ ps) = all_ttls4 qs ++ seen_ttls4 ps

abbrev pub sampled_ttls4 : List ℕ → List Poll → List ℕ
sampled_ttls4 [] ps = []
sampled_ttls4 (tap ∷ taps) ps = seen_ttls4 ps

add_all-append : (us vs : List ℕ) (h : Hist) → add_all vs (add_all us h) ≡ add_all (us ++ vs) h
unfolding add_all
add_all-append [] vs h = refl
add_all-append (u ∷ us) vs h = add_all-append us vs _

if-observe-ttl4 :
    (pkttype x : ℕ) (p : Bytes) (h4 h6 : Hist)
    → (if pkttype == 4 then observe (x ∷ p) (h4, h6) else (h4, h6)).0
      ≡ add_all (ttl4 (pkttype, x ∷ p)) h4
unfolding observe add_all
if-observe-ttl4 pkttype x p h4 h6 = ground arith

drain_rounds-ttls4 :
    (n : ℕ) (ps : List (ℕ × Bytes)) (h4 h6 : Hist)
    → (drain_rounds n ps (h4, h6)).0 ≡ add_all (ttls4 n ps) h4
unfolding drain_rounds ttls4 add_all
drain_rounds-ttls4 zero ps h4 h6 = refl
drain_rounds-ttls4 (suc n) [] h4 h6 = refl
drain_rounds-ttls4 (suc n) ((pkttype, []) ∷ ps) h4 h6 = refl
drain_rounds-ttls4 (suc n) ((pkttype, x ∷ p) ∷ ps) h4 h6 =
    let h = if pkttype == 4 then observe (x ∷ p) (h4, h6) else (h4, h6) in
    drain_rounds-ttls4 n ps h.0 h.1
    ∙ ap (add_all (ttls4 n ps)) (if-observe-ttl4 pkttype x p h4 h6)
    ∙ add_all-append (ttl4 (pkttype, x ∷ p)) (ttls4 n ps) h4

drain_all-all_ttls4 :
    (qs : List (List (ℕ × Bytes))) (h : Hist × Hist)
    → (drain_all qs h).0 ≡ add_all (all_ttls4 qs) h.0
unfolding drain_all all_ttls4 add_all
drain_all-all_ttls4 [] h = refl
drain_all-all_ttls4 (q ∷ qs) h =
    drain_all-all_ttls4 qs _
    ∙ ap (add_all (all_ttls4 qs)) (drain_rounds-ttls4 4096 q h.0 h.1)
    ∙ add_all-append (ttls4 4096 q) (all_ttls4 qs) h.0

sample_rounds-seen_ttls4 :
    (ps : List Poll) (h : Hist × Hist) → (sample_rounds ps h).0 ≡ add_all (seen_ttls4 ps) h.0
unfolding sample_rounds seen_ttls4 add_all
sample_rounds-seen_ttls4 [] h = refl
sample_rounds-seen_ttls4 (interrupted ∷ ps) h = sample_rounds-seen_ttls4 ps h
sample_rounds-seen_ttls4 (failed ∷ ps) h = refl
sample_rounds-seen_ttls4 (ready qs ∷ ps) h =
    sample_rounds-seen_ttls4 ps _
    ∙ ap (add_all (seen_ttls4 ps)) (drain_all-all_ttls4 qs h)
    ∙ add_all-append (all_ttls4 qs) (seen_ttls4 ps) h.0

sample-sampled_ttls4 :
    (taps : List ℕ) (ps : List Poll)
    → (sample taps ps (empty_hist, empty_hist)).0 ≡ add_all (sampled_ttls4 taps ps) empty_hist
unfolding add_all
sample-sampled_ttls4 [] ps = refl
sample-sampled_ttls4 (tap ∷ taps) ps = sample_rounds-seen_ttls4 ps (empty_hist, empty_hist)

unknown-length : (known vs : List ℕ) → unknown known vs ≤ length vs
unfolding unknown
unknown-length known [] = omega arith
unknown-length known (v ∷ vs) = ground (arith, unknown-length known vs)

-- The exit code is FAIL (3), PASS (0) or INCONCLUSIVE (2), for `unknown` packets of `wire`.
pub record IsReport (r : Result Failure ℕ) (unknown wire : ℕ) (hits : Option ℕ) : Type 0 where
  pub fails : (r ≡ ok 3) ↔ ((10 ≤ unknown) × (wire < unknown * 20))
  pub passes : (r ≡ ok 0) ↔ (¬ ((10 ≤ unknown) × (wire < unknown * 20)) × Seen hits wire)
  pub returns : (r ≡ ok 0) ⊎ ((r ≡ ok 2) ⊎ (r ≡ ok 3))

exit_code-cases : (o : Outcome) → (exit_code o ≡ 0) ⊎ ((exit_code o ≡ 2) ⊎ (exit_code o ≡ 3))
exit_code-cases pass = inl refl
exit_code-cases inconclusive = inr (inl refl)
exit_code-cases fail = inr (inr refl)

ok_code : (r : Result Failure ℕ) (m n : ℕ) → r ≡ ok m → (r ≡ ok n) ↔ (m ≡ n)
ok_code r m n h = (λ e. ground arith, λ e. h ∙ ap ok e)

judged-IsReport :
    (r : Result Failure ℕ) (e : Evidence)
    → r ≡ ok (exit_code (judge e).0)
    → e.foreign4 * 20 < 2 ^ 64
    → IsReport r e.foreign4 e.wire4 e.hits
judged-IsReport r e h few =
    let verdict = judge-IsVerdict e few in
    let code = λ (n : ℕ). ok_code r (exit_code (judge e).0) n h in
    record {
      fails = (λ x. verdict.fails.0 ((code 3).0 x), λ x. (code 3).1 (verdict.fails.1 x));
      passes = (λ x. verdict.passes.0 ((code 0).0 x), λ x. (code 0).1 (verdict.passes.1 x));
      returns = elim (exit_code-cases (judge e).0) [
        | inl c ↦ inl ((code 0).1 c)
        | inr (inl c) ↦ inr (inl ((code 2).1 c))
        | inr (inr c) ↦ inr (inr ((code 3).1 c))
      ];
    }

module _ {S : Type 0} (d : Device S) where
  -- With `--wire-only` no tool is used, else it is there and the rules are active.
  abbrev pub IsWatched : Options → Option Bool → S → Type 0
  IsWatched o none s = o.wire_only ≡ true
  IsWatched o (some ip6) s =
      (o.wire_only ≡ false) × (is_active d s ≡ true) × (d.select s ≡ some ip6)

  run-measured :
      (args : List Text) (o : Options) (fw : Option Bool) (s : S)
      → parse_options args ≡ ok o
      → validate (d.config_text s) ≡ ok tt
      → IsWatched o fw s
      → run d args s ≡ measured d o (load (d.config_text s)) fw s
  unfolding run
  run-measured args o none s p v w = rw (p, v, w) refl
  run-measured args o (some ip6) s p v (w, a, f) = rw (p, v, w, a, f) refl

  abbrev pub after : Options → S → S
  after o s = (window_of d o (load (d.config_text s)) s).1

  abbrev pub hits_of : Options → Option Bool → S → Option ℕ
  hits_of o fw s = (compared d (before4 d fw s) (before6 d fw s) (after o s)).0

  abbrev pub ttls_of : Options → S → List ℕ
  ttls_of o s =
      let c = load (d.config_text s) in sampled_ttls4 (taps_of d o c s) (window_of d o c s).0

  abbrev pub known_of : S → List ℕ
  known_of s = (load (d.config_text s)).ttl ∷ own4 d s ∷ []

  evidence-ttls_of :
      (o : Options) (fw : Option Bool) (s : S)
      → All (λ v. v < 256) (ttls_of o s)
      → let e = evidence d o (load (d.config_text s)) fw s in
        (e.foreign4 ≡ unknown (known_of s) (ttls_of o s)) × (e.wire4 ≡ length (ttls_of o s))
  unfolding evidence
  evidence-ttls_of o fw s b =
      let c = load (d.config_text s) in
      let h = sample-sampled_ttls4 (taps_of d o c s) (window_of d o c s).0 in
      let (foreign_is, total_is) = foreign-add_all (known_of s) (ttls_of o s) b in
      (ap (λ h. foreign h (known_of s)) h ∙ foreign_is, ap (λ h. h.total) h ∙ total_is)

  evidence-hits_of :
      (o : Options) (fw : Option Bool) (s : S)
      → (evidence d o (load (d.config_text s)) fw s).hits ≡ hits_of o fw s
  unfolding evidence
  evidence-hits_of o fw s = refl

  -- For arguments and a configuration that are accepted, where the tool is there and the phase is
  -- "active" (or `--wire-only` is given, and no rules are looked at), and for bytes, fewer than
  -- 2^64 / 20: `run` returns FAIL (3) exactly if, of the outgoing IPv4 packets that were read in the
  -- window, at least 10, and more than a twentieth, had a TTL that is neither the configured one nor
  -- the phone's own; PASS (0) exactly if that is not so and the rules counted a packet between the
  -- snapshots (without rules: 10 packets were read); and INCONCLUSIVE (2) otherwise.
  pub run-IsReport :
      (args : List Text) (o : Options) (fw : Option Bool) (s : S)
      → parse_options args ≡ ok o
      → validate (d.config_text s) ≡ ok tt
      → IsWatched o fw s
      → All (λ v. v < 256) (ttls_of o s)
      → length (ttls_of o s) * 20 < 2 ^ 64
      → IsReport
          (run d args s)
          (unknown (known_of s) (ttls_of o s))
          (length (ttls_of o s))
          (hits_of o fw s)
  run-IsReport args o fw s p v w b few =
      let e = evidence d o (load (d.config_text s)) fw s in
      let (foreign_is, wire_is) = evidence-ttls_of o fw s b in
      let less = unknown-length (known_of s) (ttls_of o s) in
      let told = judged-IsReport (run d args s) e (run-measured args o fw s p v w) (omega arith) in
      rw (sym foreign_is, sym wire_is, sym (evidence-hits_of o fw s)) told

  -- Where the phase is not "active", and rules are to be looked at, nothing can be concluded.
  pub run-inactive :
      (args : List Text) (o : Options) (s : S)
      → parse_options args ≡ ok o
      → validate (d.config_text s) ≡ ok tt
      → o.wire_only ≡ false
      → is_active d s ≡ false
      → run d args s ≡ ok 2
  unfolding run
  run-inactive args o s p v w a = rw (p, v, w, a) refl
