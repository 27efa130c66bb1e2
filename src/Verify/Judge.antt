-- ===== src/Verify/Judge.antt =====
-- The verdict of `judge`, as the exit status of `nfqttl verify`.
use nfqttl.Base.{ℕ, zero, suc, ◌*◌, ◌^◌, ◌≤◌, ◌<◌, ◌≡◌, refl, ◌↔◌, arith, Option, none, some}
use nfqttl.Verify.{Evidence, exit_code, judge}

-- At least 10 packets with a foreign TTL, more than a twentieth of those on the wire.
abbrev pub Leaks : Evidence → Type 0
Leaks e = (10 ≤ e.foreign4) × (e.wire4 < e.foreign4 * 20)

-- A rule counted a packet; without counters, 10 packets were sampled.
abbrev pub Seen : Option ℕ → ℕ → Type 0
Seen (some n) wire4 = 0 < n
Seen none wire4 = 10 ≤ wire4

pub record IsVerdict (e : Evidence) : Type 0 where
  pub fails : (exit_code (judge e).0 ≡ 3) ↔ Leaks e
  pub passes : (exit_code (judge e).0 ≡ 0) ↔ (¬ Leaks e × Seen e.hits e.wire4)
  pub else_inconclusive : ¬ Leaks e → ¬ Seen e.hits e.wire4 → exit_code (judge e).0 ≡ 2

-- As long as the count of foreign packets times 20 is a `u64`: the verdict is FAIL (3) exactly if
-- at least 10 packets, and more than a twentieth of those on the wire, left with a foreign TTL. It
-- is PASS (0) exactly if that is not so and a rule counted a packet, or, without counters, 10
-- packets were sampled. It is INCONCLUSIVE (2) in every other case.
pub judge-IsVerdict : (e : Evidence) → e.foreign4 * 20 < 2 ^ 64 → IsVerdict e
unfolding judge
judge-IsVerdict e h = judged e.hits refl
  where
    judged : (o : Option ℕ) → e.hits ≡ o → IsVerdict e
    judged none p = record {
      fails = ground (arith, p, h);
      passes = ground (arith, p, h);
      else_inconclusive = ground (arith, p, h);
    }
    judged (some zero) p = record {
      fails = ground (arith, p, h);
      passes = ground (arith, p, h);
      else_inconclusive = ground (arith, p, h);
    }
    judged (some (suc n)) p = record {
      fails = ground (arith, p, h);
      passes = ground (arith, p, h);
      else_inconclusive = ground (arith, p, h);
    }
