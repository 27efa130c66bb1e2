-- ===== src/Verify/Hits.antt =====
-- The packets that the rules counted between two snapshots.
use nfqttl.Base.{ℕ, ◌+◌, ◌-◌, ◌%◌, ◌^◌, ◌≤◌, ◌<◌, ◌≡◌, refl, ◌↔◌, arith, List, [], ◌∷◌, All}
use nfqttl.Verify.{RuleCount, pkts_before, total_hits}

-- The sum of the increases, without a bound.
unfoldable pub increases : List RuleCount → List RuleCount → ℕ
increases before [] = 0
increases before (a ∷ after) = (a.pkts - pkts_before before a) + increases before after

-- The hits are that sum as a `u64`.
pub total_hits-increases :
    (before after : List RuleCount) → total_hits before after ≡ increases before after % 2 ^ 64
unfolding total_hits increases
total_hits-increases before [] = refl
total_hits-increases before (a ∷ after) = omega (arith, total_hits-increases before after)

increases_zero :
    (before after : List RuleCount)
    → (increases before after ≡ 0) ↔ All (λ a. a.pkts ≤ pkts_before before a) after
unfolding increases
increases_zero before [] = (λ _. tt, λ _. refl)
increases_zero before (a ∷ after) =
    let (zero_all, all_zero) = increases_zero before after in
    (λ e. (omega arith, zero_all (omega arith)), λ h. omega (arith, all_zero h.1, h.0))

-- Where the sum fits a `u64`, no hits are found exactly if no rule of the later snapshot counts more
-- packets than the first rule with its interfaces and target in the earlier one (0 if there is none).
pub total_hits_zero :
    (before after : List RuleCount)
    → increases before after < 2 ^ 64
    → (total_hits before after ≡ 0) ↔ All (λ a. a.pkts ≤ pkts_before before a) after
total_hits_zero before after few =
    let (zero_all, all_zero) = increases_zero before after in
    (
      λ e. zero_all (omega (arith, total_hits-increases before after)),
      λ h. omega (arith, total_hits-increases before after, all_zero h),
    )
