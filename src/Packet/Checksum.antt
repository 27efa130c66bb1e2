-- ===== src/Packet/Checksum.antt =====
-- The one's complement sum of packet.rs, against the arithmetic of RFC 1071.
use nfqttl.Base.{
  ℕ, zero, suc, ◌+◌, ◌-◌, ◌*◌, ◌/◌, ◌%◌, ◌^◌, ◌≤◌, ◌<◌, ◌≡◌, refl, arith, if◌then◌else◌, ◌==◌,
  length, length-set, set, get_or, get_or-set_ne, get_or-set_self, ◌∙◌, ok, Error,
}
use nfqttl.Base.Words.{Bytes, IsBytes, be16, be16_at, be16_at-lt, read_be16-ok}
use nfqttl.Base.Order.{lt_wf}
use nfqttl.Packet.{fold_acc, fold, sum_words}
use mathlib.Core.WellFounded.{Acc}

-- The one's complement representative of `s` in 0 .. 65535: only 0 stands for 0.
abbrev pub ones_sum : ℕ → ℕ
ones_sum s = if s == 0 then 0 else (s - 1) % 65535 + 1

pub ones_sum-lt : (s : ℕ) → ones_sum s < 65536
ones_sum-lt s = ground arith

-- The sum of `n` big-endian words from `i` on, with no wrap.
pub header_sum : ℕ → ℕ → Bytes → ℕ
header_sum zero i p = 0
header_sum (suc n) i p = be16_at p i + header_sum n (i + 2) p

fold_acc-ones_sum : (s : ℕ) (w : Acc ◌<◌ s) → fold_acc s w ≡ ones_sum s
unfolding fold_acc
fold_acc-ones_sum s (Acc.intro _ smaller) = grind (
  arith,
  λ (h : s % 2 ^ 16 + s / 2 ^ 16 < s). fold_acc-ones_sum (s % 2 ^ 16 + s / 2 ^ 16) (smaller _ h),
)

pub fold-ones_sum : (s : ℕ) → fold s ≡ ones_sum s
unfolding fold
fold-ones_sum s = fold_acc-ones_sum s (lt_wf.apply s)

pub header_sum-le : (n i : ℕ) (p : Bytes) → IsBytes p → header_sum n i p ≤ n * 65535
unfolding header_sum
header_sum-le zero i p h = omega arith
header_sum-le (suc n) i p h = omega (arith, be16_at-lt p i h, header_sum-le n (i + 2) p h)

pub sum_words-header_sum :
    (n i : ℕ) (p : Bytes) (acc : ℕ)
    → i + 2 * n ≤ length p
    → acc + header_sum n i p < 2 ^ 32
    → sum_words n i p acc ≡ ok (acc + header_sum n i p)
unfolding sum_words header_sum
sum_words-header_sum zero i p acc h lt = ground arith
sum_words-header_sum (suc n) i p acc h lt = ground (
  arith,
  read_be16-ok {E = Error} p i,
  sum_words-header_sum n (i + 2) p ((acc + be16_at p i) % 2 ^ 32),
)

header_sum_step :
    (n i : ℕ) (p : Bytes) → 0 < n → header_sum n i p ≡ be16_at p i + header_sum (n - 1) (i + 2) p
unfolding header_sum
header_sum_step zero i p h = absurd (omega arith)
header_sum_step (suc n) i p h = ground arith

-- The first six words, up to the checksum field.
header_sum_front :
    (n : ℕ) (p : Bytes)
    → 6 ≤ n
    → header_sum n 0 p
      ≡ be16_at p 0
        + be16_at p 2
        + be16_at p 4
        + be16_at p 6
        + be16_at p 8
        + be16_at p 10
        + header_sum (n - 1 - 1 - 1 - 1 - 1 - 1) 12 p
header_sum_front n p h = omega (
  arith,
  header_sum_step n 0 p (omega arith),
  header_sum_step (n - 1) 2 p (omega arith),
  header_sum_step (n - 1 - 1) 4 p (omega arith),
  header_sum_step (n - 1 - 1 - 1) 6 p (omega arith),
  header_sum_step (n - 1 - 1 - 1 - 1) 8 p (omega arith),
  header_sum_step (n - 1 - 1 - 1 - 1 - 1) 10 p (omega arith),
)

-- A write before the summed words does not show.
header_sum-set_before :
    (n i j v : ℕ) (p : Bytes) → j < i → header_sum n i (set p j v) ≡ header_sum n i p
unfolding header_sum
header_sum-set_before zero i j v p h = refl
header_sum-set_before (suc n) i j v p h = omega (
  arith,
  get_or-set_ne p j i v 0 (omega arith),
  get_or-set_ne p j (i + 1) v 0 (omega arith),
  header_sum-set_before n (i + 2) j v p (omega arith),
)

-- The checksum field enters the sum as one word.
pub header_sum-set_checksum :
    (n a b : ℕ) (q : Bytes)
    → 6 ≤ n
    → 12 ≤ length q
    → be16_at q 10 ≡ 0
    → header_sum n 0 (set (set q 10 a) 11 b) ≡ header_sum n 0 q + be16 a b
header_sum-set_checksum n a b q h l z =
    let r = set (set q 10 a) 11 b in
    let same : (j : ℕ) → j < 10 → get_or r j 0 ≡ get_or q j 0 = λ j lt.
      get_or-set_ne (set q 10 a) 11 j b 0 (omega arith) ∙ get_or-set_ne q 10 j a 0 (omega arith) in
    let at10 : get_or r 10 0 ≡ a =
      get_or-set_ne (set q 10 a) 11 10 b 0 (omega arith) ∙ get_or-set_self q 10 a 0 (omega arith) in
    let at11 : get_or r 11 0 ≡ b =
      get_or-set_self (set q 10 a) 11 b 0 (omega (arith, length-set q 10 a)) in
    let k = n - 1 - 1 - 1 - 1 - 1 - 1 in
    omega (
      arith,
      header_sum_front n q h,
      header_sum_front n r h,
      header_sum-set_before k 12 11 b (set q 10 a) (omega arith),
      header_sum-set_before k 12 10 a q (omega arith),
      same 0 (omega arith),
      same 1 (omega arith),
      same 2 (omega arith),
      same 3 (omega arith),
      same 4 (omega arith),
      same 5 (omega arith),
      same 6 (omega arith),
      same 7 (omega arith),
      same 8 (omega arith),
      same 9 (omega arith),
      at10,
      at11,
    )

-- A header whose sum is not 0 verifies once the complement of its sum is added.
pub ones_sum-complement : (s : ℕ) → 0 < s → ones_sum (s + (65535 - ones_sum s)) ≡ 65535
ones_sum-complement s h = ground arith

pub header_sum-pos : (n : ℕ) (p : Bytes) → 6 ≤ n → 0 < get_or p 0 0 → 0 < header_sum n 0 p
header_sum-pos n p h v = omega (arith, header_sum_front n p h)
