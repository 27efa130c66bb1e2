-- ===== src/Packet.antt =====
-- src/packet.rs: the rewriting of an IPv4 packet's TTL, with a fresh header checksum.
pub mod Checksum
pub mod Rewrite
pub mod Frame
mod Examples
use nfqttl.Base.{
  ℕ, zero, suc, ◌+◌, ◌-◌, ◌*◌, ◌/◌, ◌%◌, ◌^◌, ◌<◌, Bool, true, false, ◌||◌, not, ltb, ◌==◌,
  if◌then◌else◌, length, Result, ok, ◌>>=◌, Error, byte_at, put_at, arith,
}
use nfqttl.Base.Words.{Bytes, read_be16}
use nfqttl.Base.Order.{lt_wf}
use mathlib.Core.Logic.{dite}
use mathlib.Core.WellFounded.{Acc}
use native.Mathlib.Decide.{dec_lt}

pub fold_shrinks : (s : ℕ) → 0 < s / 2 ^ 16 → s % 2 ^ 16 + s / 2 ^ 16 < s
fold_shrinks s h = omega arith

-- `while sum >> 16 != 0 { sum = (sum & 0xffff) + (sum >> 16); }`
fold_acc : (s : ℕ) → Acc ◌<◌ s → ℕ
fold_acc s (Acc.intro _ smaller) =
    dite (dec_lt 0 (s / 2 ^ 16))
      (λ more. fold_acc (s % 2 ^ 16 + s / 2 ^ 16) (smaller _ (fold_shrinks s more))) (λ _. s)

unfoldable pub fold : ℕ → ℕ
unfolding fold_acc lt_wf dec_lt
fold s = fold_acc s (lt_wf.apply s)

-- `for i in (0..ihl).step_by(2) { sum += ... as u32; }`, with the rounds that are left.
unfoldable pub sum_words : ℕ → ℕ → Bytes → ℕ → Result Error ℕ
sum_words zero i p sum = ok sum
sum_words (suc n) i p sum = do w ← read_be16 p i; sum_words n (i + 2) p ((sum + w) % 2 ^ 32)

-- The writes, from `packet[8] = ttl` on.
unfoldable pub refresh : Bytes → ℕ → ℕ → Result Error (Bool × Bytes)
refresh packet ihl ttl = do
  packet ← put_at packet 8 ttl
  packet ← put_at packet 10 0
  packet ← put_at packet 11 0
  sum ← sum_words ((ihl + 1) / 2) 0 packet 0
  let csum = 2 ^ 16 - 1 - fold sum % 2 ^ 16
  packet ← put_at packet 10 (csum / 256)
  packet ← put_at packet 11 (csum % 256)
  ok (true, packet)

-- The answer is whether the packet was changed, with the packet.
unfoldable pub set_ipv4_ttl : Bytes → ℕ → Result Error (Bool × Bytes)
set_ipv4_ttl packet ttl = if ltb (length packet) 20 then ok (false, packet) else do
  first ← byte_at packet 0
  let ihl = first % 16 * 4
  if not (first / 16 == 4) || ttl == 0 then ok (false, packet) else do
    total ← read_be16 packet 2
    if ltb ihl 20 || ltb (length packet) ihl || ltb total ihl || ltb (length packet) total
        then ok (false, packet)
        else do
          old ← byte_at packet 8
          if old == ttl then ok (false, packet) else refresh packet ihl ttl
