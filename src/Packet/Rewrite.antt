-- ===== src/Packet/Rewrite.antt =====
-- What `set_ipv4_ttl` does to a packet, on every branch.
use nfqttl.Base.{
  ℕ, ◌+◌, ◌-◌, ◌*◌, ◌/◌, ◌%◌, ◌≤◌, ◌<◌, ◌≡◌, ◌≢◌, ◌⊎◌, inl, inr, ap, ◌∙◌, true, false, arith,
  length, length-set, set, get_or, All-set, ok, Error, byte_at-ok, put_at-ok,
}
use nfqttl.Base.Words.{Bytes, IsByte, IsBytes, be16_at, read_be16-ok, get_or-IsByte}
use native.Mathlib.Nat.{zero-add}
use nfqttl.Packet.{fold, refresh, set_ipv4_ttl}
use nfqttl.Packet.Checksum.{
  ones_sum-lt, header_sum, header_sum-le, sum_words-header_sum, fold-ones_sum, ones_sum,
}

-- The header length field, in bytes.
abbrev pub ihl_of : Bytes → ℕ
ihl_of p = get_or p 0 0 % 16 * 4

-- A whole IPv4 packet: its header and its total length lie within the buffer.
pub record IsIpv4 (p : Bytes) : Type 0 where
  pub long : 20 ≤ length p
  pub version : get_or p 0 0 / 16 ≡ 4
  pub header_min : 20 ≤ ihl_of p
  pub header_max : ihl_of p ≤ length p
  pub total_min : ihl_of p ≤ be16_at p 2
  pub total_max : be16_at p 2 ≤ length p

-- The checksum of a header as a receiver computes it: 0 on a header that verifies.
abbrev pub checksum : Bytes → ℕ
checksum p = 65535 - ones_sum (header_sum (ihl_of p / 2) 0 p)

-- The packet with the new TTL and no checksum, and with the checksum of that.
abbrev pub blanked : Bytes → ℕ → Bytes
blanked p ttl = set (set (set p 8 ttl) 10 0) 11 0

abbrev pub rewritten : Bytes → ℕ → Bytes
rewritten p ttl =
    let c = 65535 - ones_sum (header_sum (ihl_of p / 2) 0 (blanked p ttl)) in
    set (set (blanked p ttl) 10 (c / 256)) 11 (c % 256)

pub blanked-IsBytes : (p : Bytes) (ttl : ℕ) → IsBytes p → ttl < 256 → IsBytes (blanked p ttl)
blanked-IsBytes p ttl h t =
    All-set IsByte _ 11 0 (All-set IsByte _ 10 0 (All-set IsByte p 8 ttl h t) (omega arith))
      (omega arith)

pub length-blanked : (p : Bytes) (ttl : ℕ) → length (blanked p ttl) ≡ length p
length-blanked p ttl = length-set _ 11 0 ∙ length-set _ 10 0 ∙ length-set p 8 ttl

-- `!(sum as u16)` of the folded sum.
checksum_fold : (s : ℕ) → 65535 - fold (0 + s) % 65536 ≡ 65535 - ones_sum s
checksum_fold s = omega (arith, fold-ones_sum (0 + s), ap ones_sum (zero-add s), ones_sum-lt s)

refresh-ok :
    (p : Bytes) (ttl : ℕ)
    → IsBytes p
    → ttl < 256
    → IsIpv4 p
    → refresh p (ihl_of p) ttl ≡ ok (true, rewritten p ttl)
unfolding refresh
refresh-ok p ttl h t v =
    let n = ihl_of p / 2 in
    let q = blanked p ttl in
    let halves : (ihl_of p + 1) / 2 ≡ n = omega arith in
    let small = header_sum-le n 0 q (blanked-IsBytes p ttl h t) in
    let few : n ≤ 30 = omega (arith, get_or-IsByte p 0 h) in
    let summed =
      sum_words-header_sum n 0 q 0 (omega (arith, length-blanked p ttl, v.header_max))
        (omega arith) in
    let c = 65535 - ones_sum (header_sum n 0 q) in
    let in8 = put_at-ok {E = Error} p 8 ttl (omega (arith, v.long)) in
    let in10 =
      put_at-ok {E = Error} (set p 8 ttl) 10 0 (omega (arith, v.long, length-set p 8 ttl)) in
    let in11 =
      put_at-ok {E = Error} (set (set p 8 ttl) 10 0) 11 0
        (omega (arith, v.long, length-set p 8 ttl, length-set (set p 8 ttl) 10 0)) in
    let csum = checksum_fold (header_sum n 0 q) in
    let out10 =
      put_at-ok {E = Error} q 10 (c / 256) (omega (arith, v.long, length-blanked p ttl)) in
    let out11 =
      put_at-ok {E = Error} (set q 10 (c / 256)) 11 (c % 256)
        (omega (arith, v.long, length-blanked p ttl, length-set q 10 (c / 256))) in
    rw (in8, in10, in11, halves, summed, csum, out10) (rw out11)

-- When the packet is rewritten: it is whole, and the TTL asked for is not 0 nor there already.
pub record ShouldRewrite (p : Bytes) (ttl : ℕ) : Type 0 where
  pub whole : IsIpv4 p
  pub positive : ttl ≢ 0
  pub differs : get_or p 8 0 ≢ ttl

pub set_ipv4_ttl-rewrites :
    (p : Bytes) (ttl : ℕ)
    → IsBytes p
    → ttl < 256
    → ShouldRewrite p ttl
    → set_ipv4_ttl p ttl ≡ ok (true, rewritten p ttl)
unfolding set_ipv4_ttl
set_ipv4_ttl-rewrites p ttl h t s = ground (
  arith,
  s.whole,
  byte_at-ok {E = Error} p 0,
  byte_at-ok {E = Error} p 8,
  read_be16-ok {E = Error} p 2,
  refresh-ok p ttl h t s.whole,
)

keeps_or_should : (p : Bytes) (ttl : ℕ) → (set_ipv4_ttl p ttl ≡ ok (false, p)) ⊎ ShouldRewrite p ttl
unfolding set_ipv4_ttl
keeps_or_should p ttl =
    ground
      (arith, byte_at-ok {E = Error} p 0, byte_at-ok {E = Error} p 8, read_be16-ok {E = Error} p 2)

-- On every byte string and TTL the function ends without a panic or an error: a packet that should
-- be rewritten is returned rewritten with `true`, any other is returned as it was with `false`.
pub set_ipv4_ttl_cases :
    (p : Bytes) (ttl : ℕ)
    → IsBytes p
    → ttl < 256
    → (ShouldRewrite p ttl × (set_ipv4_ttl p ttl ≡ ok (true, rewritten p ttl)))
      ⊎ ((ShouldRewrite p ttl → ⊥) × (set_ipv4_ttl p ttl ≡ ok (false, p)))
set_ipv4_ttl_cases p ttl h t = elim (keeps_or_should p ttl) [
  | inl e ↦ inr ((λ s. cc (e, set_ipv4_ttl-rewrites p ttl h t s)), e)
  | inr s ↦ inl (s, set_ipv4_ttl-rewrites p ttl h t s)
]
