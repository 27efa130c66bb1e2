-- ===== src/Packet/Frame.antt =====
-- What a rewritten packet is: the same bytes but for the TTL and the checksum, which verifies.
use nfqttl.Base.{
  ℕ, ◌-◌, ◌/◌, ◌%◌, ◌≤◌, ◌<◌, ◌≡◌, ◌≢◌, ◌∙◌, inl, inr, true, false, arith, length, length-set, set,
  get_or, get_or-set_ne, get_or-set_self, All-set, ok,
}
use nfqttl.Base.Words.{Bytes, IsByte, IsBytes, be16, be16_at}
use nfqttl.Packet.{set_ipv4_ttl}
use nfqttl.Packet.Checksum.{
  header_sum, header_sum-set_checksum, header_sum-pos, ones_sum, ones_sum-complement,
}
use nfqttl.Packet.Rewrite.{
  ihl_of, IsIpv4, checksum, blanked, blanked-IsBytes, length-blanked, rewritten, set_ipv4_ttl_cases,
}

pub length-rewritten : (p : Bytes) (ttl : ℕ) → length (rewritten p ttl) ≡ length p
length-rewritten p ttl = length-set _ 11 _ ∙ length-set _ 10 _ ∙ length-blanked p ttl

-- A write of the checksum field leaves the other bytes.
get_or-set_field :
    (q : Bytes) (a b i : ℕ) → i ≢ 10 → i ≢ 11 → get_or (set (set q 10 a) 11 b) i 0 ≡ get_or q i 0
get_or-set_field q a b i h10 h11 =
    get_or-set_ne (set q 10 a) 11 i b 0 (omega arith) ∙ get_or-set_ne q 10 i a 0 (omega arith)

get_or-blanked :
    (p : Bytes) (ttl i : ℕ) → i ≢ 8 → i ≢ 10 → i ≢ 11 → get_or (blanked p ttl) i 0 ≡ get_or p i 0
get_or-blanked p ttl i h8 h10 h11 =
    get_or-set_field (set p 8 ttl) 0 0 i h10 h11 ∙ get_or-set_ne p 8 i ttl 0 (omega arith)

pub get_or-rewritten :
    (p : Bytes) (ttl i : ℕ) → i ≢ 8 → i ≢ 10 → i ≢ 11 → get_or (rewritten p ttl) i 0 ≡ get_or p i 0
get_or-rewritten p ttl i h8 h10 h11 =
    let c = 65535 - ones_sum (header_sum (ihl_of p / 2) 0 (blanked p ttl)) in
    get_or-set_field (blanked p ttl) (c / 256) (c % 256) i h10 h11
    ∙ get_or-blanked p ttl i h8 h10 h11

pub get_or-rewritten_ttl :
    (p : Bytes) (ttl : ℕ) → 20 ≤ length p → get_or (rewritten p ttl) 8 0 ≡ ttl
get_or-rewritten_ttl p ttl h =
    let c = 65535 - ones_sum (header_sum (ihl_of p / 2) 0 (blanked p ttl)) in
    get_or-set_field (blanked p ttl) (c / 256) (c % 256) 8 (omega arith) (omega arith)
    ∙ get_or-set_field (set p 8 ttl) 0 0 8 (omega arith) (omega arith)
    ∙ get_or-set_self p 8 ttl 0 (omega arith)

blank_checksum : (p : Bytes) (ttl : ℕ) → 20 ≤ length p → be16_at (blanked p ttl) 10 ≡ 0
blank_checksum p ttl h =
    let p8 = set p 8 ttl in
    let at10 : get_or (blanked p ttl) 10 0 ≡ 0 =
      get_or-set_ne (set p8 10 0) 11 10 0 0 (omega arith)
      ∙ get_or-set_self p8 10 0 0 (omega (arith, length-set p 8 ttl)) in
    let at11 : get_or (blanked p ttl) 11 0 ≡ 0 =
      get_or-set_self (set p8 10 0) 11 0 0
        (omega (arith, length-set p8 10 0, length-set p 8 ttl)) in
    omega (arith, at10, at11)

-- A whole packet's rewritten header has the checksum that a receiver accepts.
pub checksum-rewritten : (p : Bytes) (ttl : ℕ) → IsIpv4 p → checksum (rewritten p ttl) ≡ 0
checksum-rewritten p ttl v =
    let n = ihl_of p / 2 in
    let q = blanked p ttl in
    let s = header_sum n 0 q in
    let c = 65535 - ones_sum s in
    let first = get_or-blanked p ttl 0 (omega arith) (omega arith) (omega arith) in
    let pos : 0 < s =
      header_sum-pos n q (omega (arith, v.header_min)) (omega (arith, first, v.version)) in
    let field =
      header_sum-set_checksum n (c / 256) (c % 256) q (omega (arith, v.header_min))
        (omega (arith, length-blanked p ttl, v.long)) (blank_checksum p ttl v.long) in
    let whole : be16 (c / 256) (c % 256) ≡ c = omega arith in
    rw (get_or-rewritten p ttl 0 (omega arith) (omega arith) (omega arith), field, whole)
      (omega (arith, ones_sum-complement s pos))

-- The byte 8 is the TTL, 10 and 11 are the checksum.
pub record IsRewriteOf (p q : Bytes) (ttl : ℕ) : Type 0 where
  pub same_length : length q ≡ length p
  pub bytes : IsBytes q
  pub ttl_set : get_or q 8 0 ≡ ttl
  pub verifies : checksum q ≡ 0
  pub frame : (i : ℕ) → i ≢ 8 → i ≢ 10 → i ≢ 11 → get_or q i 0 ≡ get_or p i 0
  pub settled : set_ipv4_ttl q ttl ≡ ok (false, q)

rewritten-IsBytes : (p : Bytes) (ttl : ℕ) → IsBytes p → ttl < 256 → IsBytes (rewritten p ttl)
rewritten-IsBytes p ttl h t =
    let c = 65535 - ones_sum (header_sum (ihl_of p / 2) 0 (blanked p ttl)) in
    All-set IsByte _ 11 (c % 256)
      (All-set IsByte _ 10 (c / 256) (blanked-IsBytes p ttl h t) (omega arith)) (omega arith)

-- For a packet of bytes and a TTL of a byte, where `set_ipv4_ttl` reports a change: the result has
-- the same length, the TTL and a header checksum that verifies, every byte but the TTL and the
-- checksum is as before, and the same call on the result changes nothing.
pub set_ipv4_ttl-IsRewriteOf :
    (p q : Bytes) (ttl : ℕ)
    → IsBytes p
    → ttl < 256
    → set_ipv4_ttl p ttl ≡ ok (true, q)
    → IsRewriteOf p q ttl
set_ipv4_ttl-IsRewriteOf p q ttl h t e = elim (set_ipv4_ttl_cases p ttl h t) [
  | inr (not_due, kept) ↦ cc
  | inl (due, done) ↦
      let same : q ≡ rewritten p ttl = cc in
      let at8 = get_or-rewritten_ttl p ttl due.whole.long in
      let r : IsRewriteOf p (rewritten p ttl) ttl = record {
        same_length = length-rewritten p ttl;
        bytes = rewritten-IsBytes p ttl h t;
        ttl_set = at8;
        verifies = checksum-rewritten p ttl due.whole;
        frame = get_or-rewritten p ttl;
        settled = elim (set_ipv4_ttl_cases (rewritten p ttl) ttl (rewritten-IsBytes p ttl h t) t) [
          | inr (_, kept) ↦ kept
          | inl (again, _) ↦ absurd (again.differs at8)
        ];
      } in
      rw same r
]
