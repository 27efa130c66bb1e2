-- ===== src/Packet/Examples.antt =====
-- Tests of packet.rs, and its theorems at a packet of 20 bytes with the TTL 63.
use nfqttl.Base.{◌≡◌, ◌⊎◌, refl, true, false, arith, [], ◌∷◌, set, ok, byte_at, put_at}
use nfqttl.Base.Words.{Bytes}
use nfqttl.Packet.{fold, sum_words, refresh, set_ipv4_ttl}
use nfqttl.Packet.Rewrite.{ShouldRewrite, rewritten, set_ipv4_ttl_cases}
use nfqttl.Packet.Frame.{IsRewriteOf, set_ipv4_ttl-IsRewriteOf}

abbrev sample : Bytes
sample = 0x45 ∷ 0 ∷ 0 ∷ 20 ∷ 0 ∷ 0 ∷ 0 ∷ 0 ∷ 63 ∷ 17 ∷ 0 ∷ 0 ∷ 10 ∷ 0 ∷ 0 ∷ 1 ∷ 10 ∷ 0 ∷ 0 ∷ 2 ∷ []

abbrev sample_64 : Bytes
sample_64 =
    0x45 ∷ 0 ∷ 0 ∷ 20 ∷ 0 ∷ 0 ∷ 0 ∷ 0 ∷ 64 ∷ 17 ∷ 102 ∷ 215 ∷ 10 ∷ 0 ∷ 0 ∷ 1 ∷ 10 ∷ 0 ∷ 0 ∷ 2 ∷ []

rewrites_sample : set_ipv4_ttl sample 64 ≡ ok (true, sample_64)
unfolding set_ipv4_ttl refresh fold sum_words byte_at put_at
rewrites_sample = refl

-- Too short, not IPv4, and longer in its header than in the buffer.
rejects_short : set_ipv4_ttl (0x45 ∷ 0 ∷ []) 64 ≡ ok (false, 0x45 ∷ 0 ∷ [])
unfolding set_ipv4_ttl
rejects_short = refl

rejects_ipv6 : set_ipv4_ttl (set sample 0 0x65) 64 ≡ ok (false, set sample 0 0x65)
unfolding set_ipv4_ttl refresh byte_at
rejects_ipv6 = refl

rejects_total : set_ipv4_ttl (set sample 2 16) 64 ≡ ok (false, set sample 2 16)
unfolding set_ipv4_ttl refresh byte_at
rejects_total = refl

set_ipv4_ttl_cases_example :
    (ShouldRewrite sample 64 × (set_ipv4_ttl sample 64 ≡ ok (true, rewritten sample 64)))
    ⊎ ((ShouldRewrite sample 64 → ⊥) × (set_ipv4_ttl sample 64 ≡ ok (false, sample)))
set_ipv4_ttl_cases_example = set_ipv4_ttl_cases sample 64 (omega arith) (omega arith)

set_ipv4_ttl-IsRewriteOf_example : IsRewriteOf sample sample_64 64
set_ipv4_ttl-IsRewriteOf_example =
    set_ipv4_ttl-IsRewriteOf sample sample_64 64 (omega arith) (omega arith) rewrites_sample
