-- ===== src/Nfqueue/Examples.antt =====
-- Tests of the netlink part of nfqueue.rs, and its theorems at the message of the source's tests:
-- packet 42 of queue 6464, forwarded IPv4, with a payload of 40 bytes.
use nfqttl.Base.{
  ℕ, ◌≡◌, refl, true, arith, [], ◌∷◌, ◌++◌, length, get_or, Option, none, some, Result, ok, err,
  Post, Error, byte_at, put_at, slice, invalid_data,
}
use nfqttl.Base.Words.{Bytes}
use nfqttl.Packet.{fold, sum_words, refresh, set_ipv4_ttl}
use nfqttl.Nfqueue.{
  begin_into, finish_len, attr, take_attr, scan, rewrite_payload, treat, answer, PacketStats, Reply,
  verdict,
}
use nfqttl.Nfqueue.Verdict.{IsReply, verdict-IsReply}
use nfqttl.Nfqueue.Configure.{ack_frames, configure}
use nfqttl.Nfqueue.Configure.Grants.{Granted, configure-Granted, ack_frames-Post}

abbrev payload : Bytes
payload =
    0x45 ∷ 0 ∷ 0 ∷ 40 ∷ 0 ∷ 0 ∷ 0 ∷ 0 ∷ 63 ∷ 17 ∷ 0 ∷ 0 ∷ 0 ∷ 0 ∷ 0 ∷ 0 ∷ 0 ∷ 0 ∷ 0 ∷ 0 ∷ 0 ∷ 0 ∷ 0
    ∷ 0 ∷ 0 ∷ 0 ∷ 0 ∷ 0 ∷ 0 ∷ 0 ∷ 0 ∷ 0 ∷ 0 ∷ 0 ∷ 0 ∷ 0 ∷ 0 ∷ 0 ∷ 0 ∷ 0 ∷ []

abbrev message : Bytes
message =
    76 ∷ 0 ∷ 0 ∷ 0 ∷ 0 ∷ 3 ∷ 1 ∷ 0 ∷ 1 ∷ 0 ∷ 0 ∷ 0 ∷ 0 ∷ 0 ∷ 0 ∷ 0 ∷ 2 ∷ 0 ∷ 25 ∷ 64 ∷ 11 ∷ 0 ∷ 1
    ∷ 0 ∷ 0 ∷ 0 ∷ 0 ∷ 42 ∷ 8 ∷ 0 ∷ 2 ∷ 0 ∷ 44 ∷ 0 ∷ 10 ∷ 0 ∷ payload

-- The same with CAP_LEN 70000: the kernel holds a larger packet.
abbrev message_cut : Bytes
message_cut = message ++ (8 ∷ 0 ∷ 13 ∷ 0 ∷ 0 ∷ 1 ∷ 17 ∷ 112 ∷ [])

abbrev zero_stats : PacketStats
zero_stats = record { seen = 0; rewritten = 0; truncated = 0; unchanged = 0 }

-- The length of the reply, its byte 44, and the counters of rewritten and truncated packets.
abbrev summary : Result Error Reply → Option (ℕ × ℕ × ℕ × ℕ)
summary (ok r) = some (length r.tx, get_or r.tx 44 0, r.stats.rewritten, r.stats.truncated)
summary _ = none

complete_packet_rewritten : summary (verdict message 6464 64 zero_stats) ≡ some (76, 64, 1, 0)
unfolding verdict scan take_attr treat rewrite_payload answer attr begin_into finish_len
    set_ipv4_ttl refresh fold sum_words byte_at put_at slice
complete_packet_rewritten = refl

truncated_packet_accepted : summary (verdict message_cut 6464 64 zero_stats) ≡ some (32, 0, 0, 1)
unfolding verdict scan take_attr treat answer attr begin_into finish_len byte_at slice
truncated_packet_accepted = refl

rejects_wrong_queue : verdict message 6465 64 zero_stats ≡ err (invalid_data "wrong queue")
unfolding verdict byte_at
rejects_wrong_queue = refl

verdict-IsReply_example :
    Post (IsReply 6464 64 message zero_stats) (verdict message 6464 64 zero_stats)
verdict-IsReply_example = verdict-IsReply message 6464 64 zero_stats (omega arith) (omega arith)

-- A kernel that takes every request.
abbrev willing : Bytes → ℕ → Result Error (Unit {0})
willing v seq = ok tt

willing-Post : (v : Bytes) (seq : ℕ) → Post (λ _. Unit) (willing v seq)
willing-Post v seq = tt

configure-Granted_example : Post (Granted willing 6464 4096 true) (configure willing 6464 4096 true)
configure-Granted_example = configure-Granted willing 6464 4096 true willing-Post

abbrev ack_reply : Bytes
ack_reply = 20 ∷ 0 ∷ 0 ∷ 0 ∷ 2 ∷ 0 ∷ 0 ∷ 0 ∷ 1 ∷ 0 ∷ 0 ∷ 0 ∷ 0 ∷ 0 ∷ 0 ∷ 0 ∷ 0 ∷ 0 ∷ 0 ∷ 0 ∷ []

acknowledged : ack_frames 20 ack_reply 20 0 1 ≡ ok tt
unfolding ack_frames byte_at
acknowledged = refl

ack_frames-Post_example : Post (λ _. Unit) (ack_frames 20 ack_reply 20 0 1)
ack_frames-Post_example = ack_frames-Post 20 ack_reply 20 0 1 (omega arith) (omega arith)
