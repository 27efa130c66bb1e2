-- ===== src/Nfqueue.antt =====
-- src/nfqueue.rs: the netlink messages that the worker sends, and the attributes that it reads.
pub mod Encode
pub mod Scan
pub mod Splice
pub mod Verdict
pub mod Configure
mod Examples
use nfqttl.Base.{
  ℕ, zero, suc, ◌+◌, ◌-◌, ◌*◌, ◌/◌, ◌%◌, ◌^◌, Bool, true, false, ◌&&◌, ◌||◌, ltb, leb, ◌==◌,
  if◌then◌else◌, List, [], ◌∷◌, ◌++◌, length, take, drop, replicate, Option, none, some, Result, ok,
  err, panic, stuck, ◌>>=◌, Error, invalid_data, invalid_input, byte_at, slice,
}
use nfqttl.Base.Words.{
  Bytes, be32, to_be16, to_be32, to_le16, to_le32, align4, read_be16, read_le16,
}
use nfqttl.Packet.{set_ipv4_ttl}
use Prim.Native.Nat.{bit_or}

abbrev pub nlm_f_request : ℕ
nlm_f_request = 1

abbrev pub nlm_f_ack : ℕ
nlm_f_ack = 4

abbrev pub nlmsg_error : ℕ
nlmsg_error = 2

abbrev pub nfnl_subsys_queue : ℕ
nfnl_subsys_queue = 3

abbrev pub nfqnl_msg_packet : ℕ
nfqnl_msg_packet = 0

abbrev pub nfqnl_msg_verdict : ℕ
nfqnl_msg_verdict = 1

abbrev pub nfqa_packet_hdr : ℕ
nfqa_packet_hdr = 1

abbrev pub nfqa_verdict_hdr : ℕ
nfqa_verdict_hdr = 2

abbrev pub nfqa_payload : ℕ
nfqa_payload = 10

abbrev pub nfqa_cap_len : ℕ
nfqa_cap_len = 13

abbrev pub nf_inet_forward : ℕ
nf_inet_forward = 2

abbrev pub nf_accept : ℕ
nf_accept = 1

abbrev pub af_inet : ℕ
af_inet = 2

-- The `NlHdr` as it lies in memory, then the nfgenmsg: 20 bytes in all.
pub begin_into : ℕ → ℕ → ℕ → ℕ → Bytes
begin_into ty flags seq queue =
    to_le32 20
    ++ (to_le16 (bit_or (nfnl_subsys_queue * 2 ^ 8) ty)
        ++ (to_le16 (bit_or nlm_f_request flags)
            ++ (to_le32 seq ++ (to_le32 0 ++ (af_inet ∷ 0 ∷ to_be16 queue)))))

-- `while v.len() < n { v.push(0); }`
abbrev pub pad_to : Bytes → ℕ → Bytes
pad_to v n = v ++ replicate (n - length v) 0

-- `v[0..4]` takes the message's length; the slice panics if there is no room for it.
pub finish_len : Bytes → Result Error Bytes
finish_len v = if ltb (length v) 4 then panic else ok (to_le32 (length v % 2 ^ 32) ++ drop 4 v)

pub attr : Bytes → ℕ → Bytes → Result Error Bytes
attr v ty body =
    let pos = align4 (length v) in
    let size = 4 + length body in
    if ltb 65535 size
    then err (invalid_input "netlink attr too large")
    else finish_len
        (pad_to (pad_to v pos ++ (to_le16 size ++ (to_le16 ty ++ body))) (pos + align4 size))

-- What the attribute loop of `verdict` has found so far.
pub record Found : Type 0 where
  pub id : Option Bytes
  pub hook : ℕ
  pub proto : ℕ
  pub cap : Option ℕ
  pub payload : Option (ℕ × ℕ)

abbrev pub nothing : Found
nothing = record { id = none; hook = 255; proto = 0; cap = none; payload = none }

-- One arm of the `match ty`; `at` is the offset of the attribute's data `d`.
pub take_attr : ℕ → Bytes → ℕ → Found → Result Error Found
take_attr ty d at s =
    if ty == nfqa_packet_hdr && leb 7 (length d)
    then (do
      id ← slice d 0 4
      proto ← read_be16 d 4
      hook ← byte_at d 6
      ok (record s { id = some id; proto = proto; hook = hook }))
    else if ty == nfqa_payload
    then ok (record s { payload = some (at, length d) })
    else if ty == nfqa_cap_len && length d == 4
    then (do
      a ← byte_at d 0
      b ← byte_at d 1
      c ← byte_at d 2
      e ← byte_at d 3
      ok (record s { cap = some (be32 a b c e) }))
    else ok s

-- `while off + 4 <= msg.len()`, with fuel.
pub scan : ℕ → Bytes → ℕ → Found → Result Error Found
scan zero msg off s = if leb (off + 4) (length msg) then stuck else ok s
scan (suc fuel) msg off s =
    let round = do
      len ← read_le16 msg off
      ty ← read_le16 msg (off + 2)
      if ltb len 4 || ltb (length msg) (off + len)
          then err (invalid_data "bad nfqueue attr")
          else do
            d ← slice msg (off + 4) (off + len)
            s ← take_attr (ty % 2 ^ 14) d (off + 4) s
            scan fuel msg (off + align4 len) s
    in if leb (off + 4) (length msg) then round else ok s

pub record PacketStats : Type 0 where
  pub seen : ℕ
  pub rewritten : ℕ
  pub truncated : ℕ
  pub unchanged : ℕ

-- The message buffer, which the TTL is written into, the reply and the counters.
pub record Reply : Type 0 where
  pub msg : Bytes
  pub changed : Bool
  pub tx : Bytes
  pub stats : PacketStats

-- `cap.map(|x| x as usize == l).unwrap_or(true)`
abbrev pub complete : Option ℕ → ℕ → Bool
complete none l = true
complete (some x) l = x == l

-- `changed = set_ipv4_ttl(&mut msg[p..p + l], ttl)`
pub rewrite_payload : Bytes → ℕ → ℕ → ℕ → Result Error (Bool × Bytes)
rewrite_payload msg p l ttl = do
  part ← slice msg p (p + l)
  (changed, part) ← set_ipv4_ttl part ttl
  ok (changed, take p msg ++ (part ++ drop (p + l) msg))

-- The packet of a forwarded IPv4 message is rewritten if it is complete, else counted.
pub treat : Found → Bytes → ℕ → PacketStats → Result Error (Bool × Bytes × PacketStats)
treat f msg ttl stats =
    if f.proto == 0x0800 && f.hook == nf_inet_forward
    then elim f.payload [
      | none ↦ ok (false, msg, stats)
      | some (p, l) ↦
          if complete f.cap l
          then (do (changed, msg) ← rewrite_payload msg p l ttl; ok (changed, msg, stats))
          else ok (false, msg, record stats { truncated = stats.truncated + 1 })
    ]
    else ok (false, msg, stats)

-- `payload.unwrap()` panics on `None`.
abbrev pub unwrap {ℓ} : {A : Type ℓ} → Option A → Result Error A
unwrap none = panic
unwrap (some a) = ok a

pub answer : ℕ → Bytes → Found → Bool → Bytes → PacketStats → Result Error Reply
answer queue id f changed msg stats = do
  v ← attr (begin_into nfqnl_msg_verdict 0 0 queue) nfqa_verdict_hdr (to_be32 nf_accept ++ id)
  if changed
      then (do
        (p, l) ← unwrap f.payload
        part ← slice msg p (p + l)
        v ← attr v nfqa_payload part
        ok (record {
          msg = msg;
          changed = changed;
          tx = v;
          stats = record stats { rewritten = stats.rewritten + 1 };
        }))
      else ok (record {
        msg = msg;
        changed = changed;
        tx = v;
        stats = record stats { unchanged = stats.unchanged + 1 };
      })

abbrev pub require {ℓ} : {A : Type ℓ} → Option A → Error → Result Error A
require none e = err e
require (some a) e = ok a

pub verdict : Bytes → ℕ → ℕ → PacketStats → Result Error Reply
verdict msg queue ttl stats =
    if ltb (length msg) 20 then err (invalid_data "short nfqueue message") else do
      q ← read_be16 msg 18
      if q == queue
          then (do
            f ← scan (length msg) msg 20 nothing
            id ← require f.id (invalid_data "missing packet id")
            (changed, msg, stats) ← treat f msg ttl (record stats { seen = stats.seen + 1 })
            answer queue id f changed msg stats)
          else err (invalid_data "wrong queue")
