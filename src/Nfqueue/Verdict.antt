-- ===== src/Nfqueue/Verdict.antt =====
-- `verdict` on any message: what it answers, what it counts and what it leaves in the buffer.
use nfqttl.Base.{
  ℕ, ◌+◌, ◌-◌, ◌≤◌, ◌<◌, ◌≡◌, refl, Bool, true, false, not, arith, ltb, ◌==◌, ◌&&◌, if◌then◌else◌,
  Bool-cases, Option-cases, inl, inr, ◌++◌, length, take, drop, ◌⊎◌, none, some, ok, Post,
  Post-and_eq, Post-map, ==_iff, invalid_data, ◌>>=◌, Error, slice-ok,
}
use nfqttl.Base.Words.{Bytes, IsBytes, be16_at, read_be16-ok}
use nfqttl.Packet.Frame.{IsRewriteOf}
use nfqttl.Nfqueue.{
  Found, nothing, scan, PacketStats, Reply, complete, treat, answer, require, verdict,
}
use nfqttl.Nfqueue.Encode.{accept_message, replace_message, attr-accept, attr-replace}
use nfqttl.Nfqueue.Scan.{IsFound, scan-IsFound}
use nfqttl.Nfqueue.Splice.{
  slice_spliced, spliced, length-spliced, length-part, rewrite_payload_cases,
}

abbrev pub forwarded : Found → Bool
forwarded f = f.proto == 0x0800 && f.hook == 2

-- A forwarded IPv4 packet of which the kernel sent only a part.
abbrev pub cut_short : Found → Bool
cut_short f = forwarded f && elim f.payload [ none ↦ false | some (p, l) ↦ not (complete f.cap l) ]

-- The packet is accepted as it is.
pub record Accepts (queue : ℕ) (id msg : Bytes) (f : Found) (old : PacketStats) (r : Reply)
    : Type 0 where
  pub tx_is : r.tx ≡ accept_message queue id
  pub msg_is : r.msg ≡ msg
  pub seen : r.stats.seen ≡ old.seen + 1
  pub rewritten : r.stats.rewritten ≡ old.rewritten
  pub unchanged : r.stats.unchanged ≡ old.unchanged + 1
  pub truncated : r.stats.truncated ≡ old.truncated + (if cut_short f then 1 else 0)

-- The packet, `l` bytes of the message at `p`, is accepted with `part` in its place.
pub record Replaces (queue ttl : ℕ) (id msg : Bytes) (f : Found) (old : PacketStats) (r : Reply)
    : Type 0 where
  pub p : ℕ
  pub l : ℕ
  pub part : Bytes
  pub fits : p + l ≤ length msg
  pub is_forwarded : forwarded f ≡ true
  pub payload_is : f.payload ≡ some (p, l)
  pub is_complete : complete f.cap l ≡ true
  pub part_is : IsRewriteOf (take l (drop p msg)) part ttl
  pub tx_is : r.tx ≡ replace_message queue id part
  pub msg_is : r.msg ≡ take p msg ++ (part ++ drop (p + l) msg)
  pub seen : r.stats.seen ≡ old.seen + 1
  pub rewritten : r.stats.rewritten ≡ old.rewritten + 1
  pub unchanged : r.stats.unchanged ≡ old.unchanged
  pub truncated : r.stats.truncated ≡ old.truncated

-- The reply to a message in which the loop found `f`.
pub record IsReply (queue ttl : ℕ) (msg : Bytes) (old : PacketStats) (r : Reply) : Type 0 where
  pub f : Found
  pub id : Bytes
  pub found : scan (length msg) msg 20 nothing ≡ ok f
  pub id_is : f.id ≡ some id
  pub queue_is : be16_at msg 18 ≡ queue
  pub body : if r.changed then Replaces queue ttl id msg f old r else Accepts queue id msg f old r

module _ (queue ttl : ℕ) (msg : Bytes) (old : PacketStats) (f : Found) where
  abbrev counted : PacketStats
  counted = record old { seen = old.seen + 1 }

  abbrev Body : Bytes → Reply → Type 0
  Body id r = if r.changed then Replaces queue ttl id msg f old r else Accepts queue id msg f old r

  answer-Accepts :
      (id : Bytes) (n : ℕ)
      → length id ≡ 4
      → n ≡ old.truncated + (if cut_short f then 1 else 0)
      → Post (Body id) (answer queue id f false msg (record counted { truncated = n }))
  unfolding answer
  answer-Accepts id n h e = rw (attr-accept queue id h) (record {
    tx_is = refl;
    msg_is = refl;
    seen = refl;
    rewritten = refl;
    unchanged = refl;
    truncated = e;
  })

  answer-Replaces :
      (id : Bytes) (p l : ℕ) (part : Bytes)
      → length id ≡ 4
      → p + l ≤ length msg
      → l ≤ 65531
      → f.payload ≡ some (p, l)
      → forwarded f ≡ true
      → complete f.cap l ≡ true
      → length part ≡ l
      → IsRewriteOf (take l (drop p msg)) part ttl
      → Post (Body id) (answer queue id f true (spliced p l msg part) counted)
  unfolding answer
  answer-Replaces id p l part h fits small at fwd whole size is =
      let same : p + l - p ≡ length part = omega arith in
      let long = length-spliced p l msg part fits size in
      let cut = slice-ok {E = Error} (spliced p l msg part) p (p + l) (omega arith) (omega arith) in
      let r : Reply = record {
        msg = spliced p l msg part;
        changed = true;
        tx = replace_message queue id part;
        stats = record counted { rewritten = old.rewritten + 1 };
      } in
      let sent : answer queue id f true (spliced p l msg part) counted ≡ ok r =
        rw (attr-accept queue id h, at)
          (rw (cut, same, slice_spliced p msg part (drop (p + l) msg) (omega arith))
            (rw (attr-replace queue id part h (omega arith)))) in
      rw sent (record {
        p = p;
        l = l;
        part = part;
        fits = fits;
        is_forwarded = fwd;
        payload_is = at;
        is_complete = whole;
        part_is = is;
        tx_is = refl;
        msg_is = refl;
        seen = refl;
        rewritten = refl;
        unchanged = refl;
        truncated = refl;
      })

  record Treated : Type 0 where
    p : ℕ
    l : ℕ
    part : Bytes
    fits : p + l ≤ length msg
    small : l ≤ 65531
    payload_is : f.payload ≡ some (p, l)
    is_forwarded : forwarded f ≡ true
    is_complete : complete f.cap l ≡ true
    part_is : IsRewriteOf (take l (drop p msg)) part ttl
    treated : treat f msg ttl counted ≡ ok (true, spliced p l msg part, counted)

  payload_fits :
      (p l : ℕ)
      → IsFound (length msg) f
      → f.payload ≡ some (p, l)
      → (p + l ≤ length msg) × (l ≤ 65531)
  payload_fits p l h e = ground arith

  treat_cases :
      IsBytes msg
      → ttl < 256
      → IsFound (length msg) f
      → (treat f msg ttl counted
          ≡ ok (
            false,
            msg,
            record counted { truncated = old.truncated + (if cut_short f then 1 else 0) },
          ))
        ⊎ Treated
  unfolding treat
  treat_cases b t h = elim (Bool-cases (forwarded f)) [
    | inr no_forward ↦ inl (ground arith)
    | inl fwd ↦ elim (Option-cases f.payload) [
      | inl empty ↦ inl (ground arith)
      | inr ((p, l), at) ↦ elim (Bool-cases (complete f.cap l)) [
        | inr partly ↦ inl (ground arith)
        | inl whole ↦
            let fit = payload_fits p l h at in
            elim (rewrite_payload_cases msg p l ttl b t fit.0) [
              | inl kept ↦ inl (ground arith)
              | inr (part, is, done) ↦ inr (record {
                p = p;
                l = l;
                part = part;
                fits = fit.0;
                small = fit.1;
                payload_is = at;
                is_forwarded = fwd;
                is_complete = whole;
                part_is = is;
                treated = ground arith;
              })
            ]
      ]
    ]
  ]

  -- The treatment of the packet and the answer, for what the loop found.
  treat-answer :
      (id : Bytes)
      → IsBytes msg
      → ttl < 256
      → IsFound (length msg) f
      → length id ≡ 4
      → Post (Body id) (treat f msg ttl counted >>= λ (c, m, s). answer queue id f c m s)
  treat-answer id b t h e = elim (treat_cases b t h) [
    | inl kept ↦ rw kept (answer-Accepts id _ e refl)
    | inr w ↦ rw w.treated (
        answer-Replaces id w.p w.l w.part e w.fits w.small w.payload_is w.is_forwarded w.is_complete
          (length-part ttl msg w.p w.l w.part w.fits w.part_is) w.part_is)
  ]

id_length : (n : ℕ) (f : Found) (id : Bytes) → IsFound n f → f.id ≡ some id → length id ≡ 4
id_length n f id h e = ground arith

-- From the queue's number on: the loop, the packet id, the treatment and the answer.
body-IsReply :
    (msg : Bytes) (queue ttl : ℕ) (old : PacketStats)
    → IsBytes msg
    → ttl < 256
    → be16_at msg 18 ≡ queue
    → Post (IsReply queue ttl msg old) (do
      f ← scan (length msg) msg 20 nothing
      id ← require f.id (invalid_data "missing packet id")
      (changed, m, stats) ← treat f msg ttl (record old { seen = old.seen + 1 })
      answer queue id f changed m stats)
body-IsReply msg queue ttl old b t q =
    let found =
      scan-IsFound (length msg) msg 20 nothing b (omega arith)
        (record { id_fits = tt; payload_fits = tt }) in
    Post-and_eq (IsFound (length msg)) (IsReply queue ttl msg old)
      (scan (length msg) msg 20 nothing) _ found
      (λ f h e. elim (Option-cases f.id) [
        | inl empty ↦ rw empty tt
        | inr (id, at) ↦ simp at (
            Post-map (Body queue ttl msg old f id) (IsReply queue ttl msg old) _
              (treat-answer queue ttl msg old f id b t h (id_length (length msg) f id h at))
              (λ r body. record {
                f = f;
                id = id;
                found = e;
                id_is = at;
                queue_is = q;
                body = body;
              }))
      ])

-- On every message of bytes `verdict` ends without a panic. If it does not fail, the message was
-- for the queue and its attributes hold a packet id; the reply either accepts the packet as it is,
-- and leaves the message, or it was forwarded IPv4 traffic and complete, and the reply carries it
-- with the TTL set and a valid checksum. The counters count each packet once.
pub verdict-IsReply :
    (msg : Bytes) (queue ttl : ℕ) (old : PacketStats)
    → IsBytes msg
    → ttl < 256
    → Post (IsReply queue ttl msg old) (verdict msg queue ttl old)
unfolding verdict
verdict-IsReply msg queue ttl old b t = elim (Bool-cases (ltb (length msg) 20)) [
  | inl short ↦ rw short tt
  | inr long ↦
      rw (long, read_be16-ok {E = Error} msg 18 (ground arith))
        (elim (Bool-cases (be16_at msg 18 == queue)) [
          | inl ours ↦ rw ours (body-IsReply msg queue ttl old b t ((==_iff _ _).0 ours))
          | inr other ↦ rw other tt
        ])
]
