-- ===== src/Worker/Accounts.antt =====
-- The worker answers every packet that it counts, and it ends without a panic.
use nfqttl.Base.{
  ℕ, zero, suc, ◌+◌, ◌-◌, ◌*◌, ◌≤◌, ◌<◌, ◌≡◌, refl, ap, ◌∙◌, false, ◌||◌, arith, ltb, leb, ◌==◌,
  if◌then◌else◌, Bool-cases, leb→le, inl, inr, List, [], ◌∷◌, ◌++◌, length, length-append, take,
  drop, All, All-append, All-take, All-drop, ok, err, other, Post, Post-bind, Post-map, Error,
  slice-ok, length-slice,
}
use nfqttl.Base.Words.{Bytes, IsByte, IsBytes, align4, le32_at, le16_at, read_le16-ok, read_le32-ok}
use nfqttl.Nfqueue.{Found, PacketStats, Reply}
use nfqttl.Nfqueue.Splice.{spliced, length-spliced, length-part}
use nfqttl.Nfqueue.Verdict.{IsReply, Accepts, Replaces, verdict-IsReply}
use nfqttl.Worker.{
  Socket, State, Event, poll_error, recv_error, timeout, no_input, datagram, send, frame, frames,
  turn, run,
}

-- One reply for each packet seen, each counted as rewritten or as unchanged; those that the kernel
-- cut short are among the unchanged.
pub record IsBalanced (s : State) : Type 0 where
  pub bytes : IsBytes s.rx
  pub answered : length s.sent ≡ s.stats.seen
  pub split : s.stats.rewritten + s.stats.unchanged ≡ s.stats.seen
  pub cut : s.stats.truncated ≤ s.stats.unchanged

-- What a reply does to the message and the counters.
record Moves (msg : Bytes) (old : PacketStats) (r : Reply) : Type 0 where
  size : length r.msg ≡ length msg
  bytes : IsBytes r.msg
  seen : r.stats.seen ≡ old.seen + 1
  split : r.stats.rewritten + r.stats.unchanged ≡ old.rewritten + old.unchanged + 1
  cut : r.stats.truncated + old.unchanged ≤ old.truncated + r.stats.unchanged

Accepts-Moves :
    (queue : ℕ) (id msg : Bytes) (f : Found) (old : PacketStats) (r : Reply)
    → IsBytes msg
    → Accepts queue id msg f old r
    → Moves msg old r
Accepts-Moves queue id msg f old r b a = record {
  size = ap length a.msg_is;
  bytes = rw a.msg_is b;
  seen = a.seen;
  split = omega (arith, a.rewritten, a.unchanged);
  cut = ground (arith, a.truncated, a.unchanged);
}

Replaces-Moves :
    (queue ttl : ℕ) (id msg : Bytes) (f : Found) (old : PacketStats) (r : Reply)
    → IsBytes msg
    → Replaces queue ttl id msg f old r
    → Moves msg old r
Replaces-Moves queue ttl id msg f old r b a = record {
  size =
      ap length a.msg_is
      ∙ length-spliced a.p a.l msg a.part a.fits
          (length-part ttl msg a.p a.l a.part a.fits a.part_is);
  bytes = rw a.msg_is (
      All-append IsByte (take a.p msg) (a.part ++ drop (a.p + a.l) msg) (All-take IsByte a.p msg b)
        (All-append IsByte a.part (drop (a.p + a.l) msg) a.part_is.bytes
          (All-drop IsByte (a.p + a.l) msg b)));
  seen = a.seen;
  split = omega (arith, a.rewritten, a.unchanged);
  cut = omega (arith, a.truncated, a.unchanged);
}

IsReply-Moves :
    (queue ttl : ℕ) (msg : Bytes) (old : PacketStats) (r : Reply)
    → IsBytes msg
    → IsReply queue ttl msg old r
    → Moves msg old r
IsReply-Moves queue ttl msg old r b h = elim (Bool-cases r.changed) [
  | inl e ↦ Replaces-Moves queue ttl h.id msg h.f old r b (simp e at h.body)
  | inr e ↦ Accepts-Moves queue h.id msg h.f old r b (simp e at h.body)
]

frame_fits :
    (len off n : ℕ) → (ltb len 16 || ltb n (off + len)) ≡ false → (16 ≤ len) × (off + len ≤ n)
frame_fits len off n h = ground arith

-- The whole buffer keeps its length.
abbrev IsStill : ℕ → State → Type 0
IsStill n s = IsBalanced s × (length s.rx ≡ n)

-- A datagram is made of bytes.
abbrev pub EventBytes : Event → Type 0
EventBytes (datagram rx n pid) = IsBytes rx
EventBytes _ = Unit

received : (s : State) (rx : Bytes) → IsBalanced s → IsBytes rx → IsBalanced (record s { rx = rx })
received s rx v b = record { bytes = b; answered = v.answered; split = v.split; cut = v.cut }

-- The state after a reply to the frame of `len` bytes at `off`.
reply-IsStill :
    (s : State) (off len : ℕ) (r : Reply)
    → off + len ≤ length s.rx
    → IsBalanced s
    → Moves (take (off + len - off) (drop off s.rx)) s.stats r
    → IsStill (length s.rx) (record s {
      rx = spliced off len s.rx r.msg;
      sent = s.sent ++ (r.tx ∷ []);
      stats = r.stats;
    })
reply-IsStill s off len r fits h m =
    let size : length r.msg ≡ len =
      m.size ∙ length-slice s.rx off (off + len) (omega arith) fits ∙ omega arith in
    (
      record {
        bytes =
            All-append IsByte (take off s.rx) (r.msg ++ drop (off + len) s.rx)
              (All-take IsByte off s.rx h.bytes)
              (All-append IsByte r.msg (drop (off + len) s.rx) m.bytes
                (All-drop IsByte (off + len) s.rx h.bytes));
        answered = omega (arith, length-append s.sent (r.tx ∷ []), h.answered, m.seen);
        split = omega (arith, m.split, m.seen, h.split);
        cut = omega (arith, m.cut, h.cut);
      },
      length-spliced off len s.rx r.msg fits size,
    )

module _ (os : Socket) (queue ttl : ℕ) (t : ttl < 256) where
  send-Post : (k : ℕ) (v : Bytes) → Post (λ _. Unit) (send os queue ttl k v)
  unfolding send
  send-Post k v = ground arith

  frame-IsStill :
      (s : State) (off len : ℕ)
      → off + len ≤ length s.rx
      → IsBalanced s
      → Post (IsStill (length s.rx)) (frame os queue ttl s off len)
  unfolding frame
  frame-IsStill s off len fits h =
      let msg = take (off + len - off) (drop off s.rx) in
      let bytes =
        All-take IsByte (off + len - off) (drop off s.rx) (All-drop IsByte off s.rx h.bytes) in
      rw (slice-ok {E = Error} s.rx off (off + len) (omega arith) fits) (
        Post-bind (IsReply queue ttl msg s.stats) (IsStill (length s.rx)) _ _
          (verdict-IsReply msg queue ttl s.stats bytes t)
          (λ r reply.
            Post-bind (λ _. Unit) (IsStill (length s.rx)) _ _ (send-Post (length s.sent) r.tx)
              (λ _ _.
                reply-IsStill s off len r fits h
                  (IsReply-Moves queue ttl msg s.stats r bytes reply))))

  -- The arms on the frame's type.
  one_frame :
      (s : State) (off len ty : ℕ)
      → off + len ≤ length s.rx
      → IsBalanced s
      → Post (IsStill (length s.rx)) (
          if ty == 768
          then frame os queue ttl s off len
          else if ty == 2
          then err (other "nfqueue netlink error")
          else ok s)
  one_frame s off len ty fits v = elim (Bool-cases (ty == 768)) [
    | inl packet ↦ rw packet (frame-IsStill s off len fits v)
    | inr not_packet ↦ rw not_packet (elim (Bool-cases (ty == 2)) [
      | inl error ↦ rw error tt
      | inr skipped ↦ rw skipped (v, refl)
    ])
  ]

  frames-IsStill :
      (fuel n off : ℕ) (s : State)
      → n ≤ length s.rx
      → n < off + 16 * fuel + 16
      → IsBalanced s
      → Post (IsStill (length s.rx)) (frames os queue ttl fuel n off s)
  unfolding frames
  frames-IsStill zero n off s fits h v = ground arith
  frames-IsStill (suc fuel) n off s fits h v = elim (Bool-cases (leb (off + 16) n)) [
    | inr out ↦ rw out (v, refl)
    | inl inside ↦
        let len = le32_at s.rx off in
        let ty = le16_at s.rx (off + 4) in
        let room : off + 16 ≤ n = leb→le (off + 16) n inside in
        rw (inside, read_le32-ok s.rx off (omega arith))
          (elim (Bool-cases (ltb len 16 || ltb n (off + len))) [
            | inl bad ↦ rw bad tt
            | inr good ↦
                let inner = frame_fits len off n good in
                rw (good, read_le16-ok s.rx (off + 4) (omega arith))
                  (Post-bind (IsStill (length s.rx)) (IsStill (length s.rx)) _ _
                    (one_frame s off len ty (omega arith) v)
                    (λ s' w. rw w.1 at (
                      frames-IsStill fuel n (off + align4 len) s' (omega (arith, w.1)) (omega arith)
                        w.0)))
          ])
  ]

  turn-IsBalanced :
      (s : State) (e : Event)
      → EventBytes e
      → IsBalanced s
      → Post IsBalanced (turn os queue ttl s e)
  unfolding turn
  turn-IsBalanced s (poll_error e) b v = ground arith
  turn-IsBalanced s timeout b v = v
  turn-IsBalanced s no_input b v = tt
  turn-IsBalanced s (recv_error e) b v = ground arith
  turn-IsBalanced s (datagram rx n pid) b v = elim (Bool-cases (ltb (length rx) n)) [
    | inl long ↦ rw long tt
    | inr fits ↦ rw fits (elim (Bool-cases (pid == 0)) [
      | inr stranger ↦ rw stranger (received s rx v b)
      | inl kernel ↦ rw kernel (
          Post-map (IsStill (length rx)) IsBalanced _
            (frames-IsStill n n 0 (record s { rx = rx }) (ground arith) (omega arith)
              (received s rx v b))
            (λ _ w. w.0))
    ])
  ]

  -- Over any sequence of events the worker ends without a panic, and unless it stops on an error
  -- it has sent one reply for each packet that it has seen. Each is counted once, as rewritten or
  -- as unchanged, and the packets that came cut short are among the unchanged.
  pub run-IsBalanced :
      (es : List Event) (s : State)
      → All EventBytes es
      → IsBalanced s
      → Post IsBalanced (run os queue ttl es s)
  unfolding run
  run-IsBalanced [] s b v = v
  run-IsBalanced (e ∷ es) s b v =
      Post-bind IsBalanced IsBalanced _ _ (turn-IsBalanced s e b.0 v)
        (λ s' w. run-IsBalanced es s' b.1 w)
