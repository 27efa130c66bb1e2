-- ===== src/Nfqueue/Configure/Grants.antt =====
-- The set-up of a queue ends, with the best flags that the kernel takes.
use nfqttl.Base.{
  ℕ, zero, suc, ◌+◌, ◌*◌, ◌≤◌, ◌<◌, ◌≡◌, ◌≢◌, refl, Bool, false, ◌||◌, arith, ltb, leb, leb→le,
  ◌==◌, if◌then◌else◌, Bool-cases, ◌⊎◌, inl, inr, length, Result, ok, Post, Post-bind, Post-and_eq,
  Post-cases, Error,
}
use nfqttl.Base.Words.{Bytes, align4, le32_at, read_le16-ok, read_le32-ok}
use Prim.Native.Nat.{bit_or}
use nfqttl.Nfqueue.{begin_into, finish_len, attr}
use nfqttl.Nfqueue.Configure.{
  ack_frames, params_message, configure_params, accepted, configure, fail_open, gso_flag,
}

long_enough :
    (len off n : ℕ) → (ltb len 16 || ltb n (off + len)) ≡ false → (16 ≤ len) × (off + len ≤ n)
long_enough len off n h = ground arith

-- Reading the acknowledgement ends without a panic, whatever the kernel sent.
pub ack_frames-Post :
    (fuel : ℕ) (b : Bytes) (n off seq : ℕ)
    → n ≤ length b
    → n < off + 16 * fuel + 16
    → Post (λ _. Unit) (ack_frames fuel b n off seq)
unfolding ack_frames
ack_frames-Post zero b n off seq fits h = ground arith
ack_frames-Post (suc fuel) b n off seq fits h = elim (Bool-cases (leb (off + 16) n)) [
  | inr out ↦ rw out tt
  | inl inside ↦
      let room : off + 16 ≤ n = leb→le (off + 16) n inside in
      let len = le32_at b off in
      rw (inside, read_le32-ok b off (omega arith))
        (elim (Bool-cases (ltb len 16 || ltb n (off + len))) [
          | inl bad ↦ rw bad tt
          | inr good ↦
              let inner = long_enough len off n good in
              let rest = ack_frames-Post fuel b n (off + align4 len) seq fits (omega arith) in
              rw
                (
                  good,
                  read_le16-ok b (off + 4) (omega arith),
                  read_le32-ok b (off + 8) (omega arith),
                )
                (ground (arith, rest, read_le32-ok {E = Error} b (off + 16)))
        ])
]

params_message-Post :
    (queue seq maxlen flags : ℕ) → Post (λ _. Unit) (params_message queue seq maxlen flags)
unfolding params_message attr finish_len begin_into
params_message-Post queue seq maxlen flags = elim (Bool-cases (flags == 0)) [
  | inl plain ↦ rw plain tt
  | inr flagged ↦ rw flagged tt
]

module _ (ack : Bytes → ℕ → Result Error (Unit {0})) (queue maxlen : ℕ) (gso : Bool) where
  abbrev best : ℕ
  best = bit_or fail_open (if gso then gso_flag else 0)

  -- The flags were granted, and any better ones were asked for first and refused.
  pub record Granted (flags : ℕ) : Type 0 where
    pub seq : ℕ
    pub granted : configure_params ack queue seq maxlen flags ≡ ok tt
    pub known : (flags ≡ best) ⊎ (flags ≡ fail_open) ⊎ (flags ≡ 0)
    pub best_first : flags ≢ best → configure_params ack queue 2 maxlen best ≢ ok tt
    pub open_next :
        flags ≢ best → flags ≢ fail_open → configure_params ack queue 3 maxlen fail_open ≢ ok tt

  configure_params-Post :
      ((v : Bytes) (seq : ℕ) → Post (λ _. Unit) (ack v seq))
      → (seq flags : ℕ) → Post (λ _. Unit) (configure_params ack queue seq maxlen flags)
  unfolding configure_params
  configure_params-Post h seq flags =
      Post-bind (λ _. Unit) (λ _. Unit) _ _ (params_message-Post queue seq maxlen flags)
        (λ m _. h m seq)

  -- If the acknowledgements never panic, neither does the set-up. If it succeeds, the kernel granted
  -- the flags that it reports, and had refused every better choice.
  pub configure-Granted :
      ((v : Bytes) (seq : ℕ) → Post (λ _. Unit) (ack v seq))
      → Post Granted (configure ack queue maxlen gso)
  unfolding configure accepted attr finish_len begin_into
  configure-Granted h =
      let tried = configure_params-Post h in
      Post-bind (λ _. Unit) Granted (ack _ 1) _ (h _ 1)
        (λ _ _.
          elim (Post-cases (λ _. Unit) (configure_params ack queue 2 maxlen best) (tried 2 best)) [
            | inl (u, yes_best, _) ↦ rw yes_best (record {
              seq = 2;
              granted = yes_best;
              known = inl refl;
              best_first = λ ne. absurd (ne refl);
              open_next = λ ne. absurd (ne refl);
            })
            | inr (e, no_best) ↦
                rw no_best
                  (elim (Post-cases (λ _. Unit) (configure_params ack queue 3 maxlen fail_open)
                    (tried 3 fail_open)) [
                      | inl (u, yes_open, _) ↦ rw yes_open (record {
                        seq = 3;
                        granted = yes_open;
                        known = inr (inl refl);
                        best_first = λ _ y. cc;
                        open_next = λ _ ne. absurd (ne refl);
                      })
                      | inr (d, no_open) ↦ rw no_open (
                          Post-and_eq (λ _. Unit) Granted (configure_params ack queue 4 maxlen 0) _
                            (tried 4 0)
                            (λ _ _ yes_plain. record {
                              seq = 4;
                              granted = yes_plain;
                              known = inr (inr refl);
                              best_first = λ _ y. cc;
                              open_next = λ _ _ y. cc;
                            }))
                    ])
          ])
