-- ===== src/Qos/Replies/Ends.antt =====
-- The loop over a datagram ends on any bytes.
use nfqttl.Base.{
  ℕ, zero, suc, ◌+◌, ◌-◌, ◌≤◌, arith, Bool, ◌||◌, not, ltb, ◌==◌, Bool-cases, inl, inr, List, [],
  ◌∷◌, length, take, drop, length-slice, All, All-take, All-drop, Result, Post, Post-bind, Post-map,
  slice-ok, Error,
}
use nfqttl.Base.Words.{Bytes, IsByte, IsBytes, align4, le32_at, read_le32-ok, read_le16-ok}
use nfqttl.Base.Text.{codes, text_eq}
use nfqttl.Qos.{Options, attrs}
use nfqttl.Qos.Parse.{IsField, IsOptions, attrs-IsOptions}
use nfqttl.Qos.Message.{seq, Qdisc, get, strip_nul, is_utf8, required, options_of, decode_qdisc}
use nfqttl.Qos.Replies.{Reply, read_reply, check_errno, take_reply, replies}

-- The code ends without a panic.
abbrev Ends {ℓ} : {A : Type ℓ} → Result Error A → Type 0
Ends m = Post (λ _. Unit) m

get-IsBytes :
    (k : ℕ) (o : Options) (e : Error) → All IsField o → Post IsBytes (required (get k o) e)
unfolding get
get-IsBytes k [] e h = tt
get-IsBytes k ((j, v) ∷ o) e (f, h) = ground (arith, get-IsBytes k o e h)

attrs-Ends : (v : Bytes) → IsBytes v → Ends (attrs v)
attrs-Ends v h = Post-map IsOptions (λ _. Unit) (attrs v) (attrs-IsOptions v h) (λ _ _. tt)

options_of-Ends : (kind : Bytes) (a : Options) → All IsField a → Ends (options_of kind a)
options_of-Ends kind a h = elim (Bool-cases (text_eq kind (codes "cake"))) [
  | inr plain ↦ rw plain tt
  | inl cake ↦ rw cake (
      Post-bind {E = Error} IsBytes (λ _. Unit) (required (get 2 a) _) _ (get-IsBytes 2 a _ h)
        (λ v hv. attrs-Ends v hv))
]

decode_qdisc-Ends : (b : Bytes) → IsBytes b → Ends (decode_qdisc b)
unfolding decode_qdisc
decode_qdisc-Ends b h = elim (Bool-cases (ltb (length b) 20)) [
  | inl short ↦ rw short tt
  | inr long ↦
      rw (long, slice-ok {E = Error} b 20 (length b) (ground arith) (omega arith))
        (Post-bind {E = Error} IsOptions (λ _. Unit) _ _
          (attrs-IsOptions _ (All-take IsByte _ _ (All-drop IsByte 20 b h)))
          (λ a w.
            Post-bind {E = Error} IsBytes (λ _. Unit) (required (get 1 a) _) _
              (get-IsBytes 1 a _ w.fields)
              (λ kind hk. elim (Bool-cases (is_utf8 (strip_nul kind))) [
                | inr bad ↦ rw bad tt
                | inl good ↦ rw good (
                    Post-bind {E = Error} (λ _. Unit) (λ _. Unit) _ _
                      (options_of-Ends (strip_nul kind) a w.fields)
                      (λ o _.
                        rw
                          (
                            read_le32-ok {E = Error} b 4 (ground arith),
                            read_le32-ok {E = Error} b 12 (ground arith),
                            read_le32-ok {E = Error} b 8 (ground arith),
                          )
                          tt))
              ])))
]

-- A message whose payload is bytes, and fewer bytes after it.
record IsShorter (b : Bytes) (r : Reply) : Type 0 where
  payload_is : IsBytes r.payload
  rest_is : IsBytes r.rest
  shorter : length r.rest + 16 ≤ length b

read_reply-IsShorter : (b : Bytes) → IsBytes b → Post (IsShorter b) (read_reply b)
unfolding read_reply
read_reply-IsShorter b h = elim (Bool-cases (ltb (length b) 16)) [
  | inl short ↦ rw short tt
  | inr long ↦
      rw (long, read_le32-ok {E = Error} b 0 (ground arith))
        (elim (Bool-cases (ltb (le32_at b 0) 16 || ltb (length b) (align4 (le32_at b 0)))) [
          | inl wrong ↦ rw wrong tt
          | inr right ↦
              rw (right, read_le32-ok {E = Error} b 8 (ground arith))
                (elim (Bool-cases (not (le32_at b 8 == seq))) [
                  | inl other_number ↦ rw other_number tt
                  | inr number ↦
                      rw
                        (
                          number,
                          read_le16-ok {E = Error} b 4 (ground arith),
                          read_le16-ok {E = Error} b 6 (ground arith),
                          slice-ok {E = Error} b 16 (le32_at b 0) (ground arith) (ground arith),
                          slice-ok {E = Error} b (align4 (le32_at b 0)) (length b) (ground arith)
                              (omega arith),
                        )
                        (record {
                          payload_is = All-take IsByte _ _ (All-drop IsByte 16 b h);
                          rest_is = All-take IsByte _ _ (All-drop IsByte _ b h);
                          shorter = cut (ground arith) (ground arith);
                        })
                ])
        ])
]
  where
    cut :
        16 ≤ le32_at b 0
        → align4 (le32_at b 0) ≤ length b
        → length (take (length b - align4 (le32_at b 0)) (drop (align4 (le32_at b 0)) b)) + 16
          ≤ length b
    cut lo hi = omega (arith, length-slice b (align4 (le32_at b 0)) (length b) hi (omega arith), lo)

check_errno-Ends : (p : Bytes) → Ends (check_errno p)
unfolding check_errno
check_errno-Ends p = elim (Bool-cases (ltb (length p) 4)) [
  | inl short ↦ rw short tt
  | inr long ↦ rw (long, read_le32-ok {E = Error} p 0 (ground arith)) (ground arith)
]

take_reply-Ends :
    (dump : Bool) (r : Reply) (out : List Qdisc) → IsBytes r.payload → Ends (take_reply dump r out)
unfolding take_reply
take_reply-Ends dump r out h =
    ground (arith, check_errno-Ends r.payload, decode_qdisc-Ends r.payload h)

replies_fueled :
    (fuel : ℕ) (dump : Bool) (b : Bytes) (out : List Qdisc)
    → length b ≤ fuel
    → IsBytes b
    → Ends (replies fuel dump b out)
unfolding replies
replies_fueled fuel dump [] out l h = tt
replies_fueled zero dump (x ∷ b) out l h = absurd (omega arith)
replies_fueled (suc fuel) dump (x ∷ b) out l h =
    Post-bind {E = Error} (IsShorter (x ∷ b)) (λ _. Unit) _ _ (read_reply-IsShorter (x ∷ b) h)
      (λ r w.
        Post-bind {E = Error} (λ _. Unit) (λ _. Unit) _ _ (take_reply-Ends dump r out w.payload_is)
          (λ (over, next) _. elim (Bool-cases over) [
            | inl done ↦ rw done tt
            | inr goes_on ↦
                rw goes_on
                  (replies_fueled fuel dump r.rest next (omega (arith, w.shorter)) w.rest_is)
          ]))

-- The loop over the messages of a datagram ends without a panic on any bytes, with as many rounds
-- as there are bytes: the qdiscs and their attributes are read in bounds.
pub replies-Ends :
    (dump : Bool) (b : Bytes) (out : List Qdisc)
    → IsBytes b
    → Post (λ _. Unit) (replies (length b) dump b out)
replies-Ends dump b out h = replies_fueled (length b) dump b out (omega arith) h
