-- ===== src/Nfqueue/Encode.antt =====
-- The replies of nfqueue.rs, byte by byte.
use nfqttl.Base.{
  ℕ, ◌+◌, ◌-◌, ◌%◌, ◌^◌, ◌≤◌, ◌<◌, ◌≡◌, refl, ap, ◌∙◌, arith, [], ◌∷◌, ◌++◌, length, length-append,
  length-replicate, drop, replicate, ok, append_assoc, append-nil, drop-append, le→ltb_false,
}
use nfqttl.Base.Words.{Bytes, to_be16, to_be32, to_le16, to_le32, align4}
use nfqttl.Nfqueue.{begin_into, finish_len, attr, pad_to}

-- The verdict NF_ACCEPT on the packet `id`: a netlink header, the nfgenmsg and one attribute.
abbrev pub accept_tail : ℕ → Bytes → Bytes
accept_tail queue id =
    to_le16 0x301
    ++ (to_le16 1
        ++ (to_le32 0
            ++ (to_le32 0
                ++ (2 ∷ 0 ∷ (to_be16 queue ++ (to_le16 12 ++ (to_le16 2 ++ (to_be32 1 ++ id))))))))

abbrev pub accept_message : ℕ → Bytes → Bytes
accept_message queue id = to_le32 32 ++ accept_tail queue id

-- An attribute behind a whole number of words, as it is laid out.
abbrev pub attr_bytes : ℕ → Bytes → Bytes
attr_bytes ty body =
    let size = 4 + length body in
    to_le16 size ++ (to_le16 ty ++ (body ++ replicate (align4 size - size) 0))

-- The same verdict with a packet to put in place, padded to a multiple of four.
abbrev pub replace_message : ℕ → Bytes → Bytes → Bytes
replace_message queue id part =
    to_le32 (32 + align4 (4 + length part)) ++ (accept_tail queue id ++ attr_bytes 10 part)

pub attr-accept :
    (queue : ℕ) (id : Bytes)
    → length id ≡ 4
    → attr (begin_into 1 0 0 queue) 2 (to_be32 1 ++ id) ≡ ok (accept_message queue id)
unfolding attr begin_into finish_len
attr-accept queue (a ∷ b ∷ c ∷ d ∷ []) h = refl
attr-accept queue (a ∷ b ∷ c ∷ d ∷ e ∷ r) h = absurd (omega arith)
attr-accept queue (a ∷ b ∷ c ∷ []) h = absurd (omega arith)
attr-accept queue (a ∷ b ∷ []) h = absurd (omega arith)
attr-accept queue (a ∷ []) h = absurd (omega arith)
attr-accept queue [] h = absurd (omega arith)

pub length-attr_bytes :
    (ty : ℕ) (body : Bytes) → length (attr_bytes ty body) ≡ align4 (4 + length body)
length-attr_bytes ty body = omega (
  arith,
  length-append body (replicate (align4 (4 + length body) - (4 + length body)) 0),
  length-replicate {A = ℕ} (align4 (4 + length body) - (4 + length body)) 0,
)

finish_len-ok :
    (v : Bytes)
    → 4 ≤ length v
    → length v < 2 ^ 32
    → finish_len v ≡ ok (to_le32 (length v) ++ drop 4 v)
unfolding finish_len
finish_len-ok v h k =
    let whole : length v % 2 ^ 32 ≡ length v = omega arith in
    rw (le→ltb_false 4 (length v) h, whole)

pad_attr :
    (v body : Bytes) (ty : ℕ)
    → length v % 4 ≡ 0
    → pad_to
        (pad_to v (align4 (length v)) ++ (to_le16 (4 + length body) ++ (to_le16 ty ++ body)))
        (align4 (length v) + align4 (4 + length body))
      ≡ v ++ attr_bytes ty body
pad_attr v body ty h =
    let none_before : align4 (length v) - length v ≡ 0 = omega arith in
    let whole : align4 (length v) ≡ length v = omega arith in
    let front = to_le16 (4 + length body) ++ (to_le16 ty ++ body) in
    let rest : length v + align4 (4 + length body) - length (v ++ front)
        ≡ align4 (4 + length body) - (4 + length body) =
      omega (arith, length-append v front) in
    rw (none_before, whole, append-nil) (rw rest (append_assoc v front _))

-- `attr` on an aligned message: the length field is set and the attribute stands at the end.
pub attr-aligned :
    (v body : Bytes) (ty : ℕ)
    → length v % 4 ≡ 0
    → 4 ≤ length v
    → length v < 2 ^ 31
    → length body ≤ 65531
    → attr v ty body
      ≡ ok (to_le32 (length v + align4 (4 + length body)) ++ (drop 4 v ++ attr_bytes ty body))
unfolding attr
attr-aligned v body ty h long short l =
    let len : length (v ++ attr_bytes ty body) ≡ length v + align4 (4 + length body) =
      length-append v _ ∙ ap (◌+◌ (length v)) (length-attr_bytes ty body) in
    rw (le→ltb_false (4 + length body) 65535 (omega arith), pad_attr v body ty h)
      (finish_len-ok (v ++ attr_bytes ty body) (omega arith) (omega arith)
        ∙ rw (len, drop-append 4 v (attr_bytes ty body) long))

pub attr-replace :
    (queue : ℕ) (id part : Bytes)
    → length id ≡ 4
    → length part ≤ 65531
    → attr (accept_message queue id) 10 part ≡ ok (replace_message queue id part)
attr-replace queue id part h l =
    let size : length (accept_message queue id) ≡ 32 = omega arith in
    rw size at
      (attr-aligned (accept_message queue id) part 10 (omega arith) (omega arith) (omega arith) l)
