-- ===== src/Nfqueue/Scan.antt =====
-- The attribute loop of `verdict` on any message: it ends, and what it finds lies in the message.
use nfqttl.Base.{
  ℕ, zero, suc, ◌+◌, ◌-◌, ◌*◌, ◌%◌, ◌^◌, ◌≤◌, ◌<◌, ◌≡◌, false, arith, ltb, leb, ◌||◌, Bool-cases,
  leb→le, inl, inr, length, take, drop, Option, none, some, Post, Post-bind, Error, byte_at-ok,
  slice-ok, length-slice,
}
use nfqttl.Base.Words.{Bytes, IsBytes, le16_at, le16_at-lt, align4, read_be16-ok, read_le16-ok}
use nfqttl.Nfqueue.{Found, take_attr, scan}

abbrev IdFits : Option Bytes → Type 0
IdFits none = Unit
IdFits (some id) = length id ≡ 4

abbrev PayloadFits : ℕ → Option (ℕ × ℕ) → Type 0
PayloadFits n none = Unit
PayloadFits n (some (p, l)) = (p + l ≤ n) × (l ≤ 65531)

-- The packet id has four bytes, and the payload is a part of the message of `n` bytes.
pub record IsFound (n : ℕ) (f : Found) : Type 0 where
  pub id_fits : IdFits f.id
  pub payload_fits : PayloadFits n f.payload

take_attr-IsFound :
    (n ty : ℕ) (d : Bytes) (at : ℕ) (f : Found)
    → at + length d ≤ n
    → length d ≤ 65531
    → IsFound n f
    → Post (IsFound n) (take_attr ty d at f)
unfolding take_attr
take_attr-IsFound n ty d at f fits small h = ground (
  arith,
  slice-ok {E = Error} d 0 4,
  length-slice d 0 4,
  byte_at-ok {E = Error} d 0,
  byte_at-ok {E = Error} d 1,
  byte_at-ok {E = Error} d 2,
  byte_at-ok {E = Error} d 3,
  byte_at-ok {E = Error} d 6,
  read_be16-ok {E = Error} d 4,
)

-- An attribute that passes the loop's test lies in the message.
attr_fits : (len off n : ℕ) → (ltb len 4 || ltb n (off + len)) ≡ false → (4 ≤ len) × (off + len ≤ n)
attr_fits len off n h = ground arith

pub scan-IsFound :
    (fuel : ℕ) (msg : Bytes) (off : ℕ) (f : Found)
    → IsBytes msg
    → length msg < off + 4 * fuel + 4
    → IsFound (length msg) f
    → Post (IsFound (length msg)) (scan fuel msg off f)
unfolding scan
scan-IsFound zero msg off f b h v = ground arith
scan-IsFound (suc fuel) msg off f b h v = elim (Bool-cases (leb (off + 4) (length msg))) [
  | inr out ↦ rw out v
  | inl inside ↦
      let n = length msg in
      let len = le16_at msg off in
      let room : off + 4 ≤ n = leb→le (off + 4) n inside in
      rw (inside, read_le16-ok msg off (omega arith), read_le16-ok msg (off + 2) (omega arith))
        (elim (Bool-cases (ltb len 4 || ltb n (off + len))) [
          | inl bad ↦ rw bad tt
          | inr good ↦
              let fits = attr_fits len off n good in
              let size = length-slice msg (off + 4) (off + len) (omega arith) fits.1 in
              let d = take (off + len - (off + 4)) (drop (off + 4) msg) in
              rw (good, slice-ok msg (off + 4) (off + len) (omega arith) fits.1)
                (Post-bind (IsFound n) (IsFound n)
                  (take_attr (le16_at msg (off + 2) % 2 ^ 14) d (off + 4) f)
                  (λ s. scan fuel msg (off + align4 len) s)
                  (take_attr-IsFound n (le16_at msg (off + 2) % 2 ^ 14) d (off + 4) f (omega arith)
                    (omega (arith, le16_at-lt msg off b)) v)
                  (λ s w. scan-IsFound fuel msg (off + align4 len) s b (omega arith) w))
        ])
]
