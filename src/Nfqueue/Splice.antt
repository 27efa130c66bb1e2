-- ===== src/Nfqueue/Splice.antt =====
-- A packet that is replaced in its message.
use nfqttl.Base.{
  ℕ, zero, suc, ◌+◌, ◌-◌, ◌≤◌, ◌<◌, ◌≡◌, refl, ap, true, false, arith, inl, inr, ◌++◌, length,
  length-append, take, drop, length-take, length-drop, take_prefix, take-append-drop, [], ◌∷◌, ◌⊎◌,
  All-take, All-drop, ok, slice-ok,
}
use nfqttl.Base.Words.{Bytes, IsByte, IsBytes}
use nfqttl.Packet.Rewrite.{set_ipv4_ttl_cases}
use nfqttl.Packet.Frame.{IsRewriteOf, set_ipv4_ttl-IsRewriteOf}
use native.Mathlib.Nat.{zero-add}
use nfqttl.Nfqueue.{rewrite_payload}

splice_nil : (l : ℕ) → ◌≡◌ {A = Bytes} (take l [] ++ []) []
splice_nil zero = refl
splice_nil (suc l) = refl

suc-add : (p l : ℕ) → suc p + l ≡ suc (p + l)
suc-add p l = omega arith

splice_self :
    (p l : ℕ) (msg : Bytes) → take p msg ++ (take l (drop p msg) ++ drop (p + l) msg) ≡ msg
splice_self zero l msg = rw (zero-add l) (take-append-drop l msg)
splice_self (suc p) l [] = rw (suc-add p l) (splice_nil l)
splice_self (suc p) l (x ∷ msg) = rw (suc-add p l) (ap (◌∷◌ x) (splice_self p l msg))

-- A part of the right length put at `p` is read back from there.
pub slice_spliced :
    (p : ℕ) (msg part rest : Bytes)
    → p ≤ length msg
    → take (length part) (drop p (take p msg ++ (part ++ rest))) ≡ part
slice_spliced zero msg part rest h = take_prefix part rest
slice_spliced (suc p) [] part rest h = absurd (omega arith)
slice_spliced (suc p) (x ∷ msg) part rest h = slice_spliced p msg part rest (omega arith)

abbrev pub spliced : ℕ → ℕ → Bytes → Bytes → Bytes
spliced p l msg part = take p msg ++ (part ++ drop (p + l) msg)

pub length-spliced :
    (p l : ℕ) (msg part : Bytes)
    → p + l ≤ length msg
    → length part ≡ l
    → length (spliced p l msg part) ≡ length msg
length-spliced p l msg part h e = omega (
  arith,
  length-append (take p msg) (part ++ drop (p + l) msg),
  length-append part (drop (p + l) msg),
  length-take p msg,
  length-drop (p + l) msg,
)

pub length-part :
    (ttl : ℕ) (msg : Bytes) (p l : ℕ) (part : Bytes)
    → p + l ≤ length msg
    → IsRewriteOf (take l (drop p msg)) part ttl
    → length part ≡ l
length-part ttl msg p l part h is =
    omega (arith, is.same_length, length-take l (drop p msg), length-drop p msg)

pub rewrite_payload_cases :
    (msg : Bytes) (p l ttl : ℕ)
    → IsBytes msg
    → ttl < 256
    → p + l ≤ length msg
    → (rewrite_payload msg p l ttl ≡ ok (false, msg))
      ⊎ ((part : Bytes) × IsRewriteOf (take l (drop p msg)) part ttl
          × (rewrite_payload msg p l ttl ≡ ok (true, spliced p l msg part)))
unfolding rewrite_payload
rewrite_payload_cases msg p l ttl b t h =
    let old = take l (drop p msg) in
    let bytes = All-take IsByte l (drop p msg) (All-drop IsByte p msg b) in
    let same : p + l - p ≡ l = omega arith in
    rw (slice-ok msg p (p + l) (omega arith) h, same)
      (elim (set_ipv4_ttl_cases old ttl bytes t) [
        | inr (_, kept) ↦ inl (rw (kept, splice_self p l msg))
        | inl (_, done) ↦ inr (_, set_ipv4_ttl-IsRewriteOf old _ ttl bytes t done, rw done)
      ])
