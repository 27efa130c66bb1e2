-- ===== src/Qos/Replies.antt =====
-- src/qos.rs, `request`: the loop over the messages of one datagram.
pub mod Ends
use nfqttl.Base.{
  ℕ, zero, suc, ◌+◌, ◌-◌, ◌/◌, ◌%◌, ◌^◌, Bool, true, false, ◌||◌, not, ltb, leb, ◌==◌,
  if◌then◌else◌, List, [], ◌∷◌, ◌++◌, length, Option, none, some, Result, ok, err, stuck, ◌>>=◌,
  ◌>>◌, slice, Error, invalid_data, interrupted, raw_os_error,
}
use nfqttl.Base.Words.{Bytes, read_le16, read_le32, align4}
use nfqttl.Qos.Message.{seq, Qdisc, decode_qdisc}

-- A message: its type, its flags, its payload, and the bytes after it.
pub record Reply : Type 0 where
  pub ty : ℕ
  pub flags : ℕ
  pub payload : Bytes
  pub rest : Bytes

unfoldable pub read_reply : Bytes → Result Error Reply
read_reply b = if ltb (length b) 16 then err (invalid_data "short netlink header") else do
  len ← read_le32 b 0
  if ltb len 16 || ltb (length b) (align4 len)
      then err (invalid_data "invalid netlink message length")
      else do
        number ← read_le32 b 8
        if not (number == seq) then err (invalid_data "unexpected netlink sequence") else do
          ty ← read_le16 b 4
          flags ← read_le16 b 6
          payload ← slice b 16 len
          rest ← slice b (align4 len) (length b)
          ok (record { ty = ty; flags = flags; payload = payload; rest = rest })

-- The errno of a result: a negative one is an error of the system.
unfoldable pub check_errno : Bytes → Result Error (Unit {0})
check_errno payload =
    if ltb (length payload) 4 then err (invalid_data "netlink result missing errno") else do
      e ← read_le32 payload 0
      if leb (2 ^ 31) e
          then err (raw_os_error (2 ^ 32 - e))
          else if ltb 0 e
          then err (invalid_data "invalid netlink errno")
          else ok tt

abbrev pub push : List Qdisc → Option Qdisc → List Qdisc
push out none = out
push out (some q) = out ++ (q ∷ [])

-- One message: whether it ends the request, with the qdiscs so far.
unfoldable pub take_reply : Bool → Reply → List Qdisc → Result Error (Bool × List Qdisc)
take_reply dump r out =
    if not (r.flags / 16 % 2 == 0)
    then err (interrupted "qdisc dump interrupted")
    else if r.ty == 2 || r.ty == 3
    then (do check_errno r.payload; ok (r.ty == 3 || not dump, out))
    else if r.ty == 36
    then (do q ← decode_qdisc r.payload; ok (false, push out q))
    else if r.ty == 4
    then err (invalid_data "netlink overrun")
    else ok (false, out)

-- `while !b.is_empty()`, with fuel. The result is whether the request is over.
unfoldable pub replies : ℕ → Bool → Bytes → List Qdisc → Result Error (Bool × List Qdisc)
replies fuel dump [] out = ok (false, out)
replies zero dump (x ∷ b) out = stuck
replies (suc fuel) dump (x ∷ b) out = do
  r ← read_reply (x ∷ b)
  (over, out) ← take_reply dump r out
  if over then ok (true, out) else replies fuel dump r.rest out
