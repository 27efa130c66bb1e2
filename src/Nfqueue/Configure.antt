-- ===== src/Nfqueue/Configure.antt =====
-- src/nfqueue.rs, `ack`, `configure_params` and `configure`: the set-up of a queue, which asks for
-- the best flags first and falls back.
pub mod Grants
use nfqttl.Base.{
  ℕ, zero, suc, ◌+◌, ◌-◌, ◌*◌, ◌/◌, ◌%◌, ◌^◌, ◌≤◌, ◌<◌, ◌≡◌, ◌≢◌, ◌⊎◌, inl, inr, refl, Bool, true,
  false, ◌&&◌, ◌||◌, arith, ltb, leb, ◌==◌, if◌then◌else◌, Bool-cases, List, [], ◌∷◌, ◌++◌, length,
  Option, none, some, Result, ok, err, panic, stuck, ◌>>=◌, ◌>>◌, Error, invalid_data, raw_os_error,
  Post,
}
use nfqttl.Base.Words.{Bytes, to_be32, align4, read_le16, read_le32}
use nfqttl.Nfqueue.{begin_into, attr, nlm_f_ack, nlmsg_error, af_inet}
use Prim.Native.Nat.{bit_or}

-- The reply to a request, in the first `n` bytes of the buffer: the errno of the `NLMSG_ERROR`
-- frame that carries the request's number. `i32` errors are negative, and 0 is an acknowledgement.
unfoldable pub ack_frames : ℕ → Bytes → ℕ → ℕ → ℕ → Result Error (Unit {0})
ack_frames zero b n off seq =
    if leb (off + 16) n then stuck else err (invalid_data "invalid netlink ack")
ack_frames (suc fuel) b n off seq =
    let round = do
      len ← read_le32 b off
      if ltb len 16 || ltb n (off + len) then err (invalid_data "invalid netlink ack") else do
        ty ← read_le16 b (off + 4)
        s ← read_le32 b (off + 8)
        let next = ack_frames fuel b n (off + align4 len) seq
        if ty == nlmsg_error && (s == seq && leb 20 len)
            then (do
              e ← read_le32 b (off + 16)
              if e == 0 then ok tt else err (raw_os_error ((2 ^ 32 - e) % 2 ^ 32)))
            else next
    in if leb (off + 16) n then round else err (invalid_data "invalid netlink ack")

abbrev pub nfqnl_msg_config : ℕ
nfqnl_msg_config = 2

abbrev pub nfqnl_cfg_cmd_bind : ℕ
nfqnl_cfg_cmd_bind = 1

abbrev pub nfqnl_copy_packet : ℕ
nfqnl_copy_packet = 2

abbrev pub nfqa_cfg_cmd : ℕ
nfqa_cfg_cmd = 1

abbrev pub nfqa_cfg_params : ℕ
nfqa_cfg_params = 2

abbrev pub nfqa_cfg_queue_maxlen : ℕ
nfqa_cfg_queue_maxlen = 3

abbrev pub nfqa_cfg_mask : ℕ
nfqa_cfg_mask = 4

abbrev pub nfqa_cfg_flags : ℕ
nfqa_cfg_flags = 5

abbrev pub fail_open : ℕ
fail_open = 1

abbrev pub gso_flag : ℕ
gso_flag = 4

-- The message of `configure_params`.
pub params_message : ℕ → ℕ → ℕ → ℕ → Result Error Bytes
params_message queue seq queue_maxlen flags = do
  v ←
      attr (begin_into nfqnl_msg_config nlm_f_ack seq queue) nfqa_cfg_params
        (to_be32 65531 ++ (nfqnl_copy_packet ∷ []))
  v ← attr v nfqa_cfg_queue_maxlen (to_be32 queue_maxlen)
  if flags == 0
      then ok v
      else do v ← attr v nfqa_cfg_flags (to_be32 flags); attr v nfqa_cfg_mask (to_be32 flags)

-- `.is_ok()`, where a panic goes on.
pub accepted : Result Error (Unit {0}) → Result Error Bool
accepted (ok u) = ok true
accepted (err e) = ok false
accepted panic = panic
accepted stuck = stuck

-- What the kernel answers to a request with its number is a parameter.
module _ (ack : Bytes → ℕ → Result Error (Unit {0})) where
  pub configure_params : ℕ → ℕ → ℕ → ℕ → Result Error (Unit {0})
  configure_params queue seq queue_maxlen flags = do
    v ← params_message queue seq queue_maxlen flags
    ack v seq

  -- The flags that the queue runs with.
  pub configure : ℕ → ℕ → Bool → Result Error ℕ
  configure queue queue_maxlen gso = do
    v ←
        attr (begin_into nfqnl_msg_config nlm_f_ack 1 queue) nfqa_cfg_cmd
          (nfqnl_cfg_cmd_bind ∷ 0 ∷ 0 ∷ af_inet ∷ [])
    ack v 1
    let best = bit_or fail_open (if gso then gso_flag else 0)
    with_best ← accepted (configure_params queue 2 queue_maxlen best)
    if with_best then ok best else do
      with_open ← accepted (configure_params queue 3 queue_maxlen fail_open)
      if with_open then ok fail_open else do configure_params queue 4 queue_maxlen 0; ok 0
