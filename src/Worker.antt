-- ===== src/Worker.antt =====
-- src/nfqueue.rs, `send` and `worker`: the loop that answers the kernel's packets. What `recvfrom`,
-- `poll` and the signals report is a list of events; `sendto` is a parameter.
pub mod Accounts
mod Examples
use nfqttl.Base.{
  ℕ, zero, suc, ◌+◌, ◌-◌, ◌*◌, ◌^◌, Bool, true, false, ◌||◌, ltb, leb, ◌==◌, if◌then◌else◌, List,
  [], ◌∷◌, ◌++◌, length, take, drop, Option, none, some, Result, ok, err, panic, stuck, ◌>>=◌, ◌>>◌,
  Error, invalid_data, other, raw_os_error, slice,
}
use nfqttl.Base.Words.{Bytes, align4, read_le16, read_le32}
use nfqttl.Nfqueue.{PacketStats, Reply, verdict, nlmsg_error, nfnl_subsys_queue, nfqnl_msg_packet}
use Prim.Native.Nat.{bit_or}

-- The `n`-th call of `sendto`: what it returns, `none` for -1, and the errno after it.
pub record Socket : Type 0 where
  pub sendto : ℕ → Bytes → Option ℕ
  pub errno : ℕ → ℕ

abbrev pub sent_whole : Option ℕ → ℕ → Bool
sent_whole none n = false
sent_whole (some k) n = k == n

-- The state of `worker`: the receive buffer, the replies sent, and the counters.
pub record State : Type 0 where
  pub rx : Bytes
  pub sent : List Bytes
  pub stats : PacketStats
  pub overruns : ℕ

pub data Event : Type 0 where
  -- `poll` or `recvfrom` fails with an errno
  poll_error : ℕ → Event
  recv_error : ℕ → Event
  -- `poll` times out, or reports a descriptor with no input
  timeout : Event
  no_input : Event
  -- the buffer after `recvfrom`, the datagram's length and the sender's port
  datagram : Bytes → ℕ → ℕ → Event

abbrev pub eintr : ℕ
eintr = 4

abbrev pub enobufs : ℕ
enobufs = 105

module _ (os : Socket) (queue ttl : ℕ) where
  pub send : ℕ → Bytes → Result Error (Unit {0})
  send k v =
      if sent_whole (os.sendto k v) (length v) then ok tt else err (raw_os_error (os.errno k))

  -- One frame of the datagram, `len` bytes at `off`.
  pub frame : State → ℕ → ℕ → Result Error State
  frame s off len = do
    msg ← slice s.rx off (off + len)
    r ← verdict msg queue ttl s.stats
    send (length s.sent) r.tx
    ok (record s {
      rx = take off s.rx ++ (r.msg ++ drop (off + len) s.rx);
      sent = s.sent ++ (r.tx ∷ []);
      stats = r.stats;
    })

  -- `while off + 16 <= n`, with fuel.
  pub frames : ℕ → ℕ → ℕ → State → Result Error State
  frames zero n off s = if leb (off + 16) n then stuck else ok s
  frames (suc fuel) n off s =
      let round = do
        len ← read_le32 s.rx off
        if ltb len 16 || ltb n (off + len) then err (invalid_data "bad netlink frame") else do
          ty ← read_le16 s.rx (off + 4)
          s ←
              if ty == bit_or (nfnl_subsys_queue * 2 ^ 8) nfqnl_msg_packet
              then frame s off len
              else if ty == nlmsg_error
              then err (other "nfqueue netlink error")
              else ok s
          frames fuel n (off + align4 len) s
      in if leb (off + 16) n then round else ok s

  -- One round of the loop. A datagram of another sender than the kernel is dropped.
  pub turn : State → Event → Result Error State
  turn s (poll_error e) = if e == eintr then ok s else err (raw_os_error e)
  turn s timeout = ok s
  turn s no_input = err (other "nfqueue poll error")
  turn s (recv_error e) =
      if e == eintr
      then ok s
      else if e == enobufs
      then ok (record s { overruns = s.overruns + 1 })
      else err (raw_os_error e)
  turn s (datagram rx n pid) =
      if ltb (length rx) n
      then err (invalid_data "truncated netlink datagram")
      else if pid == 0
      then frames n n 0 (record s { rx = rx })
      else ok (record s { rx = rx })

  -- The loop runs until STOP is set: the events end there.
  pub run : List Event → State → Result Error State
  run [] s = ok s
  run (e ∷ es) s = do s ← turn s e; run es s

abbrev pub start : Bytes → State
start rx = record {
  rx = rx;
  sent = [];
  stats = record { seen = 0; rewritten = 0; truncated = 0; unchanged = 0 };
  overruns = 0;
}
