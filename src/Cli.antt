-- ===== src/Cli.antt =====
-- src/main.rs: how the arguments of `nfqttl worker` are read.
pub mod Arguments
mod Examples
use nfqttl.Base.{
  ℕ, ◌^◌, Bool, true, false, ◌||◌, not, ltb, ◌==◌, in_range, if◌then◌else◌, List, [], ◌∷◌, Option,
  none, some, Result, ok, err, ◌>>=◌, Error, invalid_input,
}
use nfqttl.Base.Text.{Text, codes, text_eq, has_text, parse_uint}

-- `windows(2).find(|x| x[0] == name).map(|x| x[1].clone())`
unfoldable pub arg_value : List Text → Text → Option Text
arg_value [] name = none
arg_value (a ∷ []) name = none
arg_value (a ∷ b ∷ args) name =
    let rest = arg_value (b ∷ args) name in if text_eq a name then some b else rest

abbrev pub valid_number : Option ℕ → Result Error ℕ
valid_number none = err (invalid_input "invalid or missing value")
valid_number (some n) = ok n

abbrev pub parsed : ℕ → Option Text → Result Error ℕ
parsed w none = err (invalid_input "invalid or missing value")
parsed w (some t) = valid_number (parse_uint (2 ^ w) t)

-- `parse_num` of an unsigned type of `w` bits.
unfoldable pub parse_num : ℕ → List Text → Text → ℕ → Result Error ℕ
parse_num w args name default =
    if not (has_text args name) then ok default else parsed w (arg_value args name)

-- What `nfqueue::worker` is called with.
pub record WorkerArgs : Type 0 where
  pub queue : ℕ
  pub ttl : ℕ
  pub queue_maxlen : ℕ
  pub rcvbuf_mb : ℕ
  pub gso : Bool

abbrev pub is_bad : (q ttl qmax rcv gso : ℕ) → Bool
is_bad q ttl qmax rcv gso =
    ltb 1 gso
    || (q == 0
        || (ttl == 0
            || (ltb 255 ttl || (not (in_range 256 32768 qmax) || not (in_range 1 64 rcv)))))

unfoldable pub worker_args : List Text → Result Error WorkerArgs
worker_args a = do
  q ← parse_num 16 a (codes "--queue") 6464
  ttl ← parse_num 16 a (codes "--ttl") 64
  qmax ← parse_num 32 a (codes "--queue-maxlen") 4096
  rcv ← parse_num 32 a (codes "--rcvbuf-mb") 8
  gso ← parse_num 8 a (codes "--gso") 0
  if is_bad q ttl qmax rcv gso
      then err (invalid_input "invalid worker arguments")
      else ok
          (record { queue = q; ttl = ttl; queue_maxlen = qmax; rcvbuf_mb = rcv; gso = gso == 1 })
