-- ===== src/Cli/Arguments.antt =====
-- What a worker is started with.
use nfqttl.Base.{
  ℕ, ◌^◌, ◌≤◌, ◌≡◌, refl, subst, arith, true, false, ◌==◌, if◌then◌else◌, Bool-cases, Option-cases,
  ◌⊎◌, inl, inr, List, some, Post, Post-bind, Error,
}
use nfqttl.Base.Text.{Text, codes, has_text, parse_uint}
use nfqttl.Cli.{arg_value, parse_num, WorkerArgs, is_bad, worker_args}

-- The default, if the option is not there, else the number that stands after it.
abbrev pub Given : ℕ → List Text → Text → ℕ → ℕ → Type 0
Given w args name default n =
    ((has_text args name ≡ false) × (n ≡ default))
    ⊎ ((t : Text) × (has_text args name ≡ true)
        × (arg_value args name ≡ some t)
        × (parse_uint (2 ^ w) t ≡ some n))

parse_num-Given :
    (w : ℕ) (args : List Text) (name : Text) (default : ℕ)
    → Post (Given w args name default) (parse_num w args name default)
unfolding parse_num
parse_num-Given w args name default = elim (Bool-cases (has_text args name)) [
  | inr absent ↦ rw absent (inl (absent, refl))
  | inl there ↦ elim (Option-cases (arg_value args name)) [
    | inl no_value ↦ rw (there, no_value) tt
    | inr (t, value) ↦ elim (Option-cases (parse_uint (2 ^ w) t)) [
      | inl no_number ↦ rw (there, value, no_number) tt
      | inr (n, number) ↦ rw (there, value, number) (inr (t, there, value, number))
    ]
  ]
]

pub record IsStarted (a : List Text) (g : WorkerArgs) : Type 0 where
  pub queue_given : Given 16 a (codes "--queue") 6464 g.queue
  pub ttl_given : Given 16 a (codes "--ttl") 64 g.ttl
  pub maxlen_given : Given 32 a (codes "--queue-maxlen") 4096 g.queue_maxlen
  pub rcvbuf_given : Given 32 a (codes "--rcvbuf-mb") 8 g.rcvbuf_mb
  pub gso_given : Given 8 a (codes "--gso") 0 (if g.gso then 1 else 0)
  pub queue_range : 1 ≤ g.queue
  pub ttl_range : (1 ≤ g.ttl) × (g.ttl ≤ 255)
  pub maxlen_range : (256 ≤ g.queue_maxlen) × (g.queue_maxlen ≤ 32768)
  pub rcvbuf_range : (1 ≤ g.rcvbuf_mb) × (g.rcvbuf_mb ≤ 64)

module _ (a : List Text) (q ttl qmax rcv gso : ℕ) where
  checked :
      Given 16 a (codes "--queue") 6464 q
      → Given 16 a (codes "--ttl") 64 ttl
      → Given 32 a (codes "--queue-maxlen") 4096 qmax
      → Given 32 a (codes "--rcvbuf-mb") 8 rcv
      → Given 8 a (codes "--gso") 0 gso
      → is_bad q ttl qmax rcv gso ≡ false
      → IsStarted a
          (record { queue = q; ttl = ttl; queue_maxlen = qmax; rcvbuf_mb = rcv; gso = gso == 1 })
  checked hq ht hm hr hg h =
      let bit : gso ≡ (if gso == 1 then 1 else 0) = ground (arith, h) in
      record {
        queue_given = hq;
        ttl_given = ht;
        maxlen_given = hm;
        rcvbuf_given = hr;
        gso_given = subst (Given 8 a (codes "--gso") 0) bit hg;
        queue_range = ground (arith, h);
        ttl_range = ground (arith, h);
        maxlen_range = ground (arith, h);
        rcvbuf_range = ground (arith, h);
      }

-- The arguments of `nfqttl worker` are refused, or the worker starts with the value after each
-- option, or the default of an option that is not there; the queue is not 0, and the TTL, the
-- length of the queue and the size of its buffer are in their ranges.
pub worker_args-IsStarted : (a : List Text) → Post (IsStarted a) (worker_args a)
unfolding worker_args
worker_args-IsStarted a =
    Post-bind {E = Error} (Given 16 a (codes "--queue") 6464) (IsStarted a)
      (parse_num 16 a (codes "--queue") 6464) _ (parse_num-Given 16 a (codes "--queue") 6464)
      (λ q hq.
        Post-bind {E = Error} (Given 16 a (codes "--ttl") 64) (IsStarted a)
          (parse_num 16 a (codes "--ttl") 64) _ (parse_num-Given 16 a (codes "--ttl") 64)
          (λ ttl ht.
            Post-bind {E = Error} (Given 32 a (codes "--queue-maxlen") 4096) (IsStarted a)
              (parse_num 32 a (codes "--queue-maxlen") 4096) _
              (parse_num-Given 32 a (codes "--queue-maxlen") 4096)
              (λ qmax hm.
                Post-bind {E = Error} (Given 32 a (codes "--rcvbuf-mb") 8) (IsStarted a)
                  (parse_num 32 a (codes "--rcvbuf-mb") 8) _
                  (parse_num-Given 32 a (codes "--rcvbuf-mb") 8)
                  (λ rcv hr.
                    Post-bind {E = Error} (Given 8 a (codes "--gso") 0) (IsStarted a)
                      (parse_num 8 a (codes "--gso") 0) _ (parse_num-Given 8 a (codes "--gso") 0)
                      (λ gso hg. elim (Bool-cases (is_bad q ttl qmax rcv gso)) [
                        | inl bad ↦ rw bad tt
                        | inr good ↦ rw good (checked a q ttl qmax rcv gso hq ht hm hr hg good)
                      ])))))
