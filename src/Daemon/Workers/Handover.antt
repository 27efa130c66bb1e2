-- ===== src/Daemon/Workers/Handover.antt =====
-- What a worker reads from the arguments that the daemon starts it with.
use nfqttl.Base.{
  ℕ, ◌^◌, ◌≤◌, ◌<◌, ◌≡◌, refl, sym, subst, arith, Bool, true, false, ◌||◌, ◌==◌, if◌then◌else◌,
  Bool-cases, ◌⊎◌, inl, inr, List, [], ◌∷◌, some, ok,
}
use nfqttl.Base.Text.{
  Text, codes, text_eq, text_eq_iff, some_of, has_text, starts_with, to_text, digits_up,
}
use nfqttl.Base.Numerals.{parse_uint-to_text, to_text_plain}
use nfqttl.Cli.{arg_value, parse_num, is_bad, worker_args}
use nfqttl.Daemon.Workers.{Settings, spawn_args}

-- A text that does not begin like an option is none.
not_option :
    (t name : Text)
    → starts_with (codes "--") t ≡ false
    → starts_with (codes "--") name ≡ true
    → text_eq t name ≡ false
not_option t name h k = elim (Bool-cases (text_eq t name)) [
  | inr differ ↦ differ
  | inl same ↦
      clash (subst (λ u. starts_with (codes "--") u ≡ false) ((text_eq_iff t name).0 same) h)
]
  where
    clash : starts_with (codes "--") name ≡ false → text_eq t name ≡ false
    clash f = ground arith

-- The first `name` stands before `v`.
abbrev Found : Text → Text → List Text → Type 0
Found name v [] = ⊥
Found name v (a ∷ []) = ⊥
Found name v (a ∷ b ∷ l) =
    ((a ≡ name) × (b ≡ v)) ⊎ ((text_eq a name ≡ false) × Found name v (b ∷ l))

Found-arg_value : (name v : Text) (l : List Text) → Found name v l → arg_value l name ≡ some v
unfolding arg_value
Found-arg_value name v [] h = absurd h
Found-arg_value name v (a ∷ []) h = absurd h
Found-arg_value name v (a ∷ b ∷ l) (inl (e, f)) =
    let here : text_eq a name ≡ true = (text_eq_iff a name).1 e in rw (here, f) refl
Found-arg_value name v (a ∷ b ∷ l) (inr (differs, h)) =
    rw differs (Found-arg_value name v (b ∷ l) h)

Found-has_text : (name v : Text) (l : List Text) → Found name v l → has_text l name ≡ true
unfolding some_of
Found-has_text name v [] h = absurd h
Found-has_text name v (a ∷ []) h = absurd h
Found-has_text name v (a ∷ b ∷ l) (inl (e, f)) =
    let here : text_eq name a ≡ true = (text_eq_iff name a).1 (sym e) in rw here refl
Found-has_text name v (a ∷ b ∷ l) (inr (differs, h)) = or_true _ _ (Found-has_text name v (b ∷ l) h)
  where
    or_true : (b c : Bool) → c ≡ true → (b || c) ≡ true
    or_true b c e = ground arith

-- A number that stands after its option is read back.
parse_num-to_text :
    (w n default : ℕ) (name : Text) (l : List Text)
    → n < 2 ^ w
    → 2 ^ w ≤ 2 ^ 64
    → Found name (to_text n) l
    → parse_num w l name default ≡ ok n
unfolding parse_num
parse_num-to_text w n default name l small b h =
    rw
      (
        Found-has_text name (to_text n) l h,
        Found-arg_value name (to_text n) l h,
        parse_uint-to_text (2 ^ w) n small b,
      )
      refl

abbrev bit_of : Bool → ℕ
bit_of b = if b then 1 else 0

bit_text : (b : Bool) → codes (if b then "1" else "0") ≡ to_text (bit_of b)
unfolding digits_up
bit_text true = refl
bit_text false = refl

bit_read : (b : Bool) → (bit_of b == 1) ≡ b
bit_read true = refl
bit_read false = refl

-- The values that a worker accepts.
pub record IsFit (x : Settings) : Type 0 where
  pub ttl_range : (1 ≤ x.ttl) × (x.ttl ≤ 255)
  pub maxlen_range : (256 ≤ x.queue_maxlen) × (x.queue_maxlen ≤ 32768)
  pub rcvbuf_range : (1 ≤ x.rcvbuf_mb) × (x.rcvbuf_mb ≤ 64)

module _ (x : Settings) (q : ℕ) (fit : IsFit x)
    (plain : starts_with (codes "--") x.exe ≡ false) where
  abbrev args : List Text
  args = x.exe ∷ spawn_args x q

  no_exe : (name : Text) → starts_with (codes "--") name ≡ true → text_eq x.exe name ≡ false
  no_exe name k = not_option x.exe name plain k

  no_number :
      (n : ℕ) (name : Text)
      → starts_with (codes "--") name ≡ true
      → text_eq (to_text n) name ≡ false
  no_number n name k = not_option (to_text n) name (to_text_plain n) k

  at_queue : Found (codes "--queue") (to_text q) args
  unfolding text_eq starts_with
  at_queue = inr (no_exe _ refl, inr (refl, inl (refl, refl)))

  at_ttl : Found (codes "--ttl") (to_text x.ttl) args
  unfolding text_eq starts_with
  at_ttl = inr (no_exe _ refl, inr (refl, inr (refl, inr (no_number q _ refl, inl (refl, refl)))))

  at_maxlen : Found (codes "--queue-maxlen") (to_text x.queue_maxlen) args
  unfolding text_eq starts_with
  at_maxlen = inr (
    no_exe _ refl,
    inr (
      refl,
      inr (
        refl,
        inr (no_number q _ refl, inr (refl, inr (no_number x.ttl _ refl, inl (refl, refl)))),
      ),
    ),
  )

  at_rcvbuf : Found (codes "--rcvbuf-mb") (to_text x.rcvbuf_mb) args
  unfolding text_eq starts_with
  at_rcvbuf = inr (
    no_exe _ refl,
    inr (
      refl,
      inr (
        refl,
        inr (
          no_number q _ refl,
          inr (
            refl,
            inr (
              no_number x.ttl _ refl,
              inr (refl, inr (no_number x.queue_maxlen _ refl, inl (refl, refl))),
            ),
          ),
        ),
      ),
    ),
  )

  at_gso : Found (codes "--gso") (to_text (bit_of x.gso)) args
  unfolding text_eq starts_with
  at_gso = inr (
    no_exe _ refl,
    inr (
      refl,
      inr (
        refl,
        inr (
          no_number q _ refl,
          inr (
            refl,
            inr (
              no_number x.ttl _ refl,
              inr (
                refl,
                inr (
                  no_number x.queue_maxlen _ refl,
                  inr (refl, inr (no_number x.rcvbuf_mb _ refl, inl (refl, bit_text x.gso))),
                ),
              ),
            ),
          ),
        ),
      ),
    ),
  )

  is_bad-false : 1 ≤ q → is_bad q x.ttl x.queue_maxlen x.rcvbuf_mb (bit_of x.gso) ≡ false
  is_bad-false h = ground (arith, fit.ttl_range, fit.maxlen_range, fit.rcvbuf_range, h)

  -- For a queue from 1 to 65535, a TTL from 1 to 255, 256 to 32768 packets in the queue, a buffer of
  -- 1 to 64 MB, and a path of the program that does not begin like an option: the worker reads from
  -- its arguments exactly the values that the daemon has put there.
  pub worker_args-spawn_args :
      1 ≤ q
      → q < 2 ^ 16
      → worker_args args
        ≡ ok (record {
          queue = q;
          ttl = x.ttl;
          queue_maxlen = x.queue_maxlen;
          rcvbuf_mb = x.rcvbuf_mb;
          gso = x.gso;
        })
  unfolding worker_args
  worker_args-spawn_args lo hi =
      rw
        (
          parse_num-to_text 16 q 6464 (codes "--queue") args hi (omega arith) at_queue,
          parse_num-to_text 16 x.ttl 64 (codes "--ttl") args (omega (arith, fit.ttl_range))
              (omega arith) at_ttl,
          parse_num-to_text 32 x.queue_maxlen 4096 (codes "--queue-maxlen") args
              (omega (arith, fit.maxlen_range)) (omega arith) at_maxlen,
          parse_num-to_text 32 x.rcvbuf_mb 8 (codes "--rcvbuf-mb") args
              (omega (arith, fit.rcvbuf_range)) (omega arith) at_rcvbuf,
          parse_num-to_text 8 (bit_of x.gso) 0 (codes "--gso") args (ground arith) (omega arith)
              at_gso,
          is_bad-false lo,
          bit_read x.gso,
        )
        refl
