-- ===== src/Config/Validate/Accepts.antt =====
-- What a configuration that passes `validate` satisfies once it is loaded.
use nfqttl.Base.{
  ℕ, ◌+◌, ◌^◌, ◌≤◌, ◌<◌, ◌≡◌, ◌≢◌, true, false, ◌||◌, arith, ◌==◌, ◌⊎◌, Bool-cases, Option-cases,
  inl, inr, List, [], ◌∷◌, Option, none, some, ok, Post, Post-bind, Post-cases,
}
use nfqttl.Base.Text.{
  Text, codes, text_eq_iff, bytes, len, some_of, has_text, keep_if-every, trim, split_once,
  split_whitespace, lines, starts_with, parse_uint, parse_uint_narrow, some_of-has_text,
}
use nfqttl.Config.{
  Config, default, valid_iface, Key, key_of, set_key, unquote, is_skipped, load_line, load_lines,
  cap_backlog, load,
}
use nfqttl.Config.Validate.{
  bounds, is_valid, Seen, check_value, check_line, check_lines, check_sqm, validate,
}

-- How far `validate` and `load` have read alike.
record IsAlike (s : Seen) (c : Config) : Type 0 where
  down : c.downstreams ≡ s.down
  up : c.upstreams ≡ s.up
  up_kbit : c.sqm_up_kbit ≤ 1000000
  down_kbit : c.sqm_down_kbit ≤ 1000000
  up_iface : (len c.sqm_up_iface == 0 || valid_iface c.sqm_up_iface) ≡ true
  down_iface : (len c.sqm_down_iface == 0 || valid_iface c.sqm_down_iface) ≡ true

check_value-IsAlike :
    (i : ℕ) (k : Key) (v : Text) (s : Seen) (c : Config)
    → IsAlike s c
    → Post (λ t. IsAlike t (set_key k v c)) (check_value i k v s)
unfolding check_value bounds is_valid set_key
check_value-IsAlike i Key.downstreams v s c h =
    ground (arith, keep_if-every valid_iface (split_whitespace v))
check_value-IsAlike i Key.upstreams v s c h =
    ground (arith, keep_if-every valid_iface (split_whitespace v))
check_value-IsAlike i Key.sqm_up_kbit v s c h = elim (Option-cases (parse_uint (2 ^ 64) v)) [
  | inl e ↦ ground arith
  | inr (n, e) ↦ ground (arith, e, parse_uint_narrow (2 ^ 64) (2 ^ 32) n v)
]
check_value-IsAlike i Key.sqm_down_kbit v s c h = elim (Option-cases (parse_uint (2 ^ 64) v)) [
  | inl e ↦ ground arith
  | inr (n, e) ↦ ground (arith, e, parse_uint_narrow (2 ^ 64) (2 ^ 32) n v)
]
check_value-IsAlike i _ v s c h = ground arith

check_line-IsAlike :
    (i : ℕ) (l : Text) (s : Seen) (c : Config)
    → IsAlike s c
    → Post (λ t. IsAlike t (load_line c l)) (check_line i l s)
unfolding check_line load_line
check_line-IsAlike i l s c h = elim (Bool-cases (is_skipped (trim l))) [
  | inl skipped ↦ rw skipped h
  | inr kept ↦ elim (Option-cases (split_once b'=' (trim l))) [
    | inl no_value ↦ rw (kept, no_value) tt
    | inr ((k, v), pair) ↦ elim (Bool-cases (has_text s.names (trim k))) [
      | inl twice ↦ rw (kept, pair) (rw twice tt)
      | inr once ↦
          rw (kept, pair)
            (rw once (
              check_value-IsAlike i (key_of (trim k)) (unquote v)
                (record s { names = trim k ∷ s.names }) c
                (record {
                  down = h.down;
                  up = h.up;
                  up_kbit = h.up_kbit;
                  down_kbit = h.down_kbit;
                  up_iface = h.up_iface;
                  down_iface = h.down_iface;
                })))
    ]
  ]
]

check_lines-IsAlike :
    (ls : List Text) (i : ℕ) (s : Seen) (c : Config)
    → IsAlike s c
    → Post (λ t. IsAlike t (load_lines c ls)) (check_lines i ls s)
unfolding check_lines load_lines
check_lines-IsAlike [] i s c h = h
check_lines-IsAlike (l ∷ ls) i s c h =
    Post-bind (λ t. IsAlike t (load_line c l)) (λ t. IsAlike t (load_lines (load_line c l) ls)) _ _
      (check_line-IsAlike i l s c h) (λ t w. check_lines-IsAlike ls (i + 1) t (load_line c l) w)

-- A side that is shaped has a rate of 100 to 1000000 kbit/s and a valid interface.
abbrev pub SideFits : ℕ → Text → Type 0
SideFits rate iface = 0 < rate → (100 ≤ rate) × (rate ≤ 1000000) × (valid_iface iface ≡ true)

-- The conditions between the settings of a configuration.
pub record IsAccepted (c : Config) : Type 0 where
  pub up_side : SideFits c.sqm_up_kbit c.sqm_up_iface
  pub down_side : SideFits c.sqm_down_kbit c.sqm_down_iface
  pub no_offload : (0 < c.sqm_up_kbit) ⊎ (0 < c.sqm_down_kbit) → c.disable_offload ≡ true
  pub interfaces_differ :
      0 < c.sqm_up_kbit → 0 < c.sqm_down_kbit → c.sqm_up_iface ≢ c.sqm_down_iface
  pub no_clat :
      (0 < c.sqm_up_kbit) ⊎ (0 < c.sqm_down_kbit)
      → (starts_with (codes "v4-") c.sqm_up_iface ≡ false)
        × (starts_with (codes "clat") c.sqm_up_iface ≡ false)
  pub disjoint : (s : Text) → has_text c.downstreams s ≡ true → has_text c.upstreams s ≡ false

check_sqm-Ends : (c : Config) → Post (λ _. Unit) (check_sqm c)
unfolding check_sqm
check_sqm-Ends c = ground arith

module _ (s : Seen) (c : Config) (h : IsAlike s c) (e : check_sqm c ≡ ok tt) where
  up_checked : SideFits c.sqm_up_kbit c.sqm_up_iface
  unfolding check_sqm
  up_checked = λ p. ground (arith, e, p, h.up_iface, h.up_kbit)

  down_checked : SideFits c.sqm_down_kbit c.sqm_down_iface
  unfolding check_sqm
  down_checked = λ p. ground (arith, e, p, h.down_iface, h.down_kbit)

  offload_off : (0 < c.sqm_up_kbit) ⊎ (0 < c.sqm_down_kbit) → c.disable_offload ≡ true
  unfolding check_sqm
  offload_off = λ p. ground (arith, e, p)

  ifaces_differ : 0 < c.sqm_up_kbit → 0 < c.sqm_down_kbit → c.sqm_up_iface ≢ c.sqm_down_iface
  unfolding check_sqm
  ifaces_differ =
      λ p q same. ground (arith, e, p, q, (text_eq_iff c.sqm_up_iface c.sqm_down_iface).1 same)

  clat_refused :
      (0 < c.sqm_up_kbit) ⊎ (0 < c.sqm_down_kbit)
      → (starts_with (codes "v4-") c.sqm_up_iface ≡ false)
        × (starts_with (codes "clat") c.sqm_up_iface ≡ false)
  unfolding check_sqm
  clat_refused = λ p. ground (arith, e, p)

check_sqm-IsAccepted :
    (s : Seen) (c : Config)
    → IsAlike s c
    → some_of (has_text s.up) s.down ≡ false
    → Post (λ _. IsAccepted c) (check_sqm c)
check_sqm-IsAccepted s c h d = elim (Post-cases (λ _. Unit) (check_sqm c) (check_sqm-Ends c)) [
  | inr (x, e) ↦ rw e tt
  | inl (u, e, _) ↦ rw e (record {
    up_side = up_checked s c h e;
    down_side = down_checked s c h e;
    no_offload = offload_off s c h e;
    interfaces_differ = ifaces_differ s c h e;
    no_clat = clat_refused s c h e;
    disjoint = λ t. rw (h.down, h.up) (some_of-has_text s.up s.down t d);
  })
]

cap_backlog-IsAlike : (s : Seen) (c : Config) → IsAlike s c → IsAlike s (cap_backlog c)
cap_backlog-IsAlike s c h = ground arith

nothing_seen-IsAlike : IsAlike (record { names = []; down = []; up = [] }) default
unfolding bytes
nothing_seen-IsAlike = ground arith

-- Validation ends on every file. If it accepts one, the configuration loaded from that file has
-- SQM rates of 0 or of 100 to 1000000 kbit/s on valid interfaces, with offload disabled, no CLAT
-- device for the upload and different interfaces for the two directions, and no interface is both
-- a downstream and an upstream.
pub validate-IsAccepted : (file : Option Text) → Post (λ _. IsAccepted (load file)) (validate file)
unfolding validate load
validate-IsAccepted none = tt
validate-IsAccepted (some text) =
    Post-bind (λ t. IsAlike t (load_lines default (lines text)))
      (λ _. IsAccepted (cap_backlog (load_lines default (lines text)))) _ _
      (check_lines-IsAlike (lines text) 1 (record { names = []; down = []; up = [] }) default
        nothing_seen-IsAlike)
      (λ t w. elim (Bool-cases (some_of (has_text t.up) t.down)) [
        | inl common ↦ rw common tt
        | inr apart ↦ rw apart (
            check_sqm-IsAccepted t (cap_backlog (load_lines default (lines text)))
              (cap_backlog-IsAlike t (load_lines default (lines text)) w) apart)
      ])
