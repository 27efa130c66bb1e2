-- ===== src/Base/Numerals.antt =====
-- A number that is written in digits is read back.
use nfqttl.Base.{
  ℕ, zero, suc, ◌+◌, ◌-◌, ◌*◌, ◌/◌, ◌%◌, ◌^◌, ◌≤◌, ◌<◌, ◌≡◌, refl, ap, ◌∙◌, arith, Bool, true,
  false, ltb, ◌==◌, in_range, Bool-cases, inl, inr, [], ◌∷◌, some,
}
use nfqttl.Base.Text.{
  Text, codes, starts_with, digits_from, parse_digits, parse_uint, digits_up, to_text,
}

abbrev is_digit_first : Text → Bool
is_digit_first [] = false
is_digit_first (c ∷ t) = in_range 48 57 c

-- One more digit.
digits_from-digit :
    (bound acc d : ℕ) (t : Text)
    → d < 10
    → acc * 10 + d < bound
    → digits_from bound acc ((b'0' + d) ∷ t) ≡ digits_from bound (acc * 10 + d) t
unfolding digits_from
digits_from-digit bound acc d t h k =
    let e : b'0' + d - 48 ≡ d = omega arith in
    let digit : in_range 48 57 (b'0' + d) ≡ true = ground (arith, h) in
    let small : ltb (acc * 10 + d) bound ≡ true = ground (arith, k) in rw (e, digit, small) refl

digits_from-digits_up :
    (bound k n : ℕ) (t : Text)
    → n < 10 ^ k
    → n < bound
    → digits_from bound 0 (digits_up k n t) ≡ digits_from bound n t
unfolding digits_up
digits_from-digits_up bound zero n t h b = let e : n ≡ 0 = omega (arith, h) in rw e refl
digits_from-digits_up bound (suc k) n t h b = elim (Bool-cases (ltb n 10)) [
  | inl single ↦
      let own : 0 * 10 + n ≡ n = omega arith in
      rw single (
        digits_from-digit bound 0 n t (ground (arith, single)) (omega (arith, b))
        ∙ ap (λ m. digits_from bound m t) own)
  | inr more ↦
      let whole : n / 10 * 10 + n % 10 ≡ n = omega arith in
      let left : n / 10 < 10 ^ k = omega (arith, h) in
      rw more (
        digits_from-digits_up bound k (n / 10) ((b'0' + n % 10) ∷ t) left (omega (arith, b))
        ∙ (digits_from-digit bound (n / 10) (n % 10) t (omega arith) (omega (arith, b))
            ∙ ap (λ m. digits_from bound m t) whole))
]

digits_up-first :
    (k n : ℕ) (t : Text) → is_digit_first t ≡ true → is_digit_first (digits_up k n t) ≡ true
unfolding digits_up
digits_up-first zero n t h = h
digits_up-first (suc k) n t h = elim (Bool-cases (ltb n 10)) [
  | inl single ↦ rw single (ground (arith, single))
  | inr more ↦ rw more (digits_up-first k (n / 10) ((b'0' + n % 10) ∷ t) (ground arith))
]

to_text-first : (n : ℕ) → is_digit_first (to_text n) ≡ true
unfolding digits_up
to_text-first n = elim (Bool-cases (ltb n 10)) [
  | inl single ↦ rw single (ground (arith, single))
  | inr more ↦ rw more (digits_up-first 19 (n / 10) ((b'0' + n % 10) ∷ []) (ground arith))
]

parse_uint-digits :
    (bound : ℕ) (t : Text) → is_digit_first t ≡ true → parse_uint bound t ≡ digits_from bound 0 t
unfolding parse_uint parse_digits
parse_uint-digits bound [] h = ground arith
parse_uint-digits bound (c ∷ t) h = let e : (c == b'+') ≡ false = ground (arith, h) in rw e refl

-- `to_string` and `parse`: a number below the bound is read back.
pub parse_uint-to_text :
    (bound n : ℕ) → n < bound → bound ≤ 2 ^ 64 → parse_uint bound (to_text n) ≡ some n
unfolding digits_from
parse_uint-to_text bound n h b =
    parse_uint-digits bound (to_text n) (to_text-first n)
    ∙ digits_from-digits_up bound 20 n [] (omega (arith, h, b)) h

starts_with-digit : (t : Text) → is_digit_first t ≡ true → starts_with (codes "--") t ≡ false
unfolding starts_with
starts_with-digit [] h = ground arith
starts_with-digit (c ∷ t) h = let e : (b'-' == c) ≡ false = ground (arith, h) in rw e refl

-- A number is no option.
pub to_text_plain : (n : ℕ) → starts_with (codes "--") (to_text n) ≡ false
to_text_plain n = starts_with-digit (to_text n) (to_text-first n)
