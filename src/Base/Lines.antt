-- ===== src/Base/Lines.antt =====
-- Lines that are written are read back.
use nfqttl.Base.{
  ℕ, zero, suc, ◌+◌, ◌/◌, ◌%◌, ◌≡◌, refl, sym, ap, ◌∙◌, arith, Bool, true, false, ◌&&◌, not, ltb,
  ◌==◌, Bool-cases, inl, inr, [], ◌∷◌, ◌++◌, append-nil, append_assoc,
}
use nfqttl.Base.Text.{Text, every, strip_cr, lines_from, lines, digits_up, to_text}

-- No end of a line.
abbrev pub is_plain : ℕ → Bool
is_plain c = not (c == 10) && not (c == 13)

strip_cr-plain : (t : Text) → every is_plain t ≡ true → strip_cr t ≡ t
unfolding strip_cr every
strip_cr-plain [] h = refl
strip_cr-plain (c ∷ []) h = let e : (c == 13) ≡ false = ground arith in rw e refl
strip_cr-plain (c ∷ d ∷ t) h = ap (λ u. c ∷ u) (strip_cr-plain (d ∷ t) (ground arith))

every_snoc :
    (s : Text) (c : ℕ)
    → every is_plain s ≡ true
    → is_plain c ≡ true
    → every is_plain (s ++ (c ∷ [])) ≡ true
unfolding every
every_snoc [] c h k = ground arith
every_snoc (d ∷ s) c h k = ground (arith, every_snoc s c)

lines_from-line :
    (cur s t : Text)
    → every is_plain cur ≡ true
    → every is_plain s ≡ true
    → lines_from cur (s ++ (10 ∷ t)) ≡ (cur ++ s) ∷ lines_from [] t
unfolding lines_from every
lines_from-line cur [] t hc h =
    ap (λ l. l ∷ lines_from [] t) (strip_cr-plain cur hc ∙ sym (append-nil cur))
lines_from-line cur (c ∷ s) t hc h =
    let e : (c == 10) ≡ false = ground arith in
    let k : is_plain c ≡ true = ground arith in
    rw (e, lines_from)
      (lines_from-line (cur ++ (c ∷ [])) s t (every_snoc cur c hc k) (ground arith)
        ∙ ap (λ l. l ∷ lines_from [] t) (append_assoc cur (c ∷ []) s))

pub lines_of_two :
    (s t : Text)
    → every is_plain s ≡ true
    → every is_plain t ≡ true
    → lines (s ++ (10 ∷ (t ++ (10 ∷ [])))) ≡ s ∷ t ∷ []
unfolding lines_from every
lines_of_two s t hs ht =
    lines_from-line [] s (t ++ (10 ∷ [])) refl hs
    ∙ ap (λ l. s ∷ l) (lines_from-line [] t [] refl ht)

digits_up-plain :
    (k n : ℕ) (t : Text) → every is_plain t ≡ true → every is_plain (digits_up k n t) ≡ true
unfolding digits_up every
digits_up-plain zero n t h = h
digits_up-plain (suc k) n t h = elim (Bool-cases (ltb n 10)) [
  | inl single ↦ rw single (ground (arith, single))
  | inr more ↦ rw more (digits_up-plain k (n / 10) ((b'0' + n % 10) ∷ t) (ground arith))
]

pub to_text-plain : (n : ℕ) → every is_plain (to_text n) ≡ true
unfolding every
to_text-plain n = digits_up-plain 20 n [] refl
