-- ===== src/Firewall/Install.antt =====
-- What an installation does to the rules, whether it succeeds or fails.
use nfqttl.Base.{
  suc, ◌-◌, ◌≡◌, refl, ◌∙◌, sym, ap, arith, Bool, true, false, Bool-cases, inl, inr, List, [], ◌∷◌,
  length, Option,
}
use nfqttl.Base.Text.{Text, text_eq, text_eq_refl, keep_if}
use nfqttl.Net.{join}
use nfqttl.Firewall.{
  new, insert, Tool, forward, hook_of, jump_to, is_rule, hook_ok, trim_hook, hook_first, activate,
  point, del_jump,
}
use nfqttl.Firewall.Run.{andalso, after, Ends, Ends-andalso, Ends-map}
use nfqttl.Firewall.Laws.{Same, Changed, Changed-trans, Same-Changed, Iptables}
use nfqttl.Firewall.Jumps.{others, Purged, NoJump, del_jump_rounds-Ends}
use nfqttl.Firewall.Activate.{
  is_head, hook_jump, hook_ok-is_head, Apart, Apart-trans, Same-Apart, Changed-Apart, Purged-Apart,
  Started, point-Ends, delete_seconds-Ends, length-map_lines,
}

module _ {S : Type 0} (t : Tool S) (w : Iptables t) where
  trim_hook-Ends :
      (v6 : Bool) (r : Text) (qs : List Text) (s : S)
      → w.rules (hook_of v6) s ≡ r ∷ qs
      → Ends (Changed w.rules (hook_of v6) (r ∷ []) s) (Apart t w v6 s) (trim_hook t (hook_of v6) s)
  unfolding trim_hook
  trim_hook-Ends v6 r qs s e =
      let size : length (keep_if is_rule (t.listed (hook_of v6) s)) ≡ suc (length qs) =
        ap length (w.listing_answered (hook_of v6) s)
        ∙ length-map_lines (hook_of v6) (w.rules (hook_of v6) s)
        ∙ ap length e in
      delete_seconds-Ends t w (length (keep_if is_rule (t.listed (hook_of v6) s)) - 1) v6 r qs s e
        (omega (arith, size))

  -- `FORWARD` begins with the only jump to the hook.
  abbrev Leads : Bool → S → S → Type 0
  Leads v6 s u =
      (is_head (hook_jump v6) (w.rules forward u) ≡ true) × Purged t w forward (hook_jump v6) s u

  hook_first-Ends :
      (v6 : Bool) (s : S)
      → Ends (Leads v6 s) (Purged t w forward (hook_jump v6) s) (hook_first t v6 s)
  unfolding hook_first keep_if
  hook_first-Ends v6 s = elim (Bool-cases (hook_ok t v6 s)) [
    | inl first ↦
        rw first
          (sym (hook_ok-is_head t w v6 s) ∙ first, record { kept = refl; elsewhere = λ d ne. refl })
    | inr not_first ↦ rw not_first (
        Ends-andalso (NoJump t w forward (hook_of v6) s) (Purged t w forward (hook_jump v6) s) _ _
          (del_jump t forward (hook_of v6) s) (t.run (insert forward (jump_to (hook_of v6))))
          (del_jump_rounds-Ends t w 16 forward (hook_of v6) s)
          (λ u (p, gone).
            Ends-map (Changed w.rules forward (hook_jump v6 ∷ w.rules forward u) u) (Same w.rules u)
              _ _ _ (w.insert_law forward (jump_to (hook_of v6)) u)
              (λ v h. (
                ap (is_head (hook_jump v6)) h.here ∙ rw (text_eq_refl (hook_jump v6), gone) refl,
                record {
                  kept =
                      ap (others (hook_jump v6)) h.here ∙ rw (text_eq_refl (hook_jump v6)) p.kept;
                  elsewhere = λ d ne. h.elsewhere d ne ∙ p.elsewhere d ne;
                },
              ))
              (λ v h. record {
                kept = ap (others (hook_jump v6)) (h forward) ∙ p.kept;
                elsewhere = λ d ne. h d ∙ p.elsewhere d ne;
              }))
          (λ u p. p))
  ]

  -- The hook leads to `c`.
  pub record Pointed (v6 : Bool) (c : Text) (s u : S) : Type 0 where
    pub hook_is : w.rules (hook_of v6) u ≡ join (jump_to c) ∷ []
    pub heads : is_head (hook_jump v6) (w.rules forward u) ≡ true
    pub apart : Apart t w v6 s u

  forward_ne_hook : (v6 : Bool) → text_eq forward (hook_of v6) ≡ false
  unfolding text_eq
  forward_ne_hook true = refl
  forward_ne_hook false = refl

  led :
      (v6 : Bool) (c : Text) (s u v : S)
      → Changed w.rules (hook_of v6) (join (jump_to c) ∷ []) s u
      → Leads v6 u v
      → Pointed v6 c s v
  led v6 c s u v h (first, p) = record {
    hook_is = p.elsewhere (hook_of v6) (forward_ne_hook v6) ∙ h.here;
    heads = first;
    apart = Apart-trans t w v6 s u v (Changed-Apart t w v6 _ s u h) (Purged-Apart t w v6 u v p);
  }

  pub activate-Ends :
      (v6 : Bool) (c : Text) (active : Option Text) (s : S)
      → Ends (Pointed v6 c s) (Apart t w v6 s) (activate t v6 c active s)
  unfolding activate
  activate-Ends v6 c active s = made (t.run (new (hook_of v6)) s) (w.new_law (hook_of v6) s)
    where
      trimmed :
          (u : S)
          → Same w.rules s u
          → Ends (Pointed v6 c s) (Apart t w v6 s) (
              andalso
                (point t (hook_of v6) c active u)
                (λ v. andalso (trim_hook t (hook_of v6) v) (hook_first t v6)))
      trimmed u same =
          Ends-andalso (Started t w v6 c u) (Apart t w v6 u) _ _ _ _ (point-Ends t w v6 c active u)
            (λ v (qs, h).
              let sofar = Same-Changed w.rules (hook_of v6) (join (jump_to c) ∷ qs) s u v same h in
              Ends-andalso (Changed w.rules (hook_of v6) (join (jump_to c) ∷ []) v) (Apart t w v6 v)
                _ _ _ _ (trim_hook-Ends v6 (join (jump_to c)) qs v h.here)
                (λ x g.
                  let whole = Changed-trans w.rules (hook_of v6) _ _ s v x sofar g in
                  Ends-map (Leads v6 x) (Purged t w forward (hook_jump v6) x) _ _ _
                    (hook_first-Ends v6 x) (λ y k. led v6 c s x y whole k)
                    (λ y k.
                      Apart-trans t w v6 s x y (Changed-Apart t w v6 _ s x whole)
                        (Purged-Apart t w v6 x y k)))
                (λ x g. Apart-trans t w v6 s v x (Changed-Apart t w v6 _ s v sofar) g))
            (λ v h. Apart-trans t w v6 s u v (Same-Apart t w v6 s u same) h)

      made :
          (m : Bool × S)
          → Ends (Same w.rules s) (Same w.rules s) m
          → Ends (Pointed v6 c s) (Apart t w v6 s) (
              after m (λ u.
                andalso
                  (point t (hook_of v6) c active u)
                  (λ v. andalso (trim_hook t (hook_of v6) v) (hook_first t v6))))
      made (true, u) same = trimmed u same
      made (false, u) same = trimmed u same
