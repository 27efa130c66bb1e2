-- ===== src/Firewall/Jumps.antt =====
-- How the jumps to a chain are deleted.
use nfqttl.Base.{
  ℕ, zero, suc, ◌≡◌, refl, ◌∙◌, ap, Bool, true, false, not, Bool-cases, inl, inr, List, [], ◌∷◌,
}
use nfqttl.Base.Text.{Text, text_eq, keep_if}
use nfqttl.Net.{join}
use nfqttl.Firewall.{check, delete, Tool, jump_to, del_jump_rounds}
use nfqttl.Firewall.Run.{andalso, orelse, Ends, Ends-andalso, Ends-map}
use nfqttl.Firewall.Laws.{remove_first, has, Same, Changed, Iptables}

-- The rules other than `r`.
abbrev pub others : Text → List Text → List Text
others r rs = keep_if (λ q. not (text_eq r q)) rs

others-remove_first : (r : Text) (rs : List Text) → others r (remove_first r rs) ≡ others r rs
unfolding keep_if remove_first
others-remove_first r [] = refl
others-remove_first r (q ∷ qs) = elim (Bool-cases (text_eq r q)) [
  | inl same ↦ rw same refl
  | inr differ ↦ rw differ (rw differ (ap (λ t. q ∷ t) (others-remove_first r qs)))
]

module _ {S : Type 0} (t : Tool S) (w : Iptables t) where
  -- Of the chain `p` only rules that are `r` may have gone.
  pub record Purged (p r : Text) (s u : S) : Type 0 where
    pub kept : others r (w.rules p u) ≡ others r (w.rules p s)
    pub elsewhere : (d : Text) → text_eq p d ≡ false → w.rules d u ≡ w.rules d s

  Same-Purged : (p r : Text) (s u : S) → Same w.rules s u → Purged p r s u
  Same-Purged p r s u h = record { kept = ap (others r) (h p); elsewhere = λ d ne. h d }

  pub Purged-trans : (p r : Text) (s u v : S) → Purged p r s u → Purged p r u v → Purged p r s v
  Purged-trans p r s u v h k = record {
    kept = k.kept ∙ h.kept;
    elsewhere = λ d ne. k.elsewhere d ne ∙ h.elsewhere d ne;
  }

  Changed-Purged :
      (p r : Text) (s u : S) → Changed w.rules p (remove_first r (w.rules p s)) s u → Purged p r s u
  Changed-Purged p r s u h = record {
    kept = ap (others r) h.here ∙ others-remove_first r (w.rules p s);
    elsewhere = h.elsewhere;
  }

  -- A success leaves no jump.
  abbrev pub NoJump : Text → Text → S → S → Type 0
  NoJump p c s u = Purged p (join (jump_to c)) s u × (has (join (jump_to c)) (w.rules p u) ≡ false)

  NoJump-after :
      (p c : Text) (s u v : S) → Purged p (join (jump_to c)) s u → NoJump p c u v → NoJump p c s v
  NoJump-after p c s u v h (k, gone) = (Purged-trans p (join (jump_to c)) s u v h k, gone)

  pub del_jump_rounds-Ends :
      (n : ℕ) (p c : Text) (s : S)
      → Ends (NoJump p c s) (Purged p (join (jump_to c)) s) (del_jump_rounds t n p c s)
  unfolding del_jump_rounds
  del_jump_rounds-Ends zero p c s = Same-Purged p _ s s (λ d. refl)
  del_jump_rounds-Ends (suc n) p c s =
      checked (t.run (check p (jump_to c)) s) (w.check_law p (jump_to c) s)
        (w.check_answered p (jump_to c) s) (del_jump_rounds-Ends n p c)
    where
      r : Text
      r = join (jump_to c)

      checked :
          (m : Bool × S)
          → Ends (λ u. Same w.rules s u × (has r (w.rules p s) ≡ true)) (Same w.rules s) m
          → (m.0 ≡ false → has r (w.rules p s) ≡ false)
          → ((v : S) → Ends (NoJump p c v) (Purged p r v) (del_jump_rounds t n p c v))
          → Ends (NoJump p c s) (Purged p r s) (
              orelse
                (not m.0, m.1)
                (λ u. andalso (t.run (delete p (jump_to c)) u) (del_jump_rounds t n p c)))
      checked (false, u) same gone rest =
          (Same-Purged p r s u same, ap (has r) (same p) ∙ gone refl)
      checked (true, u) (same, there) gone rest =
          let first = Same-Purged p r s u same in
          Ends-andalso (Changed w.rules p (remove_first r (w.rules p u)) u) (Same w.rules u)
            (NoJump p c s) (Purged p r s) (t.run (delete p (jump_to c)) u) (del_jump_rounds t n p c)
            (w.delete_law p (jump_to c) u)
            (λ v h.
              let second = Purged-trans p r s u v first (Changed-Purged p r u v h) in
              Ends-map (NoJump p c v) (Purged p r v) (NoJump p c s) (Purged p r s)
                (del_jump_rounds t n p c v) (rest v) (λ x k. NoJump-after p c s v x second k)
                (λ x k. Purged-trans p r s v x second k))
            (λ v h. Purged-trans p r s u v first (Same-Purged p r u v h))
