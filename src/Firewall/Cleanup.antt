-- ===== src/Firewall/Cleanup.antt =====
-- What `cleanup4` and `cleanup6` remove, and what the probes leave.
use nfqttl.Base.{
  ◌≡◌, refl, ◌∙◌, sym, ap, arith, Bool, true, false, ◌||◌, not, if◌then◌else◌, Bool-cases, inl, inr,
  List, [], ◌∷◌, All,
}
use nfqttl.Base.Text.{Text, text_eq, text_eq_iff, some_of, keep_if}
use nfqttl.Net.{join}
use nfqttl.Firewall.{Tool, forward, jump_to, del_jump, del_jumps}
use nfqttl.Firewall.Run.{Ends, Ends-andalso, Ends-map}
use nfqttl.Firewall.Laws.{has, Iptables}
use nfqttl.Firewall.Jumps.{others, Purged, NoJump, del_jump_rounds-Ends}

-- The jump to one of the chains.
unfoldable pub is_jump : List Text → Text → Bool
is_jump [] r = false
is_jump (c ∷ cs) r = text_eq (join (jump_to c)) r || is_jump cs r

-- The rules that are no jump to one of the chains.
abbrev pub without : List Text → List Text → List Text
without cs rs = keep_if (λ r. not (is_jump cs r)) rs

-- Dropping the jumps to one of the chains first makes no difference.
without-others :
    (cs : List Text) (c : Text) (rs : List Text)
    → ((r : Text) → text_eq (join (jump_to c)) r ≡ true → is_jump cs r ≡ true)
    → without cs (others (join (jump_to c)) rs) ≡ without cs rs
unfolding keep_if
without-others cs c [] h = refl
without-others cs c (r ∷ rs) h = elim (Bool-cases (text_eq (join (jump_to c)) r)) [
  | inl jump ↦ rw jump (rw (h r jump) (without-others cs c rs h))
  | inr other ↦
      rw other (ap (λ x. if not (is_jump cs r) then r ∷ x else x) (without-others cs c rs h))
]

true_not_false : true ≡ false → ⊥
true_not_false e = ground arith

has-others : (r q : Text) (rs : List Text) → text_eq q r ≡ false → has r (others q rs) ≡ has r rs
unfolding keep_if some_of
has-others r q [] ne = refl
has-others r q (p ∷ rs) ne = elim (Bool-cases (text_eq q p)) [
  | inr other ↦ rw other (ap (λ x. text_eq r p || x) (has-others r q rs ne))
  | inl dropped ↦
      let not_r : text_eq r p ≡ false = differs ((text_eq_iff q p).0 dropped) in
      rw dropped (rw not_r (has-others r q rs ne))
]
  where
    differs : q ≡ p → text_eq r p ≡ false
    differs e = elim (Bool-cases (text_eq r p)) [
      | inr ne' ↦ ne'
      | inl alike ↦
          absurd
            (true_not_false (sym ((text_eq_iff q r).1 (e ∙ sym ((text_eq_iff r p).0 alike))) ∙ ne))
    ]

-- One of the chains has the name.
abbrev pub is_among : List Text → Text → Bool
is_among cs d = some_of (λ c. text_eq c d) cs

module _ {S : Type 0} (t : Tool S) (w : Iptables t) where
  -- The rules of `FORWARD` that are no jumps, and the chains elsewhere, are as they were.
  pub record IsSpared (jumps chains : List Text) (s u : S) : Type 0 where
    pub kept : without jumps (w.rules forward u) ≡ without jumps (w.rules forward s)
    pub foreign :
        (d : Text)
        → text_eq forward d ≡ false
        → is_among chains d ≡ false
        → w.rules d u ≡ w.rules d s

  pub IsSpared-trans :
      (jumps chains : List Text) (s u v : S)
      → IsSpared jumps chains s u
      → IsSpared jumps chains u v
      → IsSpared jumps chains s v
  IsSpared-trans jumps chains s u v h k = record {
    kept = k.kept ∙ h.kept;
    foreign = λ d a b. k.foreign d a b ∙ h.foreign d a b;
  }

  Purged-IsSpared :
      (jumps chains : List Text) (c : Text) (s u : S)
      → ((r : Text) → text_eq (join (jump_to c)) r ≡ true → is_jump jumps r ≡ true)
      → Purged t w forward (join (jump_to c)) s u
      → IsSpared jumps chains s u
  Purged-IsSpared jumps chains c s u h p = record {
    kept =
        sym (without-others jumps c (w.rules forward u) h)
        ∙ ap (without jumps) p.kept
        ∙ without-others jumps c (w.rules forward s) h;
    foreign = λ d a b. p.elsewhere d a;
  }

  -- No jump to the chain.
  abbrev pub Gone : Text → S → Type 0
  Gone c u = has (join (jump_to c)) (w.rules forward u) ≡ false

  NoJump-Gone : (b c : Text) (s u : S) → Gone b s → NoJump t w forward c s u → Gone b u
  NoJump-Gone b c s u gone (p, none_left) =
      elim (Bool-cases (text_eq (join (jump_to c)) (join (jump_to b)))) [
        | inl same ↦
            ap (λ r. has r (w.rules forward u))
              (sym ((text_eq_iff (join (jump_to c)) (join (jump_to b))).0 same))
            ∙ none_left
        | inr differ ↦
            sym (has-others (join (jump_to b)) (join (jump_to c)) (w.rules forward u) differ)
            ∙ ap (has (join (jump_to b))) p.kept
            ∙ has-others (join (jump_to b)) (join (jump_to c)) (w.rules forward s) differ
            ∙ gone
      ]

  -- Within the jumps, those to `done` are gone already.
  pub del_jumps-Ends :
      (jumps chains cs : List Text) (done : List Text) (s : S)
      → ((r : Text) → is_jump cs r ≡ true → is_jump jumps r ≡ true)
      → All (λ b. Gone b s) done
      → Ends
          (λ u. IsSpared jumps chains s u × All (λ b. Gone b u) done × All (λ b. Gone b u) cs)
          (IsSpared jumps chains s)
          (del_jumps t cs s)
  unfolding del_jumps is_jump
  del_jumps-Ends jumps chains [] done s sub gone =
      (record { kept = refl; foreign = λ d a b. refl }, gone, tt)
  del_jumps-Ends jumps chains (c ∷ cs) done s sub gone =
      let mine : (r : Text) → text_eq (join (jump_to c)) r ≡ true → is_jump jumps r ≡ true =
        λ r e. sub r (rw e refl) in
      Ends-andalso (NoJump t w forward c s) (Purged t w forward (join (jump_to c)) s) _ _
        (del_jump t forward c s) (del_jumps t cs) (del_jump_rounds-Ends t w 16 forward c s)
        (λ u (p, none_left).
          let spared = Purged-IsSpared jumps chains c s u mine p in
          Ends-map _ (IsSpared jumps chains u) _ _ (del_jumps t cs u)
            (del_jumps-Ends jumps chains cs (c ∷ done) u (λ r e. sub r (or_right r e))
              (none_left, All-Gone done s u (p, none_left) gone))
            (λ v (k, before, rest).
              (IsSpared-trans jumps chains s u v spared k, before.1, (before.0, rest)))
            (λ v k. IsSpared-trans jumps chains s u v spared k))
        (λ u p. Purged-IsSpared jumps chains c s u mine p)
    where
      or_right :
          (r : Text) → is_jump cs r ≡ true → (text_eq (join (jump_to c)) r || is_jump cs r) ≡ true
      or_right r e = ground (arith, e)

      All-Gone :
          (bs : List Text) (s u : S)
          → NoJump t w forward c s u
          → All (λ b. Gone b s) bs
          → All (λ b. Gone b u) bs
      All-Gone [] s u p h = tt
      All-Gone (b ∷ bs) s u p (g, h) = (NoJump-Gone b c s u g p, All-Gone bs s u p h)
