-- ===== src/Firewall/Fill.antt =====
-- The rules that are filled into a chain are those that `rules_ok` expects.
use nfqttl.Base.{
  ℕ, ◌≡◌, refl, ◌∙◌, sym, ap, Bool, true, false, ltb, if◌then◌else◌, Bool-cases, inl, inr, List, [],
  ◌∷◌, ◌++◌, append_assoc, append-nil, map,
}
use nfqttl.Base.Text.{Text, text_eq, digits_up}
use nfqttl.Net.{join}
use nfqttl.Firewall.{
  append, Tool, rule_words, fill_from, fill, expected_from, expected, expected_line,
  expected_target, target4, target6, Ipv6Plan,
}
use nfqttl.Firewall.Run.{andalso, Ends, Ends-andalso, Ends-map}
use nfqttl.Firewall.Laws.{line_of, Same, Changed, Iptables}

-- The rules of the pairs, as they are kept.
unfoldable pub pairs_from : List Text → Text → List Text → List Text
pairs_from target i [] = []
pairs_from target i (o ∷ up) =
    let rest = pairs_from target i up in
    if text_eq i o then rest else join (rule_words target i o) ∷ rest

unfoldable pub pairs : List Text → List Text → List Text → List Text
pairs target [] up = []
pairs target (i ∷ down) up = pairs_from target i up ++ pairs target down up

module _ {S : Type 0} (t : Tool S) (w : Iptables t) where
  -- The chain got the rules at its end; the other chains are the same.
  abbrev Extended : Text → List Text → S → S → Type 0
  Extended c rs s u = Changed w.rules c (w.rules c s ++ rs) s u

  -- Only the chain was changed.
  abbrev pub Only : Text → S → S → Type 0
  Only c s u = (d : Text) → text_eq c d ≡ false → w.rules d u ≡ w.rules d s

  Extended-Only :
      (c : Text) (rs : List Text) (s u v : S) → Extended c rs s u → Only c u v → Only c s v
  Extended-Only c rs s u v h k = λ d ne. k d ne ∙ h.elsewhere d ne

  Extended-trans :
      (c : Text) (rs qs : List Text) (s u v : S)
      → Extended c rs s u
      → Extended c qs u v
      → Extended c (rs ++ qs) s v
  Extended-trans c rs qs s u v h k = record {
    here = k.here ∙ ap (λ x. x ++ qs) h.here ∙ append_assoc (w.rules c s) rs qs;
    elsewhere = λ d ne. k.elsewhere d ne ∙ h.elsewhere d ne;
  }

  Extended-nil : (c : Text) (s : S) → Extended c [] s s
  Extended-nil c s = record { here = sym (append-nil (w.rules c s)); elsewhere = λ d ne. refl }

  -- A step that extends the chain goes on with one that does.
  Extended-andalso :
      (c : Text) (rs qs : List Text) (s : S) (m : Bool × S) (k : S → Bool × S)
      → Ends (Extended c rs s) (Only c s) m
      → ((u : S) → Ends (Extended c qs u) (Only c u) (k u))
      → Ends (Extended c (rs ++ qs) s) (Only c s) (andalso m k)
  Extended-andalso c rs qs s m k h hk =
      Ends-andalso (Extended c rs s) (Only c s) (Extended c (rs ++ qs) s) (Only c s) m k h
        (λ u e.
          Ends-map (Extended c qs u) (Only c u) _ _ (k u) (hk u)
            (λ v g. Extended-trans c rs qs s u v e g) (λ v g. Extended-Only c rs s u v e g))
        (λ u o. o)

  append-Ends :
      (c : Text) (r : List Text) (s : S)
      → Ends (Extended c (join r ∷ []) s) (Only c s) (t.run (append c r) s)
  append-Ends c r s =
      Ends-map (Extended c (join r ∷ []) s) (Same w.rules s) _ _ (t.run (append c r) s)
        (w.append_law c r s) (λ u e. e) (λ u h d ne. h d)

  fill_from-Ends :
      (c : Text) (target : List Text) (i : Text) (up : List Text) (s : S)
      → Ends (Extended c (pairs_from target i up) s) (Only c s) (fill_from t c target i up s)
  unfolding fill_from pairs_from
  fill_from-Ends c target i [] s = Extended-nil c s
  fill_from-Ends c target i (o ∷ up) s = elim (Bool-cases (text_eq i o)) [
    | inl same ↦ rw same (fill_from-Ends c target i up s)
    | inr differ ↦ rw differ (
        Extended-andalso c (join (rule_words target i o) ∷ []) (pairs_from target i up) s _ _
          (append-Ends c (rule_words target i o) s) (fill_from-Ends c target i up))
  ]

  pub fill-Ends :
      (c : Text) (target down up : List Text) (s : S)
      → Ends (Extended c (pairs target down up) s) (Only c s) (fill t c target down up s)
  unfolding fill pairs
  fill-Ends c target [] up s = Extended-nil c s
  fill-Ends c target (i ∷ down) up s =
      Extended-andalso c (pairs_from target i up) (pairs target down up) s _ _
        (fill_from-Ends c target i up s) (fill-Ends c target down up)

map-append : (f : Text → Text) (xs ys : List Text) → map f (xs ++ ys) ≡ map f xs ++ map f ys
map-append f [] ys = refl
map-append f (x ∷ xs) ys = ap (λ t. f x ∷ t) (map-append f xs ys)

-- The words of a target make the text that is expected.
pub IsTarget : Text → List Text → Type 0
IsTarget text target =
    (c i o : Text) → line_of c (join (rule_words target i o)) ≡ expected_line c text i o

pairs_from-expected :
    (c text i : Text) (target up : List Text)
    → IsTarget text target
    → map (line_of c) (pairs_from target i up) ≡ expected_from c text i up
unfolding pairs_from expected_from IsTarget
pairs_from-expected c text i target [] h = refl
pairs_from-expected c text i target (o ∷ up) h = elim (Bool-cases (text_eq i o)) [
  | inl same ↦ rw same (pairs_from-expected c text i target up h)
  | inr differ ↦ rw differ (
      ap (λ l. l ∷ map (line_of c) (pairs_from target i up)) (h c i o)
      ∙ ap (λ t. expected_line c text i o ∷ t) (pairs_from-expected c text i target up h))
]

pub pairs-expected :
    (c text : Text) (target down up : List Text)
    → IsTarget text target
    → map (line_of c) (pairs target down up) ≡ expected c text down up
unfolding pairs expected
pairs-expected c text target [] up h = refl
pairs-expected c text target (i ∷ down) up h =
    map-append (line_of c) (pairs_from target i up) (pairs target down up)
    ∙ ap (λ l. l ++ map (line_of c) (pairs target down up))
        (pairs_from-expected c text i target up h)
    ∙ ap (λ l. expected_from c text i up ++ l) (pairs-expected c text target down up h)

pub target4-IsTarget :
    (kernel : Bool) (workers value : ℕ) (mode : Ipv6Plan)
    → IsTarget (expected_target false kernel workers value mode) (target4 kernel workers value)
unfolding IsTarget expected_target join digits_up
target4-IsTarget true workers value mode = λ c i o. refl
target4-IsTarget false workers value mode =
    λ c i o. elim (Bool-cases (ltb 1 workers)) [ inl many ↦ rw many refl | inr one ↦ rw one refl ]

pub target6-IsTarget :
    (mode : Ipv6Plan) (hl workers : ℕ)
    → IsTarget (expected_target true true workers hl mode) (target6 mode hl)
unfolding IsTarget expected_target join digits_up
target6-IsTarget Ipv6Plan.normalize hl workers = λ c i o. refl
target6-IsTarget Ipv6Plan.pass hl workers = λ c i o. refl
target6-IsTarget Ipv6Plan.block hl workers = λ c i o. refl
target6-IsTarget Ipv6Plan.pass_no_ip6tables hl workers = λ c i o. refl
