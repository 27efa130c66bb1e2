-- ===== src/Firewall/Activate.antt =====
-- How the hook is pointed at a chain.
use nfqttl.Base.{
  ℕ, zero, suc, ◌≡◌, refl, ◌∙◌, sym, ap, arith, Bool, true, false, ◌&&◌, not, ==_refl, List, [],
  ◌∷◌, ◌++◌, map, length, Option, none, some,
}
use nfqttl.Base.Text.{Text, codes, text_eq, some_of}
use nfqttl.Net.{join}
use nfqttl.Firewall.{
  flush, append, replace, delete_second, Tool, forward, hook_of, jump_to, is_first, hook_ok,
  delete_seconds, point,
}
use nfqttl.Firewall.Run.{andalso, Ends, Ends-andalso, Ends-orelse, Ends-map}
use nfqttl.Firewall.Laws.{
  line_of, has, Same, Changed, Changed-trans, Same-Changed, Changed-Same, Iptables,
}
use nfqttl.Firewall.Jumps.{others, Purged}

pub length-map_lines : (c : Text) (rs : List Text) → length (map (line_of c) rs) ≡ length rs
length-map_lines c [] = refl
length-map_lines c (r ∷ rs) = ap suc (length-map_lines c rs)

text_eq-append : (p s t : Text) → text_eq (p ++ s) (p ++ t) ≡ text_eq s t
unfolding text_eq
text_eq-append [] s t = refl
text_eq-append (a ∷ p) s t = rw (==_refl a) (text_eq-append p s t)

-- `is_first` of the lines of a chain reads its rules.
abbrev pub is_head : Text → List Text → Bool
is_head r [] = false
is_head r (q ∷ qs) = text_eq q r && not (has r qs)

line_eq : (c r q : Text) → text_eq (line_of c r) (line_of c q) ≡ text_eq r q
line_eq c r q =
    text_eq-append (codes "-A ") (c ++ (b' ' ∷ r)) (c ++ (b' ' ∷ q))
    ∙ text_eq-append c (b' ' ∷ r) (b' ' ∷ q)
    ∙ text_eq-append (b' ' ∷ []) r q

has-lines :
    (c r : Text) (rs : List Text) → some_of (text_eq (line_of c r)) (map (line_of c) rs) ≡ has r rs
unfolding some_of
has-lines c r [] = refl
has-lines c r (q ∷ qs) = rw (line_eq c r q, has-lines c r qs) refl

is_first-lines :
    (c r : Text) (rs : List Text) → is_first (line_of c r) (map (line_of c) rs) ≡ is_head r rs
is_first-lines c r [] = refl
is_first-lines c r (q ∷ qs) = rw (line_eq c q r, has-lines c r qs) refl

abbrev pub hook_jump : Bool → Text
hook_jump v6 = join (jump_to (hook_of v6))

abbrev head_or : Text → List Text → Text
head_or t [] = t
head_or t (x ∷ xs) = x

cons_head : (p r : Text) (ps rs : List Text) → p ∷ ps ≡ r ∷ rs → p ≡ r
cons_head p r ps rs e = ap (head_or p) e

module _ {S : Type 0} (t : Tool S) (w : Iptables t) where
  pub hook_ok-is_head :
      (v6 : Bool) (s : S) → hook_ok t v6 s ≡ is_head (hook_jump v6) (w.rules forward s)
  unfolding hook_ok join
  hook_ok-is_head v6 s =
      ap (is_first (codes "-A FORWARD -j " ++ hook_of v6)) (w.listing_answered forward s)
      ∙ is_first-lines forward (hook_jump v6) (w.rules forward s)

  -- The hook's chain aside, `FORWARD` may have changed in its jumps to the hook.
  pub record Apart (v6 : Bool) (s u : S) : Type 0 where
    pub kept : others (hook_jump v6) (w.rules forward u) ≡ others (hook_jump v6) (w.rules forward s)
    pub elsewhere :
        (d : Text)
        → text_eq (hook_of v6) d ≡ false
        → text_eq forward d ≡ false
        → w.rules d u ≡ w.rules d s

  pub Apart-trans : (v6 : Bool) (s u v : S) → Apart v6 s u → Apart v6 u v → Apart v6 s v
  Apart-trans v6 s u v h k = record {
    kept = k.kept ∙ h.kept;
    elsewhere = λ d a b. k.elsewhere d a b ∙ h.elsewhere d a b;
  }

  pub Same-Apart : (v6 : Bool) (s u : S) → Same w.rules s u → Apart v6 s u
  Same-Apart v6 s u h = record {
    kept = ap (others (hook_jump v6)) (h forward);
    elsewhere = λ d a b. h d;
  }

  pub hook_ne_forward : (v6 : Bool) → text_eq (hook_of v6) forward ≡ false
  unfolding text_eq
  hook_ne_forward true = refl
  hook_ne_forward false = refl

  pub Changed-Apart :
      (v6 : Bool) (rs : List Text) (s u : S) → Changed w.rules (hook_of v6) rs s u → Apart v6 s u
  Changed-Apart v6 rs s u h = record {
    kept = ap (others (hook_jump v6)) (h.elsewhere forward (hook_ne_forward v6));
    elsewhere = λ d a b. h.elsewhere d a;
  }

  pub Purged-Apart : (v6 : Bool) (s u : S) → Purged t w forward (hook_jump v6) s u → Apart v6 s u
  Purged-Apart v6 s u h = record { kept = h.kept; elsewhere = λ d a b. h.elsewhere d b }

  -- The first rule of the hook is the jump to `c`.
  abbrev pub Started : Bool → Text → S → S → Type 0
  Started v6 c s u = (qs : List Text) × Changed w.rules (hook_of v6) (join (jump_to c) ∷ qs) s u

  flush_append :
      (v6 : Bool) (c : Text) (s : S)
      → Ends
          (Started v6 c s)
          (Apart v6 s)
          (andalso (t.run (flush (hook_of v6)) s) (t.run (append (hook_of v6) (jump_to c))))
  flush_append v6 c s =
      Ends-andalso (Changed w.rules (hook_of v6) [] s) (Same w.rules s) _ _
        (t.run (flush (hook_of v6)) s) (t.run (append (hook_of v6) (jump_to c)))
        (w.flush_law (hook_of v6) s)
        (λ u e.
          Ends-map
            (Changed w.rules (hook_of v6) (w.rules (hook_of v6) u ++ (join (jump_to c) ∷ [])) u)
            (Same w.rules u) _ _ (t.run (append (hook_of v6) (jump_to c)) u)
            (w.append_law (hook_of v6) (jump_to c) u)
            (λ v h. (
              [],
              record {
                here = h.here ∙ ap (λ rs. rs ++ (join (jump_to c) ∷ [])) e.here;
                elsewhere = λ d ne. h.elsewhere d ne ∙ e.elsewhere d ne;
              },
            ))
            (λ v h. Changed-Apart v6 [] s v (Changed-Same w.rules (hook_of v6) [] s u v e h)))
        (λ u h. Same-Apart v6 s u h)

  pub point-Ends :
      (v6 : Bool) (c : Text) (active : Option Text) (s : S)
      → Ends (Started v6 c s) (Apart v6 s) (point t (hook_of v6) c active s)
  unfolding point
  point-Ends v6 c none s = flush_append v6 c s
  point-Ends v6 c (some old) s =
      Ends-orelse
        (λ u.
          (q : Text) × (qs : List Text) × (w.rules (hook_of v6) s ≡ q ∷ qs)
          × Changed w.rules (hook_of v6) (join (jump_to c) ∷ qs) s u)
        (Same w.rules s) _ _ (t.run (replace (hook_of v6) (jump_to c)) s) _
        (w.replace_law (hook_of v6) (jump_to c) s) (λ u (q, qs, e, h). (qs, h))
        (λ u h.
          Ends-map (Started v6 c u) (Apart v6 u) _ _ _ (flush_append v6 c u)
            (λ v (qs, k). (qs, Same-Changed w.rules (hook_of v6) (join (jump_to c) ∷ qs) s u v h k))
            (λ v k. Apart-trans v6 s u v (Same-Apart v6 s u h) k))

  pub delete_seconds-Ends :
      (k : ℕ) (v6 : Bool) (r : Text) (qs : List Text) (s : S)
      → w.rules (hook_of v6) s ≡ r ∷ qs
      → length qs ≡ k
      → Ends
          (Changed w.rules (hook_of v6) (r ∷ []) s)
          (Apart v6 s)
          (delete_seconds t k (hook_of v6) s)
  unfolding delete_seconds
  delete_seconds-Ends zero v6 r [] s e l = record { here = e; elsewhere = λ d ne. refl }
  delete_seconds-Ends zero v6 r (q ∷ qs) s e l = absurd (omega (arith, l))
  delete_seconds-Ends (suc k) v6 r qs s e l =
      Ends-andalso
        (λ u.
          (p : Text) × (q : Text) × (ps : List Text) × (w.rules (hook_of v6) s ≡ p ∷ q ∷ ps)
          × Changed w.rules (hook_of v6) (p ∷ ps) s u)
        (Same w.rules s) _ _ (t.run (delete_second (hook_of v6)) s) _
        (w.delete_second_law (hook_of v6) s)
        (λ u (p, q, ps, same, h).
          let both = sym same ∙ e in
          let first = h.here ∙ ap (λ x. x ∷ ps) (cons_head p r (q ∷ ps) qs both) in
          Ends-map (Changed w.rules (hook_of v6) (r ∷ []) u) (Apart v6 u) _ _ _
            (delete_seconds-Ends k v6 r ps u first (omega (arith, l, ap length both)))
            (λ v g. Changed-trans w.rules (hook_of v6) (p ∷ ps) (r ∷ []) s u v h g)
            (λ v g. Apart-trans v6 s u v (Changed-Apart v6 (p ∷ ps) s u h) g))
        (λ u h. Same-Apart v6 s u h)
