-- ===== src/Firewall/Laws.antt =====
-- What the program relies on in `iptables`: each command changes the rules of one chain as its manual
-- says, or fails and changes nothing, and `-S` prints the rules of a chain.
use nfqttl.Base.{◌≡◌, ◌∙◌, Bool, true, false, if◌then◌else◌, List, [], ◌∷◌, ◌++◌, map}
use nfqttl.Base.Text.{Text, codes, text_eq, some_of, keep_if}
use nfqttl.Net.{join}
use nfqttl.Firewall.{
  new, flush, delete_chain, append, insert, replace, check, delete, delete_second, Tool, is_rule,
}
use nfqttl.Firewall.Run.{Ends}

-- The first rule that is `r` goes.
unfoldable pub remove_first : Text → List Text → List Text
remove_first r [] = []
remove_first r (q ∷ qs) = if text_eq r q then qs else q ∷ remove_first r qs

abbrev pub has : Text → List Text → Bool
has r rs = some_of (text_eq r) rs

-- A rule of a chain as `-S` prints it.
abbrev pub line_of : Text → Text → Text
line_of c r = codes "-A " ++ (c ++ (b' ' ∷ r))

module _ {S : Type 0} (rules : Text → S → List Text) where
  -- No chain is changed.
  abbrev pub Same : S → S → Type 0
  Same s u = (d : Text) → rules d u ≡ rules d s

  -- One chain is changed to `rs`.
  pub record Changed (c : Text) (rs : List Text) (s u : S) : Type 0 where
    pub here : rules c u ≡ rs
    pub elsewhere : (d : Text) → text_eq c d ≡ false → rules d u ≡ rules d s

  pub Same-trans : (s u v : S) → Same s u → Same u v → Same s v
  Same-trans s u v h k = λ d. k d ∙ h d

  pub Changed-trans :
      (c : Text) (rs qs : List Text) (s u v : S)
      → Changed c rs s u
      → Changed c qs u v
      → Changed c qs s v
  Changed-trans c rs qs s u v h k = record {
    here = k.here;
    elsewhere = λ d ne. k.elsewhere d ne ∙ h.elsewhere d ne;
  }

  pub Changed-Same :
      (c : Text) (rs : List Text) (s u v : S) → Changed c rs s u → Same u v → Changed c rs s v
  Changed-Same c rs s u v h k = record {
    here = k c ∙ h.here;
    elsewhere = λ d ne. k d ∙ h.elsewhere d ne;
  }

  pub Same-Changed :
      (c : Text) (rs : List Text) (s u v : S) → Same s u → Changed c rs u v → Changed c rs s v
  Same-Changed c rs s u v h k = record { here = k.here; elsewhere = λ d ne. k.elsewhere d ne ∙ h d }

  pub Same-is_Changed : (c : Text) (s u : S) → Same s u → Changed c (rules c s) s u
  Same-is_Changed c s u h = record { here = h c; elsewhere = λ d ne. h d }

-- The rules that a state has, and the manual's account of the commands. Any command may fail, and then
-- changes nothing. What is relied on besides is that checks and listings are carried out
-- (`check_answered`, `listing_answered`): a check that fails for another reason (the lock is held, the
-- tool cannot be started) is taken by the program for the absence of the rule.
pub record Iptables {S : Type 0} (t : Tool S) : Type 0 where
  pub rules : Text → S → List Text
  pub new_law : (c : Text) (s : S) → Ends (Same rules s) (Same rules s) (t.run (new c) s)
  pub flush_law :
      (c : Text) (s : S) → Ends (Changed rules c [] s) (Same rules s) (t.run (flush c) s)
  pub delete_chain_law :
      (c : Text) (s : S) → Ends (Same rules s) (Same rules s) (t.run (delete_chain c) s)
  pub append_law :
      (c : Text) (r : List Text) (s : S)
      → Ends (Changed rules c (rules c s ++ (join r ∷ [])) s) (Same rules s) (t.run (append c r) s)
  pub insert_law :
      (c : Text) (r : List Text) (s : S)
      → Ends (Changed rules c (join r ∷ rules c s) s) (Same rules s) (t.run (insert c r) s)
  pub replace_law :
      (c : Text) (r : List Text) (s : S)
      → Ends
          (λ u.
            (q : Text) × (qs : List Text) × (rules c s ≡ q ∷ qs)
            × Changed rules c (join r ∷ qs) s u)
          (Same rules s)
          (t.run (replace c r) s)
  pub check_law :
      (c : Text) (r : List Text) (s : S)
      → Ends
          (λ u. Same rules s u × (has (join r) (rules c s) ≡ true))
          (Same rules s)
          (t.run (check c r) s)
  pub check_answered :
      (c : Text) (r : List Text) (s : S)
      → (t.run (check c r) s).0 ≡ false
      → has (join r) (rules c s) ≡ false
  pub delete_law :
      (c : Text) (r : List Text) (s : S)
      → Ends
          (Changed rules c (remove_first (join r) (rules c s)) s)
          (Same rules s)
          (t.run (delete c r) s)
  pub delete_second_law :
      (c : Text) (s : S)
      → Ends
          (λ u.
            (p : Text) × (q : Text) × (qs : List Text) × (rules c s ≡ p ∷ q ∷ qs)
            × Changed rules c (p ∷ qs) s u)
          (Same rules s)
          (t.run (delete_second c) s)
  pub listing_answered :
      (c : Text) (s : S) → keep_if is_rule (t.listed c s) ≡ map (line_of c) (rules c s)
