-- ===== src/Firewall/Examples.antt =====
-- A tool that keeps the rules of each chain in a function.
use nfqttl.Base.{
  ◌≡◌, refl, ap, Bool, true, false, if◌then◌else◌, List, [], ◌∷◌, ◌++◌, map, none, some,
}
use nfqttl.Base.Text.{Text, codes, text_eq, text_eq_refl, some_of, keep_if, starts_with}
use nfqttl.Net.{join, Links}
use nfqttl.Firewall.{
  Command, new, flush, delete_chain, append, insert, replace, check, delete, delete_second, Tool,
  Ipv6Plan, forward, old_jumps4, chains4, install, install4, install6, target4, is_rule,
  cleanup_chains,
}
use nfqttl.Firewall.Run.{Ends}
use nfqttl.Firewall.Laws.{line_of, remove_first, has, Same, Changed, Iptables}
use nfqttl.Firewall.Fill.{pairs}
use nfqttl.Firewall.Frames.{first, nothing, slot_chain, IsOutcome}
use nfqttl.Firewall.Agree.{install-IsOutcome}
use nfqttl.Firewall.Checks.{Passes, install4-Passes, install6-Passes}
use nfqttl.Firewall.Cleanup.{IsSpared}
use nfqttl.Firewall.Cleaned.{IsCleaned, cleanup_chains-IsCleaned}

abbrev Chains : Type 0
Chains = Text → List Text

abbrev write : Text → List Text → Chains → Chains
write c rs s = λ d. if text_eq c d then rs else s d

abbrev replaced : Text → Text → Chains → List Text → Bool × Chains
replaced c r s [] = (false, s)
replaced c r s (q ∷ qs) = (true, write c (r ∷ qs) s)

abbrev shortened : Text → Chains → List Text → Bool × Chains
shortened c s (p ∷ q ∷ qs) = (true, write c (p ∷ qs) s)
shortened c s _ = (false, s)

abbrev execute : Command → Chains → Bool × Chains
execute (new c) s = (true, s)
execute (flush c) s = (true, write c [] s)
execute (delete_chain c) s = (true, s)
execute (append c r) s = (true, write c (s c ++ (join r ∷ [])) s)
execute (insert c r) s = (true, write c (join r ∷ s c) s)
execute (replace c r) s = replaced c (join r) s (s c)
execute (check c r) s = (has (join r) (s c), s)
execute (delete c r) s = (true, write c (remove_first (join r) (s c)) s)
execute (delete_second c) s = shortened c s (s c)

abbrev tables : Tool Chains
tables = record { run = execute; listed = λ c s. map (line_of c) (s c) }

abbrev read : Text → Chains → List Text
read c s = s c

write-Changed : (c : Text) (rs : List Text) (s : Chains) → Changed read c rs s (write c rs s)
write-Changed c rs s = record { here = rw (text_eq_refl c) refl; elsewhere = λ d ne. rw ne refl }

replaced-Ends :
    (c r : Text) (s : Chains) (rs : List Text)
    → s c ≡ rs
    → Ends
        (λ u. (q : Text) × (qs : List Text) × (s c ≡ q ∷ qs) × Changed read c (r ∷ qs) s u)
        (Same read s)
        (replaced c r s rs)
replaced-Ends c r s [] e = λ d. refl
replaced-Ends c r s (q ∷ qs) e = (q, qs, e, write-Changed c (r ∷ qs) s)

shortened-Ends :
    (c : Text) (s : Chains) (rs : List Text)
    → s c ≡ rs
    → Ends
        (λ u.
          (p : Text) × (q : Text) × (qs : List Text) × (s c ≡ p ∷ q ∷ qs)
          × Changed read c (p ∷ qs) s u)
        (Same read s)
        (shortened c s rs)
shortened-Ends c s [] e = λ d. refl
shortened-Ends c s (p ∷ []) e = λ d. refl
shortened-Ends c s (p ∷ q ∷ qs) e = (p, q, qs, e, write-Changed c (p ∷ qs) s)

checked-Ends :
    (r : Text) (s : Chains) (rs : List Text) (b : Bool)
    → has r rs ≡ b
    → Ends (λ u. Same read s u × (has r rs ≡ true)) (Same read s) (b, s)
checked-Ends r s rs true e = ((λ d. refl), e)
checked-Ends r s rs false e = λ d. refl

keep_if-lines :
    (c : Text) (rs : List Text) → keep_if is_rule (map (line_of c) rs) ≡ map (line_of c) rs
unfolding keep_if starts_with
keep_if-lines c [] = refl
keep_if-lines c (r ∷ rs) = ap (λ l. line_of c r ∷ l) (keep_if-lines c rs)

abbrev behaves : Iptables tables
behaves = record {
  rules = read;
  new_law = λ c s d. refl;
  flush_law = λ c s. write-Changed c [] s;
  delete_chain_law = λ c s d. refl;
  append_law = λ c r s. write-Changed c (s c ++ (join r ∷ [])) s;
  insert_law = λ c r s. write-Changed c (join r ∷ s c) s;
  replace_law = λ c r s. replaced-Ends c (join r) s (s c) refl;
  check_law = λ c r s. checked-Ends (join r) s (s c) (has (join r) (s c)) refl;
  check_answered = λ c r s h. h;
  delete_law = λ c r s. write-Changed c (remove_first (join r) (s c)) s;
  delete_second_law = λ c s. shortened-Ends c s (s c) refl;
  listing_answered = λ c s. keep_if-lines c (s c);
}

abbrev two_up : Links
two_up = record { down = codes "ap0" ∷ []; up = codes "rmnet0" ∷ codes "wlan0" ∷ [] }

-- `FORWARD` has a rule of the system.
abbrev before : Chains
before = write forward (codes "-j tetherctrl_FORWARD" ∷ []) (λ d. [])

install-IsOutcome_example :
    IsOutcome tables behaves false
      (pairs (target4 true 1 65) two_up.down two_up.up)
      first
      before
      (install tables false (target4 true 1 65) two_up (slot_chain false first) before)
install-IsOutcome_example =
    install-IsOutcome tables behaves false (target4 true 1 65) two_up first before

install4-Passes_example :
    Passes tables false false 2 65 Ipv6Plan.block two_up
      (install4 tables none two_up false 2 65 (slot_chain false nothing) before)
install4-Passes_example =
    install4-Passes tables behaves none two_up false 2 65 Ipv6Plan.block nothing before

install6-Passes_example :
    Passes tables true true 1 64 Ipv6Plan.normalize two_up
      (install6 tables (some tables) two_up Ipv6Plan.normalize 64 (slot_chain true first) before)
install6-Passes_example =
    install6-Passes tables behaves tables two_up Ipv6Plan.normalize 1 64 first before refl

cleanup_chains-IsCleaned_example :
    Ends
      (IsCleaned tables behaves old_jumps4 chains4 before)
      (IsSpared tables behaves old_jumps4 chains4 before)
      (cleanup_chains tables old_jumps4 chains4 before)
unfolding text_eq some_of
cleanup_chains-IsCleaned_example =
    cleanup_chains-IsCleaned tables behaves old_jumps4 chains4 before refl
