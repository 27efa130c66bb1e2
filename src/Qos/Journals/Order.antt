-- ===== src/Qos/Journals/Order.antt =====
-- The maps by interface have each name once.
use nfqttl.Base.{
  ℕ, ◌≡◌, refl, sym, subst, arith, Bool, true, false, ◌||◌, not, ◌==◌, Bool-cases, inl, inr, List,
  [], ◌∷◌, Option, none, some, All, Result, ok, err, panic, stuck, Error,
}
use nfqttl.Base.Text.{Text, has_text, text_eq, text_eq_iff}
use nfqttl.Config.{valid_iface}
use nfqttl.Net.{Links, text_leb, active}
use nfqttl.Config.{Config}
use nfqttl.Qos.{Options, options}
use nfqttl.Qos.Desired.{Wanted, put, put_index, index_in, add_side, desired}
use nfqttl.Qos.Reconcile.{find}
use nfqttl.Qos.Journals.Read.{bind-ok, ok_same}
use nfqttl.Qos.Journals.{
  iface_of, read_journal, Listing, add_journal, add_file, journals_from, journals,
}

text_leb_antisym : (t u : Text) → text_leb t u ≡ true → text_leb u t ≡ true → text_eq t u ≡ true
unfolding text_leb text_eq
text_leb_antisym [] [] h k = refl
text_leb_antisym [] (b ∷ u) h k = cc
text_leb_antisym (a ∷ t) [] h k = cc
text_leb_antisym (a ∷ t) (b ∷ u) h k = ground (arith, text_leb_antisym t u)

text_leb_refl : (t : Text) → text_leb t t ≡ true
unfolding text_leb
text_leb_refl [] = refl
text_leb_refl (a ∷ t) = ground (arith, text_leb_refl t)

-- `u` is after `t`.
abbrev pub After : Text → Text → Type 0
After t u = text_leb u t ≡ false

After-trans : (t u w : Text) → After t u → After u w → After t w
unfolding text_leb
After-trans t [] w h k = cc
After-trans t (b ∷ u) [] h k = cc
After-trans [] (b ∷ u) (c ∷ w) h k = refl
After-trans (a ∷ t) (b ∷ u) (c ∷ w) h k = ground (arith, After-trans t u w)

abbrev pub AllAfter : Text → Wanted → Type 0
AllAfter t m = All (λ (e : Text × (ℕ × Options)). After t e.0) m

-- Increasing names.
abbrev pub IsMap : Wanted → Type 0
IsMap [] = Unit
IsMap ((t, v) ∷ m) = AllAfter t m × IsMap m

AllAfter-trans : (t u : Text) (m : Wanted) → After t u → AllAfter u m → AllAfter t m
AllAfter-trans t u [] h k = tt
AllAfter-trans t u ((w, v) ∷ m) h (k, ks) = (After-trans t u w h k, AllAfter-trans t u m h ks)

AllAfter-put :
    (t u : Text) (v : ℕ × Options) (m : Wanted) → After t u → AllAfter t m → AllAfter t (put u v m)
unfolding put
AllAfter-put t u v [] h k = (h, tt)
AllAfter-put t u v ((w, x) ∷ m) h (k, ks) = elim (Bool-cases (text_eq u w)) [
  | inl same ↦ rw same (k, ks)
  | inr other ↦ elim (Bool-cases (text_leb u w)) [
    | inl before ↦ rw (other, before) (h, (k, ks))
    | inr behind ↦ rw (other, behind) (k, AllAfter-put t u v m h ks)
  ]
]

pub put-IsMap : (u : Text) (v : ℕ × Options) (m : Wanted) → IsMap m → IsMap (put u v m)
unfolding put
put-IsMap u v [] h = (tt, tt)
put-IsMap u v ((w, x) ∷ m) (a, h) = elim (Bool-cases (text_eq u w)) [
  | inl same ↦ rw same (a, h)
  | inr other ↦ elim (Bool-cases (text_leb u w)) [
    | inl before ↦
        let later : After u w = strict (text_leb w u) refl other before in
        rw (other, before) ((later, AllAfter-trans u w m later a), (a, h))
    | inr behind ↦ rw (other, behind) (AllAfter-put w u v m behind a, put-IsMap u v m h)
  ]
]
  where
    strict : (b : Bool) → text_leb w u ≡ b → text_eq u w ≡ false → text_leb u w ≡ true → b ≡ false
    strict false e n h = refl
    strict true e n h = absurd (clash (text_leb_antisym u w h e) n)
      where
        clash : {b : Bool} → b ≡ true → b ≡ false → ⊥
        clash p q = ground arith

pub After-apart : (t u : Text) → After t u → text_eq t u ≡ false
After-apart t u h = at (text_eq t u) refl
  where
    at : (b : Bool) → text_eq t u ≡ b → b ≡ false
    at false e = refl
    at true e = absurd (
        clash (text_leb_refl t) (subst (λ w. text_leb w t ≡ false) (sym ((text_eq_iff t u).0 e)) h))
      where
        clash : {b : Bool} → b ≡ true → b ≡ false → ⊥
        clash p q = ground arith

-- A name before all others of a map is not in it.
pub find-AllAfter : (t : Text) (m : Wanted) → AllAfter t m → find t m ≡ none
unfolding find
find-AllAfter t [] h = refl
find-AllAfter t ((u, v) ∷ m) (k, ks) = elim (Bool-cases (text_eq u t)) [
  | inr other ↦ rw other (find-AllAfter t m ks)
  | inl same ↦
      absurd
        (clash (text_leb_refl t) (subst (λ w. text_leb w t ≡ false) ((text_eq_iff u t).0 same) k))
]
  where
    clash : {b : Bool} → b ≡ true → b ≡ false → ⊥
    clash p q = ground arith

add_journal-IsMap :
    (b : Bool) (u : Text) (x : Result Error Text) (out next : Wanted)
    → IsMap out
    → add_journal b u x out ≡ ok next
    → IsMap next
add_journal-IsMap false u x out next h e = cc
add_journal-IsMap true u (err y) out next h e = cc
add_journal-IsMap true u panic out next h e = cc
add_journal-IsMap true u stuck out next h e = cc
add_journal-IsMap true u (ok t) out next h e =
    let (v, r, put_is) = bind-ok (read_journal t) (λ v. ok (put u v out)) e in
    subst IsMap (ok_same put_is) (put-IsMap u v out h)

add_file-IsMap :
    (o : Option Text) (x : Result Error Text) (out next : Wanted)
    → IsMap out
    → add_file o x out ≡ ok next
    → IsMap next
add_file-IsMap none x out next h e = subst IsMap (ok_same e) h
add_file-IsMap (some u) x out next h e = add_journal-IsMap (valid_iface u) u x out next h e

journals_from-IsMap :
    (files : Listing) (out saved : Wanted)
    → IsMap out
    → journals_from files out ≡ ok saved
    → IsMap saved
unfolding journals_from
journals_from-IsMap [] out saved h e = subst IsMap (ok_same e) h
journals_from-IsMap ((m, x) ∷ files) out saved h e =
    let (next, first, later) =
      bind-ok (add_file (iface_of m) x out) (λ o. journals_from files o) e in
    journals_from-IsMap files next saved (add_file-IsMap (iface_of m) x out next h first) later

pub journals-IsMap : (files : Listing) (saved : Wanted) → journals files ≡ ok saved → IsMap saved
journals-IsMap files saved e = journals_from-IsMap files [] saved tt e

put_index-IsMap :
    (o : Option ℕ) (t : Text) (p : Options) (m : Wanted) → IsMap m → IsMap (put_index o t p m)
put_index-IsMap none t p m h = h
put_index-IsMap (some i) t p m h = put-IsMap t (i, p) m h

-- So has what is wanted.
pub desired-IsMap :
    (ifindex : Text → Option Text) (c : Config) (l : Links) → IsMap (desired ifindex c l)
unfolding desired add_side
desired-IsMap ifindex c l = elim (Bool-cases (active l)) [
  | inr idle ↦ rw idle tt
  | inl works ↦ rw works (
      side c.sqm_down_iface c.sqm_down_kbit 6 l.down _
        (side c.sqm_up_iface c.sqm_up_kbit 5 l.up [] tt))
]
  where
    side :
        (t : Text) (kbit flow : ℕ) (links : List Text) (m : Wanted)
        → IsMap m
        → IsMap (add_side ifindex t kbit flow links m)
    side t kbit flow links m h = elim (Bool-cases (kbit == 0 || not (has_text links t))) [
      | inl skipped ↦ rw skipped h
      | inr shaped ↦ rw shaped (put_index-IsMap (index_in (ifindex t)) t (options kbit flow) m h)
    ]
