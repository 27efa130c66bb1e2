-- ===== src/Qos/Journals/Read.antt =====
-- What the journal that is read has, by the files it was read from.
use nfqttl.Base.{
  ℕ, ◌≡◌, refl, sym, ap, ◌∙◌, subst, arith, Bool, true, false, if◌then◌else◌, Bool-cases, ◌⊎◌, inl,
  inr, [], ◌∷◌, Option, none, some, Result, ok, err, panic, stuck, ◌>>=◌, Error,
}
use nfqttl.Base.Text.{Text, text_eq, text_eq_iff}
use nfqttl.Config.{valid_iface}
use nfqttl.Net.{text_leb}
use nfqttl.Qos.{Options}
use nfqttl.Qos.Desired.{Wanted, put}
use nfqttl.Qos.Reconcile.{find}
use nfqttl.Qos.Journals.{
  iface_of, journal_name, read_journal, Listing, add_journal, add_file, journals_from, journals,
}
use nfqttl.Qos.Journals.Names.{iface_of-journal_name, journal_name-iface_of}

abbrev pub or_else : {A : Type 0} → Option A → Option A → Option A
or_else none o = o
or_else (some a) o = some a

-- The file of the name. (A directory has one at most.)
unfoldable pub listed : Text → Listing → Option (Result Error Text)
listed n [] = none
listed n ((m, x) ∷ files) = or_else (listed n files) (if text_eq m n then some x else none)

abbrev pub value_of : Result Error (ℕ × Options) → Option (ℕ × Options)
value_of (ok v) = some v
value_of _ = none

abbrev pub entry_of : Option (Result Error Text) → Option (ℕ × Options)
entry_of none = none
entry_of (some (ok t)) = value_of (read_journal t)
entry_of (some _) = none

pub bind-ok :
    {A B : Type 0} (m : Result Error A) (f : A → Result Error B) {b : B}
    → (m >>= f) ≡ ok b
    → (a : A) × (m ≡ ok a) × (f a ≡ ok b)
bind-ok (ok a) f h = (a, refl, h)
bind-ok (err e) f h = cc
bind-ok panic f h = cc
bind-ok stuck f h = cc

pub find-put :
    (t u : Text) (v : ℕ × Options) (m : Wanted)
    → find t (put u v m) ≡ (if text_eq u t then some v else find t m)
unfolding find put
find-put t u v [] = refl
find-put t u v ((w, x) ∷ m) = elim (Bool-cases (text_eq u w)) [
  | inl same ↦
      rw (same, (text_eq_iff u w).0 same) (double (text_eq w t) (some v) (some x) (find t m))
  | inr other ↦ elim (Bool-cases (text_leb u w)) [
    | inl before ↦ rw (other, before) refl
    | inr behind ↦ rw (other, behind) (past other (find-put t u v m))
  ]
]
  where
    double :
        (b : Bool) (x y z : Option (ℕ × Options))
        → (if b then x else z) ≡ (if b then x else if b then y else z)
    double true x y z = refl
    double false x y z = refl

    apart : text_eq u w ≡ false → text_eq w t ≡ true → text_eq u t ≡ false
    apart n h = elim (Bool-cases (text_eq u t)) [
      | inr other ↦ other
      | inl same ↦
          absurd
            (clash ((text_eq_iff u w).1 ((text_eq_iff u t).0 same ∙ sym ((text_eq_iff w t).0 h))) n)
    ]
      where
        clash : {b : Bool} → b ≡ true → b ≡ false → ⊥
        clash p q = ground arith

    past :
        text_eq u w ≡ false
        → find t (put u v m) ≡ (if text_eq u t then some v else find t m)
        → (if text_eq w t then some x else find t (put u v m))
          ≡ (if text_eq u t then some v else if text_eq w t then some x else find t m)
    past n e = rw e (elim (Bool-cases (text_eq w t)) [
      | inr other ↦ rw other refl
      | inl here ↦ let away = apart n here in rw (here, away) refl
    ])

true_not_false : {b : Bool} → b ≡ true → b ≡ false → ⊥
true_not_false p q = ground arith

some_injective : {A : Type 0} (a b : A) → some a ≡ some b → a ≡ b
some_injective a b h = cc

-- One file is not the interface's journal, or it sets the interface's value.
abbrev Step : Text → Text → Result Error Text → Wanted → Wanted → Type 0
Step t m x out next =
    ((text_eq m (journal_name t) ≡ false) × (find t next ≡ find t out))
    ⊎ ((text_eq m (journal_name t) ≡ true)
        × ((v : ℕ × Options) × (entry_of (some x) ≡ some v) × (find t next ≡ some v)))

pub ok_same : {a b : Wanted} → ◌≡◌ {A = Result Error Wanted} (ok a) (ok b) → a ≡ b
ok_same h = cc

put-Step :
    (t m u : Text) (s : Text) (v : ℕ × Options) (out : Wanted)
    → m ≡ journal_name u
    → read_journal s ≡ ok v
    → Step t m (ok s) out (put u v out)
put-Step t m u s v out e r = elim (Bool-cases (text_eq u t)) [
  | inl same ↦ inr (
    (text_eq_iff m (journal_name t)).1 (e ∙ ap journal_name ((text_eq_iff u t).0 same)),
    (v, ap value_of r, find-put t u v out ∙ ap (λ b. if b then some v else find t out) same),
  )
  | inr other ↦ inl (
    differs other (text_eq m (journal_name t)) refl,
    find-put t u v out ∙ ap (λ b. if b then some v else find t out) other,
  )
]
  where
    differs : text_eq u t ≡ false → (b : Bool) → text_eq m (journal_name t) ≡ b → b ≡ false
    differs n false h = refl
    differs n true h =
        let named : some u ≡ some t =
          sym (iface_of-journal_name u)
          ∙ (ap iface_of (sym e ∙ (text_eq_iff m (journal_name t)).0 h)
              ∙ iface_of-journal_name t) in
        absurd (true_not_false ((text_eq_iff u t).1 (some_injective u t named)) n)

add_journal-Step :
    (t m u : Text) (b : Bool) (x : Result Error Text) (out next : Wanted)
    → m ≡ journal_name u
    → add_journal b u x out ≡ ok next
    → Step t m x out next
add_journal-Step t m u false x out next e h = cc
add_journal-Step t m u true (err y) out next e h = cc
add_journal-Step t m u true panic out next e h = cc
add_journal-Step t m u true stuck out next e h = cc
add_journal-Step t m u true (ok s) out next e h =
    let (v, r, put_is) = bind-ok (read_journal s) (λ v. ok (put u v out)) h in
    subst (λ o. Step t m (ok s) out o) (ok_same put_is) (put-Step t m u s v out e r)

add_file-Step :
    (t m : Text) (x : Result Error Text) (out next : Wanted)
    → add_file (iface_of m) x out ≡ ok next
    → Step t m x out next
add_file-Step t m x out next h = at (iface_of m) refl h
  where
    no_journal : (b : Bool) → text_eq m (journal_name t) ≡ b → iface_of m ≡ none → b ≡ false
    no_journal false e n = refl
    no_journal true e n = absurd (
        clash (
          sym (iface_of-journal_name t)
          ∙ (ap iface_of (sym ((text_eq_iff m (journal_name t)).0 e)) ∙ n)))
      where
        clash : some t ≡ none → ⊥
        clash h = cc

    at : (o : Option Text) → iface_of m ≡ o → add_file o x out ≡ ok next → Step t m x out next
    at none e h =
        inl (no_journal (text_eq m (journal_name t)) refl e, ap (find t) (sym (ok_same h)))
    at (some u) e h =
        add_journal-Step t m u (valid_iface u) x out next (journal_name-iface_of m u e) h

-- No file of the interface, or its journal with the interface's value.
abbrev Found : Text → Option (Result Error Text) → Wanted → Wanted → Type 0
Found t o out saved =
    ((o ≡ none) × (find t saved ≡ find t out))
    ⊎ ((v : ℕ × Options) × (entry_of o ≡ some v) × (find t saved ≡ some v))

journals_from-Found :
    (t : Text) (files : Listing) (out saved : Wanted)
    → journals_from files out ≡ ok saved
    → Found t (listed (journal_name t) files) out saved
unfolding journals_from listed
journals_from-Found t [] out saved h = inl (refl, ap (find t) (sym (ok_same h)))
journals_from-Found t ((m, x) ∷ files) out saved h =
    let (next, first, later) =
      bind-ok (add_file (iface_of m) x out) (λ o. journals_from files o) h in
    both next (listed (journal_name t) files) (add_file-Step t m x out next first)
      (journals_from-Found t files next saved later)
  where
    both :
        (next : Wanted) (o : Option (Result Error Text))
        → Step t m x out next
        → Found t o next saved
        → Found t (or_else o (if text_eq m (journal_name t) then some x else none)) out saved
    both next o (inl (n, e)) (inl (absent, f)) = rw (absent, n) (inl (refl, f ∙ e))
    both next o (inr (y, (v, g, e))) (inl (absent, f)) = rw (absent, y) (inr (v, g, f ∙ e))
    both next none step (inr (v, g, f)) = cc
    both next (some y) step (inr (v, g, f)) = inr (v, g, f)

-- What a listing says of a file's text.
abbrev pub Reads : Option (Result Error Text) → Option Text → Type 0
Reads none text = text ≡ none
Reads (some (ok t)) text = text ≡ some t
Reads (some _) text = Unit

abbrev pub decoded : Option Text → Option (ℕ × Options)
decoded none = none
decoded (some t) = value_of (read_journal t)

-- The journal has the values of the files that the directory has.
pub find-journals :
    (t : Text) (files : Listing) (saved : Wanted) (text : Option Text)
    → journals files ≡ ok saved
    → Reads (listed (journal_name t) files) text
    → find t saved ≡ decoded text
unfolding find
find-journals t files saved text h r =
    at (listed (journal_name t) files) (journals_from-Found t files [] saved h) r
  where
    at :
        (o : Option (Result Error Text))
        → Found t o [] saved
        → Reads o text
        → find t saved ≡ decoded text
    at none (inl (e, f)) r = f ∙ ap decoded (sym r)
    at none (inr (v, g, f)) r = cc
    at (some (ok s)) (inl (e, f)) r = cc
    at (some (ok s)) (inr (v, g, f)) r = f ∙ (sym g ∙ ap decoded (sym r))
    at (some (err y)) (inl (e, f)) r = cc
    at (some (err y)) (inr (v, g, f)) r = cc
    at (some panic) (inl (e, f)) r = cc
    at (some panic) (inr (v, g, f)) r = cc
    at (some stuck) (inl (e, f)) r = cc
    at (some stuck) (inr (v, g, f)) r = cc
