-- ===== src/Ctl/Edited.antt =====
-- What the edited lines set.
use nfqttl.Base.{
  ◌≡◌, refl, sym, ap, ◌∙◌, subst, arith, inl, inr, Bool, true, false, if◌then◌else◌, Bool-cases,
  Option-cases, List, [], ◌∷◌, Option, none, some, Error, Post, Post-bind,
}
use nfqttl.Base.Text.{Text, text_eq, text_eq_iff, trim, split_once}
use nfqttl.Net.{text_leb}
use nfqttl.Ctl.{
  Entries, get, insert, remove, is_there, is_key, is_refused, entered, parse_from, not_empty,
  parse_settings, edit_lines,
}
use nfqttl.Ctl.Keys.{
  value_of, value_in, or_else, trim-key, AreKeys, key_bytes, value_of-line_of, value_in-entries,
  get-remove, AreKeys-remove, get-AreKeys,
}

-- The value of a line that sets the key.
kept_line :
    (k j w : Text) (es : Entries) (new old : Option Text)
    → get j es ≡ none
    → new ≡ or_else (get k es) old
    → (if text_eq j k then some w else new)
      ≡ or_else (get k es) (if text_eq j k then some w else old)
kept_line k j w es new old n e = elim (Bool-cases (text_eq j k)) [
  | inl same ↦
      let absent : get k es ≡ none = subst (λ t. get t es ≡ none) ((text_eq_iff j k).0 same) n in
      rw (same, absent) refl
  | inr other ↦ rw other e
]

-- A line whose key has an entry.
set_line :
    (k j v w : Text) (es : Entries) (new old : Option Text)
    → get j es ≡ some v
    → new ≡ or_else (get k (remove j es)) old
    → (if text_eq j k then some v else new)
      ≡ or_else (get k es) (if text_eq j k then some w else old)
set_line k j v w es new old g e = elim (Bool-cases (text_eq j k)) [
  | inl same ↦
      let there : get k es ≡ some v = subst (λ t. get t es ≡ some v) ((text_eq_iff j k).0 same) g in
      rw (same, there) refl
  | inr other ↦ rw other (e ∙ ap (λ o. or_else o old) (get-remove k j es other))
]

or_else-none : (o : Option Text) → o ≡ or_else o none
or_else-none none = refl
or_else-none (some v) = refl

value_in-edit_lines :
    (k : Text) (ls : List Text) (es : Entries)
    → AreKeys es
    → value_in k (edit_lines es ls) ≡ or_else (get k es) (value_in k ls)
unfolding edit_lines value_in
value_in-edit_lines k [] es h = value_in-entries k es h ∙ or_else-none (get k es)
value_in-edit_lines k (l ∷ ls) es h = elim (Option-cases (split_once b'=' l)) [
  | inl e ↦ rw (e, e) (value_in-edit_lines k ls es h)
  | inr ((j, w), e) ↦ elim (Option-cases (get (trim j) es)) [
    | inl n ↦
        rw (e, n, e)
          (kept_line k (trim j) w es (value_in k (edit_lines es ls)) (value_in k ls) n
            (value_in-edit_lines k ls es h))
    | inr (v, g) ↦
        rw (e, g)
          (value_of-line_of k (trim j) v _ (get-AreKeys (trim j) v es h g)
            ∙ set_line k (trim j) v w es (value_in k (edit_lines (remove (trim j) es) ls))
                (value_in k ls) g
                (value_in-edit_lines k ls (remove (trim j) es) (AreKeys-remove (trim j) es h)))
  ]
]

clash : {b : Bool} → b ≡ true → b ≡ false → ⊥
clash t f = ground arith

get-insert :
    (k j v : Text) (es : Entries)
    → get k (insert j v es) ≡ (if text_eq j k then some v else get k es)
unfolding get insert
get-insert k j v [] = refl
get-insert k j v ((i, w) ∷ es) = elim (Bool-cases (text_eq i j)) [
  | inl same ↦
      rw (same, (text_eq_iff i j).0 same) (double (text_eq j k) (some v) (some w) (get k es))
  | inr other ↦ elim (Bool-cases (text_leb j i)) [
    | inl before ↦ rw (other, before) refl
    | inr behind ↦ rw (other, behind) (past k i j w v es other (get-insert k j v es))
  ]
]
  where
    double :
        (b : Bool) (x y z : Option Text)
        → (if b then x else z) ≡ (if b then x else if b then y else z)
    double true x y z = refl
    double false x y z = refl

    past :
        (k i j w v : Text) (es : Entries)
        → text_eq i j ≡ false
        → get k (insert j v es) ≡ (if text_eq j k then some v else get k es)
        → (if text_eq i k then some w else get k (insert j v es))
          ≡ (if text_eq j k then some v else if text_eq i k then some w else get k es)
    past k i j w v es other e = rw e (elim (Bool-cases (text_eq i k)) [
      | inr apart ↦ rw apart refl
      | inl here ↦
          let away : text_eq j k ≡ false = not_both i j k other here in rw (here, away) refl
    ])
      where
        not_both : (i j k : Text) → text_eq i j ≡ false → text_eq i k ≡ true → text_eq j k ≡ false
        not_both i j k n h = elim (Bool-cases (text_eq j k)) [
          | inr apart ↦ apart
          | inl both ↦ absurd (
              clash ((text_eq_iff i j).1 ((text_eq_iff i k).0 h ∙ sym ((text_eq_iff j k).0 both)))
                n)
        ]

AreKeys-insert :
    (j v : Text) (es : Entries) → is_key j ≡ true → AreKeys es → AreKeys (insert j v es)
unfolding insert
AreKeys-insert j v [] hj h = (hj, h)
AreKeys-insert j v ((i, w) ∷ es) hj (hi, h) = elim (Bool-cases (text_eq i j)) [
  | inl same ↦ rw same (hi, h)
  | inr other ↦ elim (Bool-cases (text_leb j i)) [
    | inl before ↦ rw (other, before) (hj, (hi, h))
    | inr behind ↦ rw (other, behind) (hi, AreKeys-insert j v es hj h)
  ]
]

get_unless : (o : Option Text) → is_there o ≡ false → o ≡ none
get_unless none h = refl
get_unless (some v) h = ground arith

-- One more entry is as one more line before the others.
entered_value :
    (k j v : Text) (es : Entries) (later : Option Text)
    → get j es ≡ none
    → trim j ≡ j
    → or_else (if text_eq j k then some v else get k es) later
      ≡ or_else (get k es) (if text_eq (trim j) k then some v else later)
entered_value k j v es later n t = rw t (elim (Bool-cases (text_eq j k)) [
  | inl same ↦
      let absent : get k es ≡ none = subst (λ u. get u es ≡ none) ((text_eq_iff j k).0 same) n in
      rw (same, absent) refl
  | inr other ↦ rw other refl
])

abbrev Reads : Text → Entries → Option Text → Entries → Type 0
Reads k es later fs = AreKeys fs × (get k fs ≡ or_else (get k es) later)

-- What `parse_from` adds to the entries.
parse_from-Post :
    (k : Text) (ss : List Text) (es : Entries)
    → AreKeys es
    → Post (Reads k es (value_in k ss)) (parse_from ss es)
unfolding parse_from value_in
parse_from-Post k [] es h = (h, or_else-none (get k es))
parse_from-Post k (s ∷ ss) es h = at (split_once b'=' s) (λ fs a. parse_from-Post k ss fs a)
  where
    at :
        (o : Option (Text × Text))
        → ((fs : Entries) → AreKeys fs → Post (Reads k fs (value_in k ss)) (parse_from ss fs))
        → Post (Reads k es (value_of k o (value_in k ss))) (entered o es (λ fs. parse_from ss fs))
    at none rest = tt
    at (some (j, v)) rest = elim (Bool-cases (is_refused j v es)) [
      | inl bad ↦ rw bad tt
      | inr good ↦
          let key : is_key j ≡ true = ground arith in
          let absent : get j es ≡ none = get_unless (get j es) (ground arith) in
          let e : or_else (get k (insert j v es)) (value_in k ss)
              ≡ or_else (get k es) (value_of k (some (j, v)) (value_in k ss)) =
            ap (λ o. or_else o (value_in k ss)) (get-insert k j v es)
            ∙ entered_value k j v es (value_in k ss) absent (trim-key j (key_bytes j key)) in
          rw good (
            subst (λ o. Post (λ fs. AreKeys fs × (get k fs ≡ o)) (parse_from ss (insert j v es))) e
              (rest (insert j v es) (AreKeys-insert j v es key h)))
    ]

-- `configure` refuses its arguments, or for any key, the first line with the key in the edited lines
-- has the value that the arguments give the key, or the value before if they do not name it.
pub parse_settings-edit_lines :
    (k : Text) (ss ls : List Text)
    → Post
        (λ es. value_in k (edit_lines es ls) ≡ or_else (value_in k ss) (value_in k ls))
        (parse_settings ss)
unfolding parse_settings get
parse_settings-edit_lines k ss ls =
    Post-bind {E = Error} (Reads k [] (value_in k ss))
      (λ es. value_in k (edit_lines es ls) ≡ or_else (value_in k ss) (value_in k ls))
      (parse_from ss []) _ (parse_from-Post k ss [] tt) (λ es h. given es h)
  where
    given :
        (es : Entries)
        → Reads k [] (value_in k ss) es
        → Post
            (λ fs. value_in k (edit_lines fs ls) ≡ or_else (value_in k ss) (value_in k ls))
            (not_empty es)
    given [] h = tt
    given (e ∷ es) (a, g) =
        value_in-edit_lines k ls (e ∷ es) a ∙ ap (λ o. or_else o (value_in k ls)) g
