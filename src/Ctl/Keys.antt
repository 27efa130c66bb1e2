-- ===== src/Ctl/Keys.antt =====
-- The keys of the settings, and the entries of a line.
use nfqttl.Base.{
  ℕ, ◌≡◌, refl, sym, ap, ◌∙◌, subst, arith, inl, inr, Bool, true, false, ◌==◌, if◌then◌else◌,
  Bool-cases, List, [], ◌∷◌, ◌++◌, map, Option, none, some,
}
use nfqttl.Base.Text.{Text, text_eq, text_eq_iff, every, is_space, trim, trim_start, split_once}
use nfqttl.Ctl.{Entries, get, remove, is_key_byte, is_key, line_of}
use mathlib.Core.List.{reverse, reverse-reverse, reverse-cons}

abbrev pub value_of : Text → Option (Text × Text) → Option Text → Option Text
value_of k none later = later
value_of k (some (j, v)) later = if text_eq (trim j) k then some v else later

-- The value that the first line with the key sets.
unfoldable pub value_in : Text → List Text → Option Text
value_in k [] = none
value_in k (l ∷ ls) = value_of k (split_once b'=' l) (value_in k ls)

abbrev pub or_else : Option Text → Option Text → Option Text
or_else none o = o
or_else (some v) o = some v

every-append :
    (p : ℕ → Bool) (s t : Text) → every p s ≡ true → every p t ≡ true → every p (s ++ t) ≡ true
unfolding every
every-append p [] t h k = k
every-append p (c ∷ s) t h k = ground (arith, every-append p s t)

every-reverse : (p : ℕ → Bool) (t : Text) → every p t ≡ true → every p (reverse t) ≡ true
unfolding every
every-reverse p [] h = h
every-reverse p (c ∷ t) h =
    subst (λ u. every p u ≡ true) (sym (reverse-cons c t))
      (every-append p (reverse t) (c ∷ []) (every-reverse p t (ground arith)) (ground arith))

key_byte_plain : (c : ℕ) → is_key_byte c ≡ true → (is_space c ≡ false) × ((c == b'=') ≡ false)
unfolding is_space
key_byte_plain c h = (ground (arith, h), ground (arith, h))

trim_start-key : (t : Text) → every is_key_byte t ≡ true → trim_start t ≡ t
unfolding trim_start every
trim_start-key [] h = refl
trim_start-key (c ∷ t) h = rw ((key_byte_plain c (ground arith)).0, trim_start) refl

pub trim-key : (t : Text) → every is_key_byte t ≡ true → trim t ≡ t
unfolding trim
trim-key t h =
    rw (trim_start-key t h)
      (rw (trim_start-key (reverse t) (every-reverse is_key_byte t h)) (reverse-reverse t))

split_once-line_of :
    (k v : Text) → every is_key_byte k ≡ true → split_once b'=' (k ++ (b'=' ∷ v)) ≡ some (k, v)
unfolding split_once every
split_once-line_of [] v h = refl
split_once-line_of (c ∷ k) v h =
    rw ((key_byte_plain c (ground arith)).1, split_once-line_of k v (ground arith)) refl

abbrev pub AreKeys : Entries → Type 0
AreKeys [] = Unit
AreKeys ((k, v) ∷ es) = (is_key k ≡ true) × AreKeys es

pub key_bytes : (k : Text) → is_key k ≡ true → every is_key_byte k ≡ true
key_bytes [] h = ground arith
key_bytes (c ∷ k) h = h

-- An entry's line sets its key to its value.
pub value_of-line_of :
    (k j v : Text) (later : Option Text)
    → is_key j ≡ true
    → value_of k (split_once b'=' (line_of (j, v))) later ≡ (if text_eq j k then some v else later)
value_of-line_of k j v later h =
    rw (split_once-line_of j v (key_bytes j h), trim-key j (key_bytes j h)) refl

pub value_in-entries :
    (k : Text) (es : Entries) → AreKeys es → value_in k (map line_of es) ≡ get k es
unfolding value_in get
value_in-entries k [] h = refl
value_in-entries k ((j, v) ∷ es) (hj, h) =
    value_of-line_of k j v (value_in k (map line_of es)) hj
    ∙ ap (λ o. if text_eq j k then some v else o) (value_in-entries k es h)

pub get-remove : (k j : Text) (es : Entries) → text_eq j k ≡ false → get k (remove j es) ≡ get k es
unfolding get remove
get-remove k j [] h = refl
get-remove k j ((i, v) ∷ es) h = elim (Bool-cases (text_eq i j)) [
  | inr other ↦ rw other (ap (λ o. if text_eq i k then some v else o) (get-remove k j es h))
  | inl same ↦
      let away : text_eq i k ≡ false =
        subst (λ t. text_eq t k ≡ false) (sym ((text_eq_iff i j).0 same)) h in
      rw (same, away) (get-remove k j es h)
]

pub AreKeys-remove : (j : Text) (es : Entries) → AreKeys es → AreKeys (remove j es)
unfolding remove
AreKeys-remove j [] h = h
AreKeys-remove j ((i, v) ∷ es) (hi, h) = elim (Bool-cases (text_eq i j)) [
  | inl same ↦ rw same (AreKeys-remove j es h)
  | inr other ↦ rw other (hi, AreKeys-remove j es h)
]

pub get-AreKeys : (k v : Text) (es : Entries) → AreKeys es → get k es ≡ some v → is_key k ≡ true
unfolding get
get-AreKeys k v [] h e = ground arith
get-AreKeys k v ((j, w) ∷ es) (hj, h) e = elim (Bool-cases (text_eq j k)) [
  | inl same ↦ subst (λ t. is_key t ≡ true) ((text_eq_iff j k).0 same) hj
  | inr other ↦ get-AreKeys k v es h (ground arith)
]

-- A line whose key no entry has.
