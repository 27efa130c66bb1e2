-- ===== src/Offload/Journal.antt =====
-- What the journal holds, and that `apply` keeps it.
use nfqttl.Base.{
  ◌≡◌, refl, sym, ap, ◌∙◌, subst, ◌⊎◌, inl, inr, Bool, true, false, Bool-cases, Option-cases, none,
  some,
}
use nfqttl.Base.Text.{Text, text_eq, text_eq_iff}
use nfqttl.Offload.{
  Key, Device, new_of, before_file, owned_file, is_valid, read, write, marked, saved, replaced,
  apply_key,
}
use nfqttl.Offload.Store.{Store, owned_before, before_owned, Same}
use nfqttl.Offload.Trimmed.{trim-valid, trim-new_of, some_not_none, some_same, true_not_false}

module _ {S : Type 0} (d : Device S) (Value : Key → S → Text) (law : Store d Value) (k : Key)
    (orig : Text) where
  -- The setting is as it was, or it is the new one and the journal says that it is the program's.
  abbrev pub Held : S → Type 0
  Held s =
      (d.file (before_file k) s ≡ some orig)
      × ((Value k s ≡ orig)
          ⊎ ((Value k s ≡ new_of k) × (d.file (owned_file k) s ≡ some (new_of k))))

  -- No journal and the setting as it was, or the setting as it was in the journal.
  abbrev pub IsSafe : S → Type 0
  IsSafe s = ((d.file (owned_file k) s ≡ none) × (Value k s ≡ orig)) ⊎ Held s

  pub Same-IsSafe : (s t : S) → Same d Value law k s t → IsSafe s → IsSafe t
  Same-IsSafe s t e (inl (o, v)) = inl (e.owned ∙ o, e.value ∙ v)
  Same-IsSafe s t e (inr (b, inl v)) = inr (e.before ∙ b, inl (e.value ∙ v))
  Same-IsSafe s t e (inr (b, inr (v, o))) = inr (e.before ∙ b, inr (e.value ∙ v, e.owned ∙ o))

  write-Held :
      (s : S)
      → d.file (before_file k) s ≡ some orig
      → Value k s ≡ orig
      → d.file (owned_file k) s ≡ some (new_of k)
      → IsSafe (write d k (new_of k) s).1
  write-Held s b v o =
      inr (law.put_file k (new_of k) (before_file k) s ∙ b, either (law.put k (new_of k) s))
    where
      either :
          (Value k (write d k (new_of k) s).1 ≡ new_of k)
            ⊎ (Value k (write d k (new_of k) s).1 ≡ Value k s)
          → (Value k (write d k (new_of k) s).1 ≡ orig)
            ⊎ ((Value k (write d k (new_of k) s).1 ≡ new_of k)
                × (d.file (owned_file k) (write d k (new_of k) s).1 ≡ some (new_of k)))
      either (inl e) = inr (e, law.put_file k (new_of k) (owned_file k) s ∙ o)
      either (inr e) = inl (e ∙ v)

  -- With the old value in the journal, the new one is marked and written.
  marked-IsSafe :
      (s : S)
      → d.file (before_file k) s ≡ some orig
      → Value k s ≡ orig
      → IsSafe (marked d k (d.write_file (owned_file k) (new_of k) s))
  marked-IsSafe s b v =
      at (d.write_file (owned_file k) (new_of k) s)
        (λ h. law.kept (owned_file k) (new_of k) s h ∙ ap some (trim-new_of k))
        (law.kept_other (owned_file k) (before_file k) (new_of k) s (owned_before k) ∙ b)
        (law.kept_value k (owned_file k) (new_of k) s ∙ v)
    where
      at :
          (m : Bool × S)
          → (m.0 ≡ true → d.file (owned_file k) m.1 ≡ some (new_of k))
          → d.file (before_file k) m.1 ≡ some orig
          → Value k m.1 ≡ orig
          → IsSafe (marked d k m)
      at (false, t) o b v = inr (b, inl v)
      at (true, t) o b v = write-Held t b v (o refl)

  saved-IsSafe :
      (old : Text) (s : S)
      → is_valid k old ≡ true
      → old ≡ orig
      → d.file (owned_file k) s ≡ none
      → Value k s ≡ orig
      → IsSafe (saved d k (d.write_file (before_file k) old s))
  saved-IsSafe old s valid e o v =
      at (d.write_file (before_file k) old s)
        (λ h. law.kept (before_file k) old s h ∙ ap some (trim-valid k old valid ∙ e))
        (law.kept_other (before_file k) (owned_file k) old s (before_owned k) ∙ o)
        (law.kept_value k (before_file k) old s ∙ v)
    where
      at :
          (m : Bool × S)
          → (m.0 ≡ true → d.file (before_file k) m.1 ≡ some orig)
          → d.file (owned_file k) m.1 ≡ none
          → Value k m.1 ≡ orig
          → IsSafe (saved d k m)
      at (false, t) b o v = inl (o, v)
      at (true, t) b o v = marked-IsSafe t (b refl) v

  -- A setting that is not the new one is as it was.
  unchanged : (s : S) → IsSafe s → text_eq (Value k s) (new_of k) ≡ false → Value k s ≡ orig
  unchanged s (inl (o, v)) n = v
  unchanged s (inr (b, inl v)) n = v
  unchanged s (inr (b, inr (v, o))) n =
      absurd (true_not_false (sym ((text_eq_iff (Value k s) (new_of k)).1 v) ∙ n))

  -- The journal, when the file that marks the setting is there.
  pub held :
      (s : S) (ours : Text)
      → IsSafe s
      → d.file (owned_file k) s ≡ some ours
      → (d.file (before_file k) s ≡ some orig)
        × ((Value k s ≡ orig) ⊎ ((Value k s ≡ new_of k) × (ours ≡ new_of k)))
  held s ours (inl (o, v)) e = absurd (some_not_none ours (sym e ∙ o))
  held s ours (inr (b, inl v)) e = (b, inl v)
  held s ours (inr (b, inr (v, o))) e = (b, inr (v, some_same ours (new_of k) (sym e ∙ o)))

  replaced-IsSafe :
      (old : Text) (s : S) → IsSafe s → old ≡ Value k s → IsSafe (replaced d k (some old) s)
  replaced-IsSafe old s h e = elim (Bool-cases (is_valid k old)) [
    | inr invalid ↦ rw invalid h
    | inl valid ↦ elim (Bool-cases (text_eq old (new_of k))) [
      | inl same ↦ rw (valid, same) h
      | inr differs ↦
          let v = unchanged s h (subst (λ t. text_eq t (new_of k) ≡ false) e differs) in
          rw (valid, differs)
            (elim (Option-cases (d.file (owned_file k) s)) [
              | inl o ↦ rw o (saved-IsSafe old s valid (e ∙ v) o v)
              | inr (ours, o) ↦ rw o (marked-IsSafe s (held s ours h o).0 v)
            ])
    ]
  ]

  pub apply_key-IsSafe : (s : S) → IsSafe s → IsSafe (apply_key d k s)
  unfolding apply_key
  apply_key-IsSafe s h = elim (Option-cases (read d k s)) [
    | inl e ↦ rw e h
    | inr (old, e) ↦ rw e (replaced-IsSafe old s h (law.honest k old s e))
  ]
