-- ===== src/Offload/Restored.antt =====
-- The value of a setting is never lost.
use nfqttl.Base.{
  ◌≡◌, refl, sym, ap, ◌∙◌, subst, ◌⊎◌, inl, inr, Bool, true, false, if◌then◌else◌, Bool-cases,
  Option-cases, List, [], ◌∷◌, Option, none, some,
}
use nfqttl.Base.Text.{Text, text_eq, text_eq_iff, text_eq_refl}
use nfqttl.Offload.{
  Key, hw, bpf, bpf_tethering, Device, new_of, before_file, owned_file, is_value, read, write,
  apply_key, apply, forgotten, put_back, compared, restore_key, restore,
}
use nfqttl.Offload.Store.{
  Store, removed, same_key, before_owned, Same, apply_key-Same, restore_key-Same,
}
use nfqttl.Offload.Trimmed.{some_not_none, true_not_false, Key-cases, last_key}
use nfqttl.Offload.Journal.{IsSafe, Same-IsSafe, held, apply_key-IsSafe}

-- A call of the daemon or of a control command.
pub data Call : Type 0 where
  applying : Bool → Call
  restoring : Call

module _ {S : Type 0} (d : Device S) (Value : Key → S → Text) (law : Store d Value) (k : Key)
    (orig : Text) where
  abbrev Safe : S → Type 0
  Safe s = IsSafe d Value law k orig s

  -- Without the journal the setting has to be as it was.
  forgotten-IsSafe : (s : S) → Value k s ≡ orig → Safe (forgotten d k s)
  forgotten-IsSafe s v = inl (
    law.gone_other (before_file k) (owned_file k) (d.remove_file (owned_file k) s).1
          (before_owned k)
        ∙ removed d Value law (owned_file k) s,
    law.gone_value k (before_file k) (d.remove_file (owned_file k) s).1
        ∙ (law.gone_value k (owned_file k) s ∙ v),
  )

  put_back-IsSafe :
      (s : S) (ours : Text)
      → Safe s
      → d.file (owned_file k) s ≡ some ours
      → Safe (put_back d k orig (write d k orig s))
  put_back-IsSafe s ours h o = at (write d k orig s) (written (law.put k orig s) h)
    where
      written :
          (Value k (write d k orig s).1 ≡ orig) ⊎ (Value k (write d k orig s).1 ≡ Value k s)
          → Safe s
          → Safe (write d k orig s).1
      written (inl e) h =
          inr
            (law.put_file k orig (before_file k) s ∙ (held d Value law k orig s ours h o).0, inl e)
      written (inr e) h =
          Same-IsSafe d Value law k orig s (write d k orig s).1
            (record {
              value = e;
              owned = law.put_file k orig (owned_file k) s;
              before = law.put_file k orig (before_file k) s;
            })
            h

      checked :
          (t : S) (r : Option Text)
          → read d k t ≡ r
          → Safe t
          → Safe (if is_value r orig then forgotten d k t else t)
      checked t none e h = h
      checked t (some now) e h = elim (Bool-cases (text_eq now orig)) [
        | inl same ↦
            rw same
              (forgotten-IsSafe t (sym (law.honest k now t e) ∙ (text_eq_iff now orig).0 same))
        | inr differs ↦ rw differs h
      ]

      at : (m : Bool × S) → Safe m.1 → Safe (put_back d k orig m)
      at (false, t) h = h
      at (true, t) h = checked t (read d k t) refl h

  compared-IsSafe :
      (s : S) (ours now : Text)
      → Safe s
      → d.file (owned_file k) s ≡ some ours
      → now ≡ Value k s
      → Safe (compared d k ours (some now) s)
  compared-IsSafe s ours now h o e = elim (Bool-cases (text_eq now ours)) [
    | inl same ↦ rw (same, (held d Value law k orig s ours h o).0) (put_back-IsSafe s ours h o)
    | inr differs ↦
        rw differs (forgotten-IsSafe s (either (held d Value law k orig s ours h o).1 differs))
  ]
    where
      either :
          (Value k s ≡ orig) ⊎ ((Value k s ≡ new_of k) × (ours ≡ new_of k))
          → text_eq now ours ≡ false
          → Value k s ≡ orig
      either (inl v) n = v
      either (inr (v, u)) n =
          absurd (true_not_false (sym ((text_eq_iff now ours).1 (e ∙ (v ∙ sym u))) ∙ n))

  restore_key-IsSafe : (s : S) → Safe s → Safe (restore_key d k s)
  unfolding restore_key
  restore_key-IsSafe s h = elim (Option-cases (d.file (owned_file k) s)) [
    | inl o ↦ rw o h
    | inr (ours, o) ↦ rw o (elim (Option-cases (read d k s)) [
      | inl e ↦ rw e h
      | inr (now, e) ↦ rw e (compared-IsSafe s ours now h o (law.honest k now s e))
    ])
  ]

  any_key :
      (j : Key) (s t : S)
      → (j ≡ k → Safe t)
      → ((same_key j k ≡ false) → Same d Value law k s t)
      → Safe s
      → Safe t
  any_key j s t own other h = elim (Key-cases j k) [
    | inl e ↦ own e
    | inr e ↦ Same-IsSafe d Value law k orig s t (other e) h
  ]

  applied : (j : Key) (s : S) → Safe s → Safe (apply_key d j s)
  applied j s h =
      any_key j s (apply_key d j s)
        (λ e. subst (λ l. Safe (apply_key d l s)) (sym e) (apply_key-IsSafe d Value law k orig s h))
        (λ e. apply_key-Same d Value law k j e s) h

  restored : (j : Key) (s : S) → Safe s → Safe (restore_key d j s)
  restored j s h =
      any_key j s (restore_key d j s)
        (λ e. subst (λ l. Safe (restore_key d l s)) (sym e) (restore_key-IsSafe s h))
        (λ e. restore_key-Same d Value law k j e s) h

  pub apply-IsSafe : (enabled : Bool) (s : S) → Safe s → Safe (apply d enabled s)
  unfolding apply
  apply-IsSafe false s h = h
  apply-IsSafe true s h = applied bpf_tethering _ (applied bpf _ (applied hw s h))

  pub restore-IsSafe : (s : S) → Safe s → Safe (restore d s)
  unfolding restore
  restore-IsSafe s h = restored bpf_tethering _ (restored bpf _ (restored hw s h))

  abbrev pub called : Call → S → S
  called (applying enabled) s = apply d enabled s
  called restoring s = restore d s

  abbrev pub all_called : List Call → S → S
  all_called [] s = s
  all_called (c ∷ cs) s = all_called cs (called c s)

  all_called_keep : (cs : List Call) (s : S) → Safe s → Safe (all_called cs s)
  all_called_keep [] s h = h
  all_called_keep (applying enabled ∷ cs) s h = all_called_keep cs _ (apply-IsSafe enabled s h)
  all_called_keep (restoring ∷ cs) s h = all_called_keep cs _ (restore-IsSafe s h)

  -- For a system that keeps its files and settings: if at first a setting has no journal, then after
  -- any calls of `apply` and `restore`, whichever commands and writes of files fail in them, if only
  -- files that are there can be removed, the setting is as it was, or its value at first is in the journal, and it either still has that value
  -- or it has the new one, which the journal marks as the program's. Where the mark is not there the
  -- setting is as it was.
  pub all_called-IsSafe :
      (cs : List Call) (s : S)
      → d.file (owned_file k) s ≡ none
      → Value k s ≡ orig
      → Safe (all_called cs s)
  all_called-IsSafe cs s o v = all_called_keep cs s (inl (o, v))

  -- Commands that do what they are asked to.
  pub record Works : Type 0 where
    pub reads : (s : S) → read d k s ≡ some (Value k s)
    pub writes : (v : Text) (s : S) → (write d k v s).0 ≡ true
    pub changes : (v : Text) (s : S) → Value k (write d k v s).1 ≡ v

  pub cleared : (s : S) → Safe s → d.file (owned_file k) s ≡ none → Value k s ≡ orig
  cleared s (inl (o, v)) n = v
  cleared s (inr (b, inl v)) n = v
  cleared s (inr (b, inr (v, o))) n = absurd (some_not_none (new_of k) (sym o ∙ n))

  forgotten-none : (s : S) → d.file (owned_file k) (forgotten d k s) ≡ none
  forgotten-none s =
      law.gone_other (before_file k) (owned_file k) (d.remove_file (owned_file k) s).1
        (before_owned k)
      ∙ removed d Value law (owned_file k) s

  put_back-none :
      Works → (s : S) → d.file (owned_file k) (put_back d k orig (write d k orig s)) ≡ none
  put_back-none works s =
      at (write d k orig s) (works.writes orig s)
        (works.reads (write d k orig s).1 ∙ ap some (works.changes orig s))
    where
      at :
          (m : Bool × S)
          → m.0 ≡ true
          → read d k m.1 ≡ some orig
          → d.file (owned_file k) (put_back d k orig m) ≡ none
      at (false, t) w r = absurd (true_not_false (sym w))
      at (true, t) w r = rw (r, text_eq_refl orig) (forgotten-none t)

  restore_key-none : Works → (s : S) → Safe s → d.file (owned_file k) (restore_key d k s) ≡ none
  unfolding restore_key
  restore_key-none works s h = elim (Option-cases (d.file (owned_file k) s)) [
    | inl o ↦ rw o o
    | inr (ours, o) ↦
        rw (o, works.reads s)
          (elim (Bool-cases (text_eq (Value k s) ours)) [
            | inl same ↦ rw (same, (held d Value law k orig s ours h o).0) (put_back-none works s)
            | inr differs ↦ rw differs (forgotten-none s)
          ])
  ]

  own_none :
      Works → (j : Key) (s : S) → Safe s → j ≡ k → d.file (owned_file k) (restore_key d j s) ≡ none
  own_none works j s h e =
      subst (λ l. d.file (owned_file k) (restore_key d l s) ≡ none) (sym e)
        (restore_key-none works s h)

  -- The mark of the key goes with its own step, and stays away in the others.
  restored-none :
      Works
      → (j : Key) (s : S) → Safe s
      → (j ≡ k) ⊎ (d.file (owned_file k) s ≡ none)
      → d.file (owned_file k) (restore_key d j s) ≡ none
  restored-none works j s h (inl e) = own_none works j s h e
  restored-none works j s h (inr n) = elim (Key-cases j k) [
    | inl e ↦ own_none works j s h e
    | inr e ↦ (restore_key-Same d Value law k j e s).owned ∙ n
  ]

  pub restore-none : Works → (s : S) → Safe s → d.file (owned_file k) (restore d s) ≡ none
  unfolding restore
  restore-none works s h = chain (Key-cases hw k) (Key-cases bpf k)
    where
      a : S
      a = restore_key d hw s

      b : S
      b = restore_key d bpf a

      chain :
          (hw ≡ k) ⊎ (same_key hw k ≡ false)
          → (bpf ≡ k) ⊎ (same_key bpf k ≡ false)
          → d.file (owned_file k) (restore d s) ≡ none
      chain (inl e) m = restored-none works bpf_tethering b (restored bpf a (restored hw s h)) (
          inr (
            restored-none works bpf a (restored hw s h) (inr (restored-none works hw s h (inl e)))))
      chain (inr n) (inl e) =
          restored-none works bpf_tethering b (restored bpf a (restored hw s h))
            (inr (restored-none works bpf a (restored hw s h) (inl e)))
      chain (inr n) (inr m) =
          restored-none works bpf_tethering b (restored bpf a (restored hw s h))
            (inl (last_key k n m))

  -- For a system that keeps its files and settings, and commands that work for a setting: if at
  -- first the setting has no journal, then after any calls of `apply` and `restore` a `restore` gives
  -- it the value that it had at first, and takes the mark away.
  pub restore-all_called :
      Works
      → (cs : List Call) (s : S) → d.file (owned_file k) s ≡ none
      → Value k s ≡ orig
      → (Value k (restore d (all_called cs s)) ≡ orig)
        × (d.file (owned_file k) (restore d (all_called cs s)) ≡ none)
  restore-all_called works cs s o v =
      let safe = all_called-IsSafe cs s o v in
      let n = restore-none works (all_called cs s) safe in
      (cleared (restore d (all_called cs s)) (restore-IsSafe (all_called cs s) safe) n, n)
