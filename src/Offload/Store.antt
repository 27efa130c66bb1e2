-- ===== src/Offload/Store.antt =====
-- What the journal relies on, and what a key's operations leave alone.
use nfqttl.Base.{
  ◌≡◌, refl, ◌∙◌, arith, ◌⊎◌, inl, inr, Option-cases, Bool, true, false, not, if◌then◌else◌, Option,
  none, some,
}
use nfqttl.Base.Text.{Text, text_eq, trim}
use nfqttl.Offload.{
  Key, hw, bpf, bpf_tethering, Device, new_of, before_file, owned_file, is_there, is_value,
  is_valid, read, write, marked, saved, replaced, apply_key, forgotten, put_back, given_back,
  compared, released, restore_key,
}

abbrev pub same_key : Key → Key → Bool
same_key hw hw = true
same_key bpf bpf = true
same_key bpf_tethering bpf_tethering = true
same_key _ _ = false

-- A command that writes a setting changes that setting to the value given, or nothing, whatever it
-- reports. A setting that can be read has the value that is read. A file that was written without an
-- error has its text, and one that was removed without an error is gone. Files that are there can be
-- removed.
pub record Store {S : Type 0} (d : Device S) (Value : Key → S → Text) : Type 0 where
  pub honest : (k : Key) (v : Text) (s : S) → read d k s ≡ some v → v ≡ Value k s
  pub put :
      (k : Key) (v : Text) (s : S)
      → (Value k (write d k v s).1 ≡ v) ⊎ (Value k (write d k v s).1 ≡ Value k s)
  pub put_other :
      (k j : Key) (v : Text) (s : S) → same_key k j ≡ false → Value j (write d k v s).1 ≡ Value j s
  pub put_file : (k : Key) (v f : Text) (s : S) → d.file f (write d k v s).1 ≡ d.file f s
  pub kept :
      (f v : Text) (s : S)
      → (d.write_file f v s).0 ≡ true
      → d.file f (d.write_file f v s).1 ≡ some (trim v)
  pub kept_other :
      (f g v : Text) (s : S) → text_eq f g ≡ false → d.file g (d.write_file f v s).1 ≡ d.file g s
  pub kept_value : (k : Key) (f v : Text) (s : S) → Value k (d.write_file f v s).1 ≡ Value k s
  pub gone :
      (f : Text) (s : S) → (d.remove_file f s).0 ≡ true → d.file f (d.remove_file f s).1 ≡ none
  pub not_there : (f : Text) (s : S) → d.file f s ≡ none → d.file f (d.remove_file f s).1 ≡ none
  pub removable : (f v : Text) (s : S) → d.file f s ≡ some v → (d.remove_file f s).0 ≡ true
  pub gone_other :
      (f g : Text) (s : S) → text_eq f g ≡ false → d.file g (d.remove_file f s).1 ≡ d.file g s
  pub gone_value : (k : Key) (f : Text) (s : S) → Value k (d.remove_file f s).1 ≡ Value k s

pub removed :
    {S : Type 0} (d : Device S) (Value : Key → S → Text) (law : Store d Value) (f : Text) (s : S)
    → d.file f (d.remove_file f s).1 ≡ none
removed d Value law f s = elim (Option-cases (d.file f s)) [
  | inl e ↦ law.not_there f s e
  | inr (v, e) ↦ law.gone f s (law.removable f v s e)
]

abbrev Differ : Key → Key → Type 0
Differ j k =
    (text_eq (owned_file j) (owned_file k) ≡ false)
    × (text_eq (owned_file j) (before_file k) ≡ false)
    × (text_eq (before_file j) (owned_file k) ≡ false)
    × (text_eq (before_file j) (before_file k) ≡ false)

-- The journal's files of two keys are apart.
differ : (j k : Key) → same_key j k ≡ false → Differ j k
unfolding text_eq
differ hw hw h = ground arith
differ bpf bpf h = ground arith
differ bpf_tethering bpf_tethering h = ground arith
differ hw bpf h = (refl, refl, refl, refl)
differ hw bpf_tethering h = (refl, refl, refl, refl)
differ bpf hw h = (refl, refl, refl, refl)
differ bpf bpf_tethering h = (refl, refl, refl, refl)
differ bpf_tethering hw h = (refl, refl, refl, refl)
differ bpf_tethering bpf h = (refl, refl, refl, refl)

pub owned_before : (k : Key) → text_eq (owned_file k) (before_file k) ≡ false
unfolding text_eq
owned_before hw = refl
owned_before bpf = refl
owned_before bpf_tethering = refl

pub before_owned : (k : Key) → text_eq (before_file k) (owned_file k) ≡ false
unfolding text_eq
before_owned hw = refl
before_owned bpf = refl
before_owned bpf_tethering = refl

module _ {S : Type 0} (d : Device S) (Value : Key → S → Text) (law : Store d Value) (k : Key) where
  -- The key's setting and its journal are the same.
  pub record Same (s t : S) : Type 0 where
    pub value : Value k t ≡ Value k s
    pub owned : d.file (owned_file k) t ≡ d.file (owned_file k) s
    pub before : d.file (before_file k) t ≡ d.file (before_file k) s

  same : (s : S) → Same s s
  same s = record { value = refl; owned = refl; before = refl }

  Same-trans : (s t u : S) → Same s t → Same t u → Same s u
  Same-trans s t u a b = record {
    value = b.value ∙ a.value;
    owned = b.owned ∙ a.owned;
    before = b.before ∙ a.before;
  }

  module _ (j : Key) (other : same_key j k ≡ false) where
    apart : Differ j k
    apart = differ j k other

    write-Same : (v : Text) (s : S) → Same s (write d j v s).1
    write-Same v s = record {
      value = law.put_other j k v s other;
      owned = law.put_file j v (owned_file k) s;
      before = law.put_file j v (before_file k) s;
    }

    owned-Same : (v : Text) (s : S) → Same s (d.write_file (owned_file j) v s).1
    owned-Same v s = record {
      value = law.kept_value k (owned_file j) v s;
      owned = law.kept_other (owned_file j) (owned_file k) v s apart.0;
      before = law.kept_other (owned_file j) (before_file k) v s apart.1;
    }

    before-Same : (v : Text) (s : S) → Same s (d.write_file (before_file j) v s).1
    before-Same v s = record {
      value = law.kept_value k (before_file j) v s;
      owned = law.kept_other (before_file j) (owned_file k) v s apart.2;
      before = law.kept_other (before_file j) (before_file k) v s apart.3;
    }

    forgotten-Same : (s : S) → Same s (forgotten d j s)
    forgotten-Same s =
        Same-trans s (d.remove_file (owned_file j) s).1 (forgotten d j s)
          (record {
            value = law.gone_value k (owned_file j) s;
            owned = law.gone_other (owned_file j) (owned_file k) s apart.0;
            before = law.gone_other (owned_file j) (before_file k) s apart.1;
          })
          (record {
            value = law.gone_value k (before_file j) (d.remove_file (owned_file j) s).1;
            owned =
                law.gone_other (before_file j) (owned_file k) (d.remove_file (owned_file j) s).1
                  apart.2;
            before =
                law.gone_other (before_file j) (before_file k) (d.remove_file (owned_file j) s).1
                  apart.3;
          })

    if-Same : (b : Bool) (s t u : S) → Same s t → Same s u → Same s (if b then t else u)
    if-Same true s t u a b = a
    if-Same false s t u a b = b

    saved-Same : (s : S) (m : Bool × S) → Same s m.1 → Same s (saved d j m)
    saved-Same s (false, t) h = h
    saved-Same s (true, t) h =
        marked-Same (d.write_file (owned_file j) (new_of j) t)
          (Same-trans s t _ h (owned-Same (new_of j) t))
      where
        marked-Same : (m : Bool × S) → Same s m.1 → Same s (marked d j m)
        marked-Same (false, u) a = a
        marked-Same (true, u) a = Same-trans s u _ a (write-Same (new_of j) u)

    pub apply_key-Same : (s : S) → Same s (apply_key d j s)
    unfolding apply_key
    apply_key-Same s = replaced-Same (read d j s)
      where
        first :
            (b : Bool) (old : Text)
            → Same s (if b then (true, s) else d.write_file (before_file j) old s).1
        first true old = same s
        first false old = before-Same old s

        replaced-Same : (o : Option Text) → Same s (replaced d j o s)
        replaced-Same none = same s
        replaced-Same (some old) = if-Same (not (is_valid j old)) s _ _ (same s) (
            if-Same (text_eq old (new_of j)) s _ _ (same s)
              (saved-Same s _ (first (is_there (d.file (owned_file j) s)) old)))

    pub restore_key-Same : (s : S) → Same s (restore_key d j s)
    unfolding restore_key
    restore_key-Same s = released-Same (d.file (owned_file j) s)
      where
        put_back-Same : (old : Text) (m : Bool × S) → Same s m.1 → Same s (put_back d j old m)
        put_back-Same old (false, u) a = a
        put_back-Same old (true, u) a =
            if-Same (is_value (read d j u) old) s _ u (Same-trans s u _ a (forgotten-Same u)) a

        given-Same : (o : Option Text) → Same s (given_back d j o s)
        given-Same none = forgotten-Same s
        given-Same (some old) = put_back-Same old (write d j old s) (write-Same old s)

        compared-Same : (ours : Text) (o : Option Text) → Same s (compared d j ours o s)
        compared-Same ours none = same s
        compared-Same ours (some now) =
            if-Same (text_eq now ours) s _ _ (given-Same (d.file (before_file j) s))
              (forgotten-Same s)

        released-Same : (o : Option Text) → Same s (released d j o s)
        released-Same none = same s
        released-Same (some ours) = compared-Same ours (read d j s)
