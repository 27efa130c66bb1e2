-- ===== src/Qos/Reconcile/Install.antt =====
-- The second loop of `reconcile`: what is wanted is journaled, then added and looked for.
use nfqttl.Base.{
  ℕ, ◌≡◌, refl, sym, ap, ◌∙◌, subst, ◌⊎◌, inl, inr, Bool, true, false, Bool-cases, List, Option,
  some, Result, Error, ok, err, panic, stuck,
}
use nfqttl.Base.Runs.{andthen, Ends, Ends-andthen}
use nfqttl.Base.Text.{Text, text_eq, text_eq_iff}
use nfqttl.Qos.{Options}
use nfqttl.Qos.Message.{Qdisc}
use nfqttl.Qos.Desired.{Wanted}
use nfqttl.Qos.Journals.{journal_name, journal_text}
use nfqttl.Qos.Journals.Read.{decoded, value_of}
use nfqttl.Qos.Journals.Reread.{IsSmall, read_journal-journal_text}
use nfqttl.Qos.Reconcile.{Shaper, find, has_owned, checked, added}
use nfqttl.Qos.Reconcile.Kernel.{
  Kernel, journal_name-apart, Live, journaled, IsCovered, Same-IsCovered,
}

some_pair : (v w : ℕ × Options) → some v ≡ some w → v ≡ w
some_pair v w h = cc

module _ {S : Type 0} (b : Shaper S) (view : S → List Qdisc) (file : Text → S → Option Text)
    (law : Kernel b view file) (again : List Qdisc) (wanted saved : Wanted) where
  abbrev at : Text → S → Option (ℕ × Options)
  at iface s = journaled view file iface s

  abbrev Covered : S → Type 0
  Covered = IsCovered view file

  pub record Installing (s : S) : Type 0 where
    pub covered : Covered s
    pub known : (t : Text) (v : ℕ × Options) → at t s ≡ some v → find t wanted ≡ some v
    pub lives : (j : ℕ) (p : Options) → has_owned again j p ≡ true → Live view file j p s
    pub kept :
        (t : Text) (v : ℕ × Options)
        → find t saved ≡ some v
        → find t wanted ≡ some v
        → has_owned again v.0 v.1 ≡ true
        → at t s ≡ some v

  -- Qdiscs and wanted journals stay.
  pub record Grows (s t : S) : Type 0 where
    pub lives : (j : ℕ) (p : Options) → Live view file j p s → Live view file j p t
    pub journals :
        (u : Text) (v : ℕ × Options) → find u wanted ≡ some v → at u s ≡ some v → at u t ≡ some v

  -- The interface is shaped, and journaled.
  abbrev pub IsShaped : S → Text × (ℕ × Options) → Type 0
  IsShaped s (iface, (j, p)) = Live view file j p s × (at iface s ≡ some (j, p))

  -- A state with the same qdiscs and journals.
  same_state :
      (s t : S)
      → view t ≡ view s
      → ((f : Text) → file f t ≡ file f s)
      → Installing s × Grows s t
      → Installing t
  same_state s t v f (r, g) = record {
    covered = Same-IsCovered view file s t (record { qdiscs = v; files = f }) r.covered;
    known = λ u w e. r.known u w (sym (ap decoded (f (journal_name u))) ∙ e);
    lives = λ j p l. g.lives j p (r.lives j p l);
    kept = λ u w a c o. g.journals u w c (r.kept u w a c o);
  }

  same-Grows : (s t : S) → view t ≡ view s → ((f : Text) → file f t ≡ file f s) → Grows s t
  same-Grows s t v f = record {
    lives = λ j p l. subst (λ qs. has_owned qs j p ≡ true) (sym v) l;
    journals = λ u w a e. ap decoded (f (journal_name u)) ∙ e;
  }

  pub Grows-trans : (s t u : S) → Grows s t → Grows t u → Grows s u
  Grows-trans s t u g h = record {
    lives = λ j p l. h.lives j p (g.lives j p l);
    journals = λ x v a e. h.journals x v a (g.journals x v a e);
  }

  module _ (iface : Text) (j : ℕ) (p : Options) (is_wanted : find iface wanted ≡ some (j, p))
      (small : IsSmall j p) where
    -- From the journal on.
    abbrev Journaled : S → S → Type 0
    Journaled s t = Installing t × Grows s t × (at iface t ≡ some (j, p))

    written :
        (s t : S)
        → Installing s
        → view t ≡ view s
        → ((g : Text) → text_eq (journal_name iface) g ≡ false → file g t ≡ file g s)
        → file (journal_name iface) t ≡ some (journal_text j p)
        → Journaled s t
    written s t r v o e = (
      record {
        covered = λ i q l.
            let (u, k) = r.covered i q (subst (λ qs. has_owned qs i q ≡ true) v l) in
            (u, stays u (i, q) (r.known u (i, q) k) k);
        known = λ u w k. knowing u w k (text_eq iface u) refl;
        lives = λ i q l. subst (λ qs. has_owned qs i q ≡ true) (sym v) (r.lives i q l);
        kept = λ u w a c l. stays u w c (r.kept u w a c l);
      },
      record {
        lives = λ i q l. subst (λ qs. has_owned qs i q ≡ true) (sym v) l;
        journals = λ u w a k. stays u w a k;
      },
      here,
    )
      where
        here : at iface t ≡ some (j, p)
        here = ap decoded e ∙ ap value_of (read_journal-journal_text j p small)

        other : (u : Text) → text_eq iface u ≡ false → at u t ≡ at u s
        other u n = ap decoded (o (journal_name u) (journal_name-apart iface u n))

        stays :
            (u : Text) (w : ℕ × Options)
            → find u wanted ≡ some w
            → at u s ≡ some w
            → at u t ≡ some w
        stays u w a k = go (text_eq iface u) refl
          where
            go : (c : Bool) → text_eq iface u ≡ c → at u t ≡ some w
            go false n = other u n ∙ k
            go true n =
                let name : iface ≡ u = (text_eq_iff iface u).0 n in
                ap (λ x. at x t) (sym name)
                ∙ (here ∙ (sym is_wanted ∙ (ap (λ x. find x wanted) name ∙ a)))

        knowing :
            (u : Text) (w : ℕ × Options)
            → at u t ≡ some w
            → (c : Bool) → text_eq iface u ≡ c
            → find u wanted ≡ some w
        knowing u w k false n = r.known u w (sym (other u n) ∙ k)
        knowing u w k true n =
            let name : iface ≡ u = (text_eq_iff iface u).0 n in
            ap (λ x. find x wanted) (sym name)
            ∙ (is_wanted ∙ (sym here ∙ (ap (λ x. at x t) name ∙ k)))

    written-Ends :
        (s : S)
        → Installing s
        → Ends
            (λ _ t. Journaled s t)
            Covered
            (b.replace_file (journal_name iface) (journal_text j p) s)
    written-Ends s r =
        ends (b.replace_file (journal_name iface) (journal_text j p) s)
          (law.replaced_file (journal_name iface) (journal_text j p) s)
          (law.replaced_view (journal_name iface) (journal_text j p) s)
          (λ g n. law.replaced_other (journal_name iface) (journal_text j p) g s n)
      where
        failed :
            (t : S)
            → view t ≡ view s
            → ((g : Text) → text_eq (journal_name iface) g ≡ false → file g t ≡ file g s)
            → file (journal_name iface) t ≡ file (journal_name iface) s
            → Covered t
        failed t v o e =
            Same-IsCovered view file s t
              (record { qdiscs = v; files = λ g. whole g (text_eq (journal_name iface) g) refl })
              r.covered
          where
            whole : (g : Text) (c : Bool) → text_eq (journal_name iface) g ≡ c → file g t ≡ file g s
            whole g false n = o g n
            whole g true n =
                subst (λ x. file x t ≡ file x s) ((text_eq_iff (journal_name iface) g).0 n) e

        ends :
            (m : Result Error (Unit {0}) × S)
            → Ends
                (λ _ t. file (journal_name iface) t ≡ some (journal_text j p))
                (λ t. file (journal_name iface) t ≡ file (journal_name iface) s)
                m
            → view m.1 ≡ view s
            → ((g : Text) → text_eq (journal_name iface) g ≡ false → file g m.1 ≡ file g s)
            → Ends (λ _ t. Journaled s t) Covered m
        ends (ok u, t) e v o = written s t r v o e
        ends (err x, t) e v o = failed t v o e
        ends (panic, t) e v o = failed t v o e
        ends (stuck, t) e v o = failed t v o e

    -- Whatever `add` returns, its qdisc is in the journal.
    added-Journaled : (s t : S) → Journaled s t → Journaled s (b.add j p t).1
    added-Journaled s t (r, g, e) = (
      record {
        covered = λ i q l. covering i q (law.added_only j p i q t l);
        known = λ u w k. r.known u w (sym (same u) ∙ k);
        lives = λ i q l. law.added_keeps j p i q t (r.lives i q l);
        kept = λ u w a c l. same u ∙ r.kept u w a c l;
      },
      record {
        lives = λ i q l. law.added_keeps j p i q t (g.lives i q l);
        journals = λ u w a k. same u ∙ g.journals u w a k;
      },
      same iface ∙ e,
    )
      where
        same : (u : Text) → at u (b.add j p t).1 ≡ at u t
        same u = ap decoded (law.added_files j p (journal_name u) t)

        covering :
            (i : ℕ) (q : Options)
            → ((i ≡ j) × (q ≡ p)) ⊎ (Live view file i q t)
            → (u : Text) × (at u (b.add j p t).1 ≡ some (i, q))
        covering i q (inl (ei, eq)) =
            let pair : some (j, p) ≡ some (i, q) = cc in (iface, (same iface ∙ e) ∙ pair)
        covering i q (inr l) = let (u, k) = r.covered i q l in (u, same u ∙ k)

    pub added-Ends :
        (s : S)
        → Installing s
        → Ends
            (λ _ t. Installing t × Grows s t × IsShaped t (iface, (j, p)))
            Covered
            (added b iface j p s)
    added-Ends s r =
        Ends-andthen (λ _ t. Journaled s t) Covered
          (λ _ t. Installing t × Grows s t × IsShaped t (iface, (j, p))) Covered _ _
          (written-Ends s r) (λ _ t q. at_add (b.add j p t) (added-Journaled s t q)) (λ t c. c)
      where
        shaped :
            (u : S) (qs : List Qdisc)
            → Journaled s u
            → qs ≡ view u
            → Ends
                (λ _ t. Installing t × Grows s t × IsShaped t (iface, (j, p)))
                Covered
                (checked b j p qs u)
        shaped u qs (x, g, e) v = elim (Bool-cases (has_owned qs j p)) [
          | inl own ↦ rw own (x, g, (subst (λ y. has_owned y j p ≡ true) v own, e))
          | inr absent ↦ rw absent x.covered
        ]

        at_dump :
            (u : S) (m : Result Error (List Qdisc) × S)
            → Journaled s u
            → Ends
                (λ qs t. (qs ≡ view u) × (view t ≡ view u) × ((f : Text) → file f t ≡ file f u))
                (λ t. (view t ≡ view u) × ((f : Text) → file f t ≡ file f u))
                m
            → Ends
                (λ _ t. Installing t × Grows s t × IsShaped t (iface, (j, p)))
                Covered
                (andthen m (checked b j p))
        at_dump u (ok qs, t) (x, g, e) (q, v, f) =
            let later = same-Grows u t v f in
            shaped t qs
              (
                same_state u t v f (x, later),
                Grows-trans s u t g later,
                ap decoded (f (journal_name iface)) ∙ e,
              )
              (q ∙ sym v)
        at_dump u (err y, t) (x, g, e) (v, f) =
            Same-IsCovered view file u t (record { qdiscs = v; files = f }) x.covered
        at_dump u (panic, t) (x, g, e) (v, f) =
            Same-IsCovered view file u t (record { qdiscs = v; files = f }) x.covered
        at_dump u (stuck, t) (x, g, e) (v, f) =
            Same-IsCovered view file u t (record { qdiscs = v; files = f }) x.covered

        at_add :
            (m : Result Error (Unit {0}) × S)
            → Journaled s m.1
            → Ends
                (λ _ t. Installing t × Grows s t × IsShaped t (iface, (j, p)))
                Covered
                (andthen m (λ _ u. andthen (b.roots u) (checked b j p)))
        at_add (ok u, t) q = at_dump t (b.roots t) q (law.dumped t)
        at_add (err y, t) (x, g, e) = x.covered
        at_add (panic, t) (x, g, e) = x.covered
        at_add (stuck, t) (x, g, e) = x.covered
