-- ===== src/Qos/Reconcile/Release.antt =====
-- The first loop of `reconcile`: journals that are not wanted go, after their qdiscs.
use nfqttl.Base.{
  ℕ, ◌≡◌, refl, sym, ap, ◌∙◌, subst, arith, ◌⊎◌, inl, inr, Bool, true, false, ◌&&◌, if◌then◌else◌,
  Bool-cases, List, [], ◌∷◌, Option, none, some, Result, Error, ok, err, panic, stuck, All,
}
use nfqttl.Base.Runs.{Ends, Ends-andthen}
use nfqttl.Base.Text.{Text, text_eq, text_eq_iff}
use nfqttl.Qos.{Options}
use nfqttl.Qos.Message.{Qdisc}
use nfqttl.Qos.Desired.{Wanted}
use nfqttl.Qos.Journals.{journal_name}
use nfqttl.Qos.Journals.Read.{decoded}
use nfqttl.Qos.Journals.Order.{AllAfter, After-apart, IsMap}
use nfqttl.Qos.Reconcile.{Shaper, find, has_owned, is_entry, release_one, release}
use nfqttl.Qos.Reconcile.Kernel.{
  Kernel, clash, journal_name-apart, is_entry_eq, is_entry_self, Live, journaled, IsCovered,
  Same-IsCovered,
}

some_pair : (v w : ℕ × Options) → some v ≡ some w → v ≡ w
some_pair v w h = cc

module _ {S : Type 0} (b : Shaper S) (view : S → List Qdisc) (file : Text → S → Option Text)
    (law : Kernel b view file) (roots : List Qdisc) (wanted saved : Wanted) where
  abbrev at : Text → S → Option (ℕ × Options)
  at iface s = journaled view file iface s

  abbrev Covered : S → Type 0
  Covered = IsCovered view file

  abbrev Found : Wanted → Type 0
  Found m = All (λ (e : Text × (ℕ × Options)). find e.0 saved ≡ some e.1) m

  -- `rest` are the journals that are still to be looked at.
  pub record Releasing (rest : Wanted) (s : S) : Type 0 where
    pub covered : Covered s
    pub stale : (j : ℕ) (p : Options) → Live view file j p s → has_owned roots j p ≡ true
    pub here : All (λ (e : Text × (ℕ × Options)). at e.0 s ≡ some e.1) rest
    pub known :
        (t : Text) (v : ℕ × Options)
        → at t s ≡ some v
        → (find t rest ≡ some v) ⊎ (find t wanted ≡ some v)
    pub kept :
        (t : Text) (v : ℕ × Options)
        → find t saved ≡ some v
        → find t wanted ≡ some v
        → has_owned roots v.0 v.1 ≡ true
        → at t s ≡ some v

  others :
      (iface : Text) (s t : S) (m : Wanted)
      → ((u : Text) → text_eq iface u ≡ false → at u t ≡ at u s)
      → AllAfter iface m
      → All (λ (e : Text × (ℕ × Options)). at e.0 s ≡ some e.1) m
      → All (λ (e : Text × (ℕ × Options)). at e.0 t ≡ some e.1) m
  others iface s t [] same a h = tt
  others iface s t ((u, v) ∷ m) same (a, as_) (h, hs) =
      (same u (After-apart iface u a) ∙ h, others iface s t m same as_ hs)

  module _ (iface : Text) (j : ℕ) (p : Options) (rest : Wanted) (first : AllAfter iface rest) where
    abbrev all_rest : Wanted
    all_rest = (iface, (j, p)) ∷ rest

    abbrev kept_now : Bool
    kept_now = is_entry (find iface wanted) j p && has_owned roots j p

    find_rest :
        (t : Text) (v : ℕ × Options)
        → find t all_rest ≡ some v
        → text_eq iface t ≡ false
        → find t rest ≡ some v
    unfolding find
    find_rest t v h n = subst (λ b. (if b then some (j, p) else find t rest) ≡ some v) n h

    find_first :
        (t : Text) (v : ℕ × Options)
        → find t all_rest ≡ some v
        → text_eq iface t ≡ true
        → (j, p) ≡ v
    unfolding find
    find_first t v h e =
        some_pair (j, p) v (subst (λ b. (if b then some (j, p) else find t rest) ≡ some v) e h)

    -- A journal that is wanted, with its qdisc, stays.
    stays : (s : S) → Releasing all_rest s → find iface wanted ≡ some (j, p) → Releasing rest s
    stays s r w = record {
      covered = r.covered;
      stale = r.stale;
      here = r.here.1;
      known = λ t v e. next t v (text_eq iface t) refl (r.known t v e);
      kept = r.kept;
    }
      where
        next :
            (t : Text) (v : ℕ × Options) (b : Bool)
            → text_eq iface t ≡ b
            → (find t all_rest ≡ some v) ⊎ (find t wanted ≡ some v)
            → (find t rest ≡ some v) ⊎ (find t wanted ≡ some v)
        next t v b e (inr h) = inr h
        next t v false e (inl h) = inl (find_rest t v h e)
        next t v true e (inl h) = inr (
            ap (λ u. find u wanted) (sym ((text_eq_iff iface t).0 e))
            ∙ (w ∙ ap some (find_first t v h e)))

    -- Without its qdisc in the kernel, a journal that does not stay is no longer needed.
    dropped :
        (s t : S)
        → Releasing all_rest s
        → (Live view file j p s → ⊥)
        → find iface saved ≡ some (j, p)
        → kept_now ≡ false
        → view t ≡ view s
        → ((u : Text) → text_eq iface u ≡ false → at u t ≡ at u s)
        → at iface t ≡ none
        → Releasing rest t
    dropped s t r gone f k v same absent = record {
      covered = λ i q l.
          let (u, e) = r.covered i q (live i q l) in
          covering i q u e (live i q l) (text_eq iface u) refl;
      stale = λ i q l. r.stale i q (live i q l);
      here = others iface s t rest same first r.here.1;
      known = λ u w e. knowing u w e (text_eq iface u) refl;
      kept = λ u w a c o. keeping u w a c o (text_eq iface u) refl;
    }
      where
        live : (i : ℕ) (q : Options) → Live view file i q t → Live view file i q s
        live i q l = subst (λ qs. has_owned qs i q ≡ true) v l

        covering :
            (i : ℕ) (q : Options) (u : Text)
            → at u s ≡ some (i, q)
            → Live view file i q s
            → (b : Bool) → text_eq iface u ≡ b
            → (w : Text) × (at w t ≡ some (i, q))
        covering i q u e l false n = (u, same u n ∙ e)
        covering i q u e l true n =
            let pair : (j, p) ≡ (i, q) =
              some_pair (j, p) (i, q)
                (sym r.here.0 ∙ (ap (λ x. at x s) ((text_eq_iff iface u).0 n) ∙ e)) in
            absurd (gone (subst (λ (x : ℕ × Options). Live view file x.0 x.1 s) (sym pair) l))

        knowing :
            (u : Text) (w : ℕ × Options)
            → at u t ≡ some w
            → (b : Bool) → text_eq iface u ≡ b
            → (find u rest ≡ some w) ⊎ (find u wanted ≡ some w)
        knowing u w e true n =
            absurd
              (no_value (sym (ap (λ x. at x t) (sym ((text_eq_iff iface u).0 n)) ∙ absent) ∙ e))
          where
            no_value : none ≡ some w → ⊥
            no_value h = cc
        knowing u w e false n = elim (r.known u w (sym (same u n) ∙ e)) [
          | inl h ↦ inl (find_rest u w h n)
          | inr h ↦ inr h
        ]

        keeping :
            (u : Text) (w : ℕ × Options)
            → find u saved ≡ some w
            → find u wanted ≡ some w
            → has_owned roots w.0 w.1 ≡ true
            → (b : Bool) → text_eq iface u ≡ b
            → at u t ≡ some w
        keeping u w a c o false n = same u n ∙ r.kept u w a c o
        keeping u w a c o true n =
            let name : u ≡ iface = sym ((text_eq_iff iface u).0 n) in
            let pair : w ≡ (j, p) =
              some_pair w (j, p) (sym a ∙ (ap (λ x. find x saved) name ∙ f)) in
            let entry : is_entry (find iface wanted) j p ≡ true =
              ap (λ e. is_entry e j p) (sym (ap (λ x. find x wanted) name) ∙ (c ∙ ap some pair))
              ∙ is_entry_self j p in
            let own : has_owned roots j p ≡ true =
              subst (λ (x : ℕ × Options). has_owned roots x.0 x.1 ≡ true) pair o in
            absurd
              (clash (both (is_entry (find iface wanted) j p) (has_owned roots j p) entry own) k)
          where
            both : (a b : Bool) → a ≡ true → b ≡ true → (a && b) ≡ true
            both a b h g = ground arith

    -- Qdiscs may go, and no file changes.
    shrunk :
        (s t : S)
        → ((i : ℕ) (q : Options) → Live view file i q t → Live view file i q s)
        → ((f : Text) → file f t ≡ file f s)
        → Releasing all_rest s
        → Releasing all_rest t
    shrunk s t less same r = record {
      covered = λ i q l. let (u, e) = r.covered i q (less i q l) in (u, unchanged u ∙ e);
      stale = λ i q l. r.stale i q (less i q l);
      here =
          (unchanged iface ∙ r.here.0, others iface s t rest (λ u n. unchanged u) first r.here.1);
      known = λ u w e. r.known u w (sym (unchanged u) ∙ e);
      kept = λ u w a c o. unchanged u ∙ r.kept u w a c o;
    }
      where
        unchanged : (u : Text) → at u t ≡ at u s
        unchanged u = ap decoded (same (journal_name u))

    removed-Ends :
        (s : S)
        → Releasing all_rest s
        → (Live view file j p s → ⊥)
        → find iface saved ≡ some (j, p)
        → kept_now ≡ false
        → Ends (λ _ t. Releasing rest t) Covered (b.remove_file (journal_name iface) s)
    removed-Ends s r gone f k =
        ends (b.remove_file (journal_name iface) s) (law.removed_file (journal_name iface) s)
          (law.removed_view (journal_name iface) s)
          (λ g n. law.removed_other (journal_name iface) g s n)
      where
        failed :
            (t : S)
            → view t ≡ view s
            → ((g : Text) → text_eq (journal_name iface) g ≡ false → file g t ≡ file g s)
            → file (journal_name iface) t ≡ file (journal_name iface) s
            → Covered t
        failed t v o e =
            Same-IsCovered view file s t
              (record { qdiscs = v; files = λ g. whole g (text_eq (journal_name iface) g) refl })
              r.covered
          where
            whole : (g : Text) (c : Bool) → text_eq (journal_name iface) g ≡ c → file g t ≡ file g s
            whole g false n = o g n
            whole g true n =
                subst (λ x. file x t ≡ file x s) ((text_eq_iff (journal_name iface) g).0 n) e

        ends :
            (m : Result Error (Unit {0}) × S)
            → Ends
                (λ _ t. file (journal_name iface) t ≡ none)
                (λ t. file (journal_name iface) t ≡ file (journal_name iface) s)
                m
            → view m.1 ≡ view s
            → ((g : Text) → text_eq (journal_name iface) g ≡ false → file g m.1 ≡ file g s)
            → Ends (λ _ t. Releasing rest t) Covered m
        ends (ok u, t) e v o =
            dropped s t r gone f k v
              (λ u n. ap decoded (o (journal_name u) (journal_name-apart iface u n))) (ap decoded e)
        ends (err x, t) e v o = failed t v o e
        ends (panic, t) e v o = failed t v o e
        ends (stuck, t) e v o = failed t v o e

    deleted-Ends :
        (s : S)
        → Releasing all_rest s
        → Ends (λ _ t. Releasing all_rest t × (Live view file j p t → ⊥)) Covered (b.delete j s)
    deleted-Ends s r = ends (b.delete j s) (law.deleted_gone j s) (
        shrunk s (b.delete j s).1 (λ i q l. law.deleted_only j i q s l)
          (λ g. law.deleted_files j g s) r)
      where
        ends :
            (m : Result Error (Unit {0}) × S)
            → Ends (λ _ t. (q : Options) → has_owned (view t) j q ≡ false) (λ t. Unit {0}) m
            → Releasing all_rest m.1
            → Ends (λ _ t. Releasing all_rest t × (Live view file j p t → ⊥)) Covered m
        ends (ok u, t) e r = (r, λ l. clash l (e p))
        ends (err x, t) e r = r.covered
        ends (panic, t) e r = r.covered
        ends (stuck, t) e r = r.covered

    release_one-Ends :
        (s : S)
        → Releasing all_rest s
        → find iface saved ≡ some (j, p)
        → Ends
            (λ _ t. Releasing rest t)
            Covered
            (release_one b kept_now (has_owned roots j p) iface j s)
    unfolding release_one
    release_one-Ends s r f = elim (Bool-cases kept_now) [
      | inl keep ↦ rw keep (stays s r (is_entry_eq (find iface wanted) j p (ground arith)))
      | inr drop ↦ rw drop (elim (Bool-cases (has_owned roots j p)) [
        | inl own ↦ rw own (
            Ends-andthen (λ _ t. Releasing all_rest t × (Live view file j p t → ⊥)) Covered
              (λ _ t. Releasing rest t) Covered (b.delete j s) _ (deleted-Ends s r)
              (λ _ t x. removed-Ends t x.0 x.1 f drop) (λ t c. c))
        | inr absent ↦ rw absent (removed-Ends s r (λ l. clash (r.stale j p l) absent) f drop)
      ])
    ]

  pub release-Ends :
      (rest : Wanted) (s : S)
      → IsMap rest
      → Found rest
      → Releasing rest s
      → Ends (λ _ t. Releasing [] t) Covered (release b roots wanted rest s)
  unfolding release
  release-Ends [] s m f r = r
  release-Ends ((iface, (j, p)) ∷ rest) s (a, m) (f, fs) r =
      Ends-andthen (λ _ t. Releasing rest t) Covered (λ _ t. Releasing [] t) Covered _ _
        (release_one-Ends iface j p rest a s r f) (λ _ t q. release-Ends rest t m fs q) (λ t c. c)
