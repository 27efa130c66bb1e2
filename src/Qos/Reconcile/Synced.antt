-- ===== src/Qos/Reconcile/Synced.antt =====
-- `reconcile` from the state directory on, and its callers.
use nfqttl.Base.{
  ℕ, ◌^◌, ◌<◌, ◌≡◌, refl, sym, ap, ◌∙◌, subst, arith, inl, inr, Bool, true, false, ◌&&◌, ◌||◌, ltb,
  Bool-cases, if◌then◌else◌, List, [], ◌∷◌, Option, none, some, Result, Error, ok, err, panic,
  stuck, All,
}
use nfqttl.Base.Runs.{andthen, Ends, Ends-andthen}
use nfqttl.Base.Text.{Text, codes, text_eq, text_eq_iff, trim, parse_uint-lt}
use nfqttl.Config.{Config}
use nfqttl.Net.{Links}
use nfqttl.Qos.{Options}
use nfqttl.Qos.Message.{Qdisc}
use nfqttl.Qos.Desired.{Wanted, desired, desired-IsSide, index_in, Shapes, IsSide}
use nfqttl.Qos.Journals.{Listing, journals, journal_name}
use nfqttl.Qos.Journals.Read.{listed, Reads, decoded, find-journals}
use nfqttl.Qos.Journals.Reread.{IsSmall, options-IsSmall}
use nfqttl.Qos.Journals.Order.{IsMap, journals-IsMap, desired-IsMap}
use nfqttl.Qos.Reconcile.{
  Shaper, find, is_empty, settle, reconcile, shown, sync, cleanup, has_owned,
}
use nfqttl.Qos.Reconcile.Kernel.{Kernel, Live, journaled, IsCovered, Same-IsCovered}
use nfqttl.Qos.Reconcile.Entries.{AllSmall}
use nfqttl.Qos.Reconcile.Settled.{IsSettled, settle-Ends}

parsed-lt :
    (ifindex : Text → Option Text) (t : Text) (i : ℕ) → index_in (ifindex t) ≡ some i → i < 2 ^ 32
parsed-lt ifindex t i h = at (ifindex t) h
  where
    at : (o : Option Text) → index_in o ≡ some i → i < 2 ^ 32
    at none h = cc
    at (some x) h = parse_uint-lt (2 ^ 32) i (trim x) (omega arith) h

-- What holds of all entries holds of one that is found.
find-All :
    (P : Text × (ℕ × Options) → Type 0) (t : Text) (v : ℕ × Options) (m : Wanted)
    → find t m ≡ some v
    → All P m
    → P (t, v)
unfolding find
find-All P t v [] h k = cc
find-All P t v ((u, w) ∷ m) h (k, ks) = elim (Bool-cases (text_eq u t)) [
  | inl e ↦ subst P (ap (λ x. (x, w)) ((text_eq_iff u t).0 e) ∙ ap (λ x. (t, x)) (same e)) k
  | inr e ↦ find-All P t v m (rest e) ks
]
  where
    same : text_eq u t ≡ true → w ≡ v
    same e = cc

    rest : text_eq u t ≡ false → find t m ≡ some v
    rest e = cc

-- What is wanted of a configuration fits a journal.
desired-AllSmall :
    (ifindex : Text → Option Text) (c : Config) (l : Links) → AllSmall (desired ifindex c l)
desired-AllSmall ifindex c l = each (desired ifindex c l) (desired-IsSide ifindex c l).0
  where
    shape :
        (kbit flow : ℕ) (links : List Text) (v : ℕ × Options) (t : Text)
        → Shapes ifindex kbit flow links v t
        → IsSmall v.0 v.1
    shape kbit flow links v t (k, h, i, o) =
        subst (λ p. IsSmall v.0 p) (sym o)
          (options-IsSmall v.0 kbit flow (parsed-lt ifindex t v.0 i))

    side : (t : Text) (v : ℕ × Options) → IsSide ifindex c l t v → IsSmall v.0 v.1
    side t v (inl h) = shape c.sqm_up_kbit 5 l.up v t h
    side t v (inr h) = shape c.sqm_down_kbit 6 l.down v t h

    each :
        (m : Wanted) → All (λ (e : Text × (ℕ × Options)). IsSide ifindex c l e.0 e.1) m → AllSmall m
    each [] h = tt
    each ((t, v) ∷ m) (h, hs) = (side t v h, each m hs)

module _ {S : Type 0} (b : Shaper S) (view : S → List Qdisc) (file : Text → S → Option Text)
    (law : Kernel b view file) where
  abbrev Covered : S → Type 0
  Covered = IsCovered view file

  abbrev Settled : Wanted → S → Type 0
  Settled wanted t = IsSettled b view file law wanted t

  nothing_wanted :
      (t : S) → Covered t → ((u : Text) → journaled view file u t ≡ find u []) → Settled [] t
  unfolding find
  nothing_wanted t c k = record {
    shaped = tt;
    only = λ j p l. let (u, e) = c j p l in (u, sym (k u) ∙ e);
    journals_only = λ u v e. sym (k u) ∙ e;
  }

  -- For what is wanted in the order of the names, with indices of 32 bits and options that fit a
  -- journal, if every own qdisc in the kernel is in a journal, then this is so after `reconcile`
  -- too, however it ends, and where it succeeds, the kernel and the journal have all that is wanted,
  -- and nothing else of the program's.
  pub reconcile-Ends :
      (wanted : Wanted) (s : S)
      → IsMap wanted
      → AllSmall wanted
      → Covered s
      → Ends (λ _ t. Settled wanted t) Covered (reconcile b wanted s)
  unfolding reconcile
  reconcile-Ends wanted s m small c = at_listing (b.listing s) (law.listed_files s)
    where
      same : (t : S) → (view t ≡ view s) × ((f : Text) → file f t ≡ file f s) → Covered t
      same t (e, f) = Same-IsCovered view file s t (record { qdiscs = e; files = f }) c

      at_saved :
          (saved wanted : Wanted) (t : S)
          → IsMap saved
          → IsMap wanted
          → AllSmall wanted
          → Covered t
          → ((u : Text) → journaled view file u t ≡ find u saved)
          → Ends
              (λ _ t. Settled wanted t)
              Covered
              (if is_empty saved && is_empty wanted
                then (ok (codes "disabled"), t)
                else settle b saved wanted t)
      at_saved [] [] t ms m small c k = nothing_wanted t c k
      at_saved [] (x ∷ wanted) t ms m small c k =
          settle-Ends b view file law (x ∷ wanted) m small [] t ms c k
      at_saved (x ∷ saved) wanted t ms m small c k =
          settle-Ends b view file law wanted m small (x ∷ saved) t ms c k

      at_journals :
          (files : Listing) (t : S) (r : Result Error Wanted)
          → journals files ≡ r
          → ((f : Text) → Reads (listed f files) (file f s))
            × (view t ≡ view s)
            × ((f : Text) → file f t ≡ file f s)
          → Ends
              (λ _ t. Settled wanted t)
              Covered
              (andthen
                (r, t)
                (λ saved u.
                  if is_empty saved && is_empty wanted
                  then (ok (codes "disabled"), u)
                  else settle b saved wanted u))
      at_journals files t (ok saved) e (r, v, f) =
          at_saved saved wanted t (journals-IsMap files saved e) m small (same t (v, f)) (λ u.
            ap decoded (f (journal_name u))
            ∙ sym (find-journals u files saved (file (journal_name u) s) e (r (journal_name u))))
      at_journals files t (err x) e (r, v, f) = same t (v, f)
      at_journals files t panic e (r, v, f) = same t (v, f)
      at_journals files t stuck e (r, v, f) = same t (v, f)

      at_listing :
          (n : Result Error Listing × S)
          → Ends
              (λ l t.
                ((f : Text) → Reads (listed f l) (file f s))
                × (view t ≡ view s)
                × ((f : Text) → file f t ≡ file f s))
              (λ t. (view t ≡ view s) × ((f : Text) → file f t ≡ file f s))
              n
          → Ends
              (λ _ t. Settled wanted t)
              Covered
              (andthen n (λ files t.
                andthen
                  (journals files, t)
                  (λ saved u.
                    if is_empty saved && is_empty wanted
                    then (ok (codes "disabled"), u)
                    else settle b saved wanted u)))
      at_listing (ok files, t) h = at_journals files t (journals files) refl h
      at_listing (err x, t) h = same t h
      at_listing (panic, t) h = same t h
      at_listing (stuck, t) h = same t h

  Settled-Covered : (wanted : Wanted) (t : S) → Settled wanted t → Covered t
  Settled-Covered wanted t h j p l =
      let (iface, e) = h.only j p l in
      (
        iface,
        (find-All (λ e. Live view file e.1.0 e.1.1 t × (journaled view file e.0 t ≡ some e.1)) iface
            (j, p) wanted e h.shaped).1,
      )

  abbrev pub IsSynced : Wanted → Option Text × S → Type 0
  IsSynced wanted (none, t) = Covered t
  IsSynced wanted (some status, t) = Settled wanted t × Covered t

  pub IsSynced-Covered : (wanted : Wanted) (m : Option Text × S) → IsSynced wanted m → Covered m.1
  IsSynced-Covered wanted (none, t) h = h
  IsSynced-Covered wanted (some status, t) (q, h) = h

  shown-IsSynced :
      (c : Config) (wanted : Wanted) (m : Result Error Text × S)
      → Ends (λ _ t. Settled wanted t) Covered m
      → IsSynced wanted (shown b c m)
  shown-IsSynced c wanted (ok x, t) h =
      at (text_eq x (codes "disabled") && (ltb 0 c.sqm_up_kbit || ltb 0 c.sqm_down_kbit))
    where
      at :
          (w : Bool)
          → IsSynced wanted (
              if w
              then (some (codes "waiting: configured interfaces are not active"), t)
              else (some x, t))
      at true = (h, Settled-Covered wanted t h)
      at false = (h, Settled-Covered wanted t h)
  shown-IsSynced c wanted (err x, t) h = h
  shown-IsSynced c wanted (panic, t) h = h
  shown-IsSynced c wanted (stuck, t) h = h

  -- If every own qdisc in the kernel is in a journal, then this is so after a `sync` too, and where
  -- it shows no error, exactly the links that the configuration wants shaped are, each with the
  -- parameters of its rate and direction, and the journal says so.
  pub sync-IsSynced :
      (ifindex : Text → Option Text) (c : Config) (l : Links) (s : S)
      → Covered s
      → IsSynced (desired ifindex c l) (sync b ifindex c l s)
  unfolding sync
  sync-IsSynced ifindex c l s h =
      shown-IsSynced c (desired ifindex c l) (reconcile b (desired ifindex c l) s) (
        reconcile-Ends (desired ifindex c l) s (desired-IsMap ifindex c l)
          (desired-AllSmall ifindex c l) h)

  -- The program has no qdisc in the kernel, and no journal.
  abbrev pub IsClean : S → Type 0
  IsClean t =
      ((j : ℕ) (p : Options) → has_owned (view t) j p ≡ false)
      × ((iface : Text) → journaled view file iface t ≡ none)

  -- If every own qdisc in the kernel is in a journal, then after a `cleanup` that succeeds the kernel
  -- has no own qdisc and there is no journal, and after one that fails every own qdisc is in a journal.
  pub cleanup-IsClean : (s : S) → Covered s → Ends (λ _ t. IsClean t) Covered (cleanup b s)
  unfolding cleanup find
  cleanup-IsClean s h =
      Ends-andthen (λ _ t. Settled [] t) Covered (λ _ t. IsClean t) Covered _ _
        (reconcile-Ends [] s tt tt h)
        (λ _ t q. (
          λ j p. no_qdisc t j p q (has_owned (view t) j p) refl,
          λ iface. no_journal t iface q (journaled view file iface t) refl,
        ))
        (λ t c. c)
    where
      no_entry : {v : ℕ × Options} → none ≡ some v → ⊥
      no_entry h = cc

      no_qdisc :
          (t : S) (j : ℕ) (p : Options)
          → Settled [] t
          → (x : Bool) → has_owned (view t) j p ≡ x
          → x ≡ false
      no_qdisc t j p q false e = refl
      no_qdisc t j p q true e = absurd (no_entry (q.only j p e).1)

      no_journal :
          (t : S) (iface : Text)
          → Settled [] t
          → (o : Option (ℕ × Options)) → journaled view file iface t ≡ o
          → o ≡ none
      no_journal t iface q none e = refl
      no_journal t iface q (some v) e = absurd (no_entry (q.journals_only iface v e))
