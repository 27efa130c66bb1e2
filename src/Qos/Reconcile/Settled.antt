-- ===== src/Qos/Reconcile/Settled.antt =====
-- What `reconcile`, `sync` and `cleanup` leave.
use nfqttl.Base.{
  ℕ, ◌≡◌, refl, sym, ap, ◌∙◌, subst, ◌⊎◌, inl, inr, true, List, [], ◌∷◌, Option, some, Result,
  Error, ok, err, panic, stuck, All,
}
use nfqttl.Base.Runs.{andthen, Ends, Ends-andthen}
use nfqttl.Base.Text.{Text}
use nfqttl.Qos.{Options}
use nfqttl.Qos.Message.{Qdisc}
use nfqttl.Qos.Desired.{Wanted}
use nfqttl.Qos.Journals.{journal_name}
use nfqttl.Qos.Journals.Read.{decoded}
use nfqttl.Qos.Journals.Order.{IsMap}
use nfqttl.Qos.Reconcile.{
  Shaper, find, has_owned, release, install_all, dumped_again, settle, status_of,
}
use nfqttl.Qos.Reconcile.Kernel.{Kernel, Live, journaled, IsCovered, Same-IsCovered}
use nfqttl.Qos.Reconcile.Release.{Releasing, release-Ends}
use nfqttl.Qos.Reconcile.Entries.{AllSmall, FoundIn, FoundIn-refl, install_all-Ends}
use nfqttl.Qos.Reconcile.Install.{Installing, Grows, IsShaped}

module _ {S : Type 0} (b : Shaper S) (view : S → List Qdisc) (file : Text → S → Option Text)
    (law : Kernel b view file) where
  abbrev at : Text → S → Option (ℕ × Options)
  at iface s = journaled view file iface s

  abbrev Covered : S → Type 0
  Covered = IsCovered view file

  abbrev Now : List Qdisc → Wanted → Wanted → S → Type 0
  Now = Installing b view file law

  abbrev Later : List Qdisc → Wanted → Wanted → S → S → Type 0
  Later = Grows b view file law

  abbrev Shaped : List Qdisc → Wanted → Wanted → S → Text × (ℕ × Options) → Type 0
  Shaped = IsShaped b view file law

  module _ (wanted : Wanted) where
    -- What is wanted is in the kernel and in the journal, and nothing else of the program's is.
    pub record IsSettled (t : S) : Type 0 where
      pub shaped :
          All
            (λ (e : Text × (ℕ × Options)). Live view file e.1.0 e.1.1 t × (at e.0 t ≡ some e.1))
            wanted
      pub only :
          (j : ℕ) (p : Options)
          → Live view file j p t
          → (iface : Text) × (find iface wanted ≡ some (j, p))
      pub journals_only :
          (iface : Text) (v : ℕ × Options) → at iface t ≡ some v → find iface wanted ≡ some v

    module _ (m : IsMap wanted) (small : AllSmall wanted) where
      Shaped-all :
          (again : List Qdisc) (saved rest : Wanted) (t : S)
          → All (Shaped again wanted saved t) rest
          → All
              (λ (e : Text × (ℕ × Options)). Live view file e.1.0 e.1.1 t × (at e.0 t ≡ some e.1))
              rest
      Shaped-all again saved [] t h = tt
      Shaped-all again saved ((iface, (j, p)) ∷ rest) t (h, hs) =
          (h, Shaped-all again saved rest t hs)

      -- The second loop, after a dump.
      installed-Ends :
          (again : List Qdisc) (saved : Wanted) (v : S)
          → Now again wanted saved v
          → Ends
              (λ _ t. IsSettled t)
              Covered
              (andthen (install_all b saved again wanted v) (λ _ w. (ok (status_of wanted), w)))
      installed-Ends again saved v r =
          Ends-andthen
            (λ _ t.
              Now again wanted saved t
              × Later again wanted saved v t
              × All (Shaped again wanted saved t) wanted)
            Covered (λ _ t. IsSettled t) Covered _ _
            (install_all-Ends b view file law again wanted saved wanted v (FoundIn-refl wanted m)
              small r)
            (λ _ t q. record {
              shaped = Shaped-all again saved wanted t q.2;
              only = λ j p l. let (u, e) = q.0.covered j p l in (u, q.0.known u (j, p) e);
              journals_only = q.0.known;
            })
            (λ t c. c)

      no_entry : (u : Text) (v : ℕ × Options) → find u [] ≡ some v → ⊥
      unfolding find
      no_entry u v h = cc

      -- A dump after the first loop.
      starting :
          (roots again : List Qdisc) (saved : Wanted) (u v : S)
          → Releasing b view file law roots wanted saved [] u
          → again ≡ view u
          → view v ≡ view u
          → ((f : Text) → file f v ≡ file f u)
          → Now again wanted saved v
      starting roots again saved u v r q e f = record {
        covered = Same-IsCovered view file u v (record { qdiscs = e; files = f }) r.covered;
        known = λ t w a. known t w (r.known t w (sym (ap decoded (f (journal_name t))) ∙ a));
        lives = λ j p o. subst (λ qs. has_owned qs j p ≡ true) (q ∙ sym e) o;
        kept = λ t w a c o.
            ap decoded (f (journal_name t))
            ∙ r.kept t w a c (r.stale w.0 w.1 (subst (λ qs. has_owned qs w.0 w.1 ≡ true) q o));
      }
        where
          known :
              (t : Text) (w : ℕ × Options)
              → (find t [] ≡ some w) ⊎ (find t wanted ≡ some w)
              → find t wanted ≡ some w
          known t w (inl h) = absurd (no_entry t w h)
          known t w (inr h) = h

      -- The first dump, before the first loop.
      before :
          (roots : List Qdisc) (saved : Wanted) (s t : S)
          → IsMap saved
          → Covered s
          → ((u : Text) → at u s ≡ find u saved)
          → roots ≡ view s
          → view t ≡ view s
          → ((f : Text) → file f t ≡ file f s)
          → Releasing b view file law roots wanted saved saved t
      before roots saved s t ms c k q e f = record {
        covered = Same-IsCovered view file s t (record { qdiscs = e; files = f }) c;
        stale = λ j p l. subst (λ qs. has_owned qs j p ≡ true) (e ∙ sym q) l;
        here = all_here saved (FoundIn-refl saved ms);
        known = λ u w a. inl (sym (same u) ∙ a);
        kept = λ u w a x o. same u ∙ a;
      }
        where
          same : (u : Text) → at u t ≡ find u saved
          same u = ap decoded (f (journal_name u)) ∙ k u

          all_here :
              (n : Wanted)
              → FoundIn saved n
              → All (λ (x : Text × (ℕ × Options)). at x.0 t ≡ some x.1) n
          all_here [] h = tt
          all_here ((u, w) ∷ n) (h, hs) = (same u ∙ h, all_here n hs)

      pub settle-Ends :
          (saved : Wanted) (s : S)
          → IsMap saved
          → Covered s
          → ((u : Text) → at u s ≡ find u saved)
          → Ends (λ _ t. IsSettled t) Covered (settle b saved wanted s)
      unfolding settle release
      settle-Ends saved s ms c k = dumped saved ms k (b.roots s) (law.dumped s)
        where
          failed :
              (u v : S)
              → Covered u
              → (view v ≡ view u) × ((f : Text) → file f v ≡ file f u)
              → Covered v
          failed u v c (e, f) = Same-IsCovered view file u v (record { qdiscs = e; files = f }) c

          dumped_second :
              (roots : List Qdisc) (saved : Wanted) (u : S) (m : Result Error (List Qdisc) × S)
              → Releasing b view file law roots wanted saved [] u
              → Ends
                  (λ qs t. (qs ≡ view u) × (view t ≡ view u) × ((f : Text) → file f t ≡ file f u))
                  (λ t. (view t ≡ view u) × ((f : Text) → file f t ≡ file f u))
                  m
              → Ends
                  (λ _ t. IsSettled t)
                  Covered
                  (andthen m (λ again v.
                    andthen
                      (install_all b saved again wanted v)
                      (λ _ w. (ok (status_of wanted), w))))
          dumped_second roots saved u (ok qs, v) r (q, e, f) =
              installed-Ends qs saved v (starting roots qs saved u v r q e f)
          dumped_second roots saved u (err x, v) r h = failed u v r.covered h
          dumped_second roots saved u (panic, v) r h = failed u v r.covered h
          dumped_second roots saved u (stuck, v) r h = failed u v r.covered h

          dumped :
              (saved : Wanted)
              → IsMap saved
              → ((u : Text) → at u s ≡ find u saved)
              → (m : Result Error (List Qdisc) × S)
              → Ends
                  (λ qs t. (qs ≡ view s) × (view t ≡ view s) × ((f : Text) → file f t ≡ file f s))
                  (λ t. (view t ≡ view s) × ((f : Text) → file f t ≡ file f s))
                  m
              → Ends
                  (λ _ t. IsSettled t)
                  Covered
                  (andthen m (λ roots t. andthen (release b roots wanted saved t) (λ _ u.
                    andthen (dumped_again b saved roots u) (λ again v.
                      andthen
                        (install_all b saved again wanted v)
                        (λ _ w. (ok (status_of wanted), w))))))
          dumped [] ms k (ok roots, t) (q, e, f) = installed-Ends roots [] t (
              starting roots roots [] t t (before roots [] s t ms c k q e f) (q ∙ sym e) refl
                (λ g. refl))
          dumped (x ∷ saved) ms k (ok roots, t) (q, e, f) =
              Ends-andthen (λ _ u. Releasing b view file law roots wanted (x ∷ saved) [] u) Covered
                (λ _ u. IsSettled u) Covered _ _
                (release-Ends b view file law roots wanted (x ∷ saved) (x ∷ saved) t ms
                  (FoundIn-refl (x ∷ saved) ms) (before roots (x ∷ saved) s t ms c k q e f))
                (λ _ u r. dumped_second roots (x ∷ saved) u (b.roots u) r (law.dumped u)) (λ u y. y)
          dumped saved ms k (err x, t) h = failed s t c h
          dumped saved ms k (panic, t) h = failed s t c h
          dumped saved ms k (stuck, t) h = failed s t c h
