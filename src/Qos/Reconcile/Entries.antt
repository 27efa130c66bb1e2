-- ===== src/Qos/Reconcile/Entries.antt =====
-- The second loop of `reconcile`: what is wanted goes into the kernel and the journal.
use nfqttl.Base.{
  ℕ, ◌≡◌, ap, ◌∙◌, arith, inl, inr, Bool, ◌&&◌, ◌||◌, if◌then◌else◌, Bool-cases, List, [], ◌∷◌,
  Option, some, All,
}
use nfqttl.Base.Runs.{Ends, Ends-andthen, Ends-map}
use nfqttl.Base.Text.{Text, text_eq_refl, some_of}
use nfqttl.Net.{active}
use nfqttl.Qos.{Options}
use nfqttl.Qos.Message.{Qdisc}
use nfqttl.Qos.Desired.{Wanted}
use nfqttl.Qos.Journals.Reread.{IsSmall}
use nfqttl.Qos.Journals.Order.{AllAfter, After-apart, IsMap}
use nfqttl.Qos.Reconcile.{
  Shaper, find, is_entry, root_of, is_own_root, is_custom, is_custom_child, install_one,
  install_all,
}
use nfqttl.Qos.Reconcile.Kernel.{Kernel, is_entry_eq, root_of-has_owned, journaled, IsCovered}
use nfqttl.Qos.Reconcile.Install.{Installing, Grows, Grows-trans, IsShaped, added-Ends}

abbrev pub AllSmall : Wanted → Type 0
AllSmall m = All (λ (e : Text × (ℕ × Options)). IsSmall e.1.0 e.1.1) m

abbrev pub FoundIn : Wanted → Wanted → Type 0
FoundIn m n = All (λ (e : Text × (ℕ × Options)). find e.0 m ≡ some e.1) n

FoundIn-cons :
    (t : Text) (v : ℕ × Options) (m n : Wanted)
    → AllAfter t n
    → FoundIn m n
    → FoundIn ((t, v) ∷ m) n
unfolding find
FoundIn-cons t v m [] a h = tt
FoundIn-cons t v m ((u, w) ∷ n) (a, as_) (h, hs) =
    (ap (λ c. if c then some v else find u m) (After-apart t u a) ∙ h, FoundIn-cons t v m n as_ hs)

pub FoundIn-refl : (m : Wanted) → IsMap m → FoundIn m m
unfolding find
FoundIn-refl [] h = tt
FoundIn-refl ((t, v) ∷ m) (a, h) = (
  ap (λ c. if c then some v else find t m) (text_eq_refl t),
  FoundIn-cons t v m m a (FoundIn-refl m h),
)

module _ {S : Type 0} (b : Shaper S) (view : S → List Qdisc) (file : Text → S → Option Text)
    (law : Kernel b view file) where
  abbrev at : Text → S → Option (ℕ × Options)
  at iface s = journaled view file iface s

  abbrev Covered : S → Type 0
  Covered = IsCovered view file

  module _ (again : List Qdisc) (wanted saved : Wanted) where
    abbrev Now : S → Type 0
    Now = Installing b view file law again wanted saved

    abbrev Later : S → S → Type 0
    Later = Grows b view file law again wanted saved

    abbrev Shaped : S → Text × (ℕ × Options) → Type 0
    Shaped s e = IsShaped b view file law again wanted saved s e

    Grows-refl : (s : S) → Later s s
    Grows-refl s = record { lives = λ j p l. l; journals = λ u v a e. e }

    install_one-Ends :
        (iface : Text) (j : ℕ) (p : Options) (s : S)
        → find iface wanted ≡ some (j, p)
        → IsSmall j p
        → Now s
        → Ends
            (λ _ t. Now t × Later s t × Shaped t (iface, (j, p)))
            Covered
            (install_one b saved again iface j p s)
    unfolding install_one
    install_one-Ends iface j p s w small r =
        elim (Bool-cases (is_entry (find iface saved) j p && is_own_root (root_of j again) j p)) [
          | inl active ↦
              let own = root_of-has_owned again j p (ground arith) in
              let entry = is_entry_eq (find iface saved) j p (ground arith) in
              rw active (r, Grows-refl s, (r.lives j p own, r.kept iface (j, p) entry w own))
          | inr missing ↦ rw missing (elim (Bool-cases (custom j)) [
            | inl kept ↦ rw kept r.covered
            | inr free ↦
                rw free (added-Ends b view file law again wanted saved iface j p w small s r)
          ])
        ]
      where
        custom : ℕ → Bool
        custom j = is_custom (root_of j again) || some_of (is_custom_child j) again

    pub install_all-Ends :
        (rest : Wanted) (s : S)
        → FoundIn wanted rest
        → AllSmall rest
        → Now s
        → Ends
            (λ _ t. Now t × Later s t × All (Shaped t) rest)
            Covered
            (install_all b saved again rest s)
    unfolding install_all
    install_all-Ends [] s f h r = (r, Grows-refl s, tt)
    install_all-Ends ((iface, (j, p)) ∷ rest) s (f, fs) (h, hs) r =
        Ends-andthen (λ _ t. Now t × Later s t × Shaped t (iface, (j, p))) Covered
          (λ _ t. Now t × Later s t × All (Shaped t) ((iface, (j, p)) ∷ rest)) Covered _ _
          (install_one-Ends iface j p s f h r)
          (λ _ t q.
            Ends-map (λ _ u. Now u × Later t u × All (Shaped u) rest) Covered
              (λ _ u. Now u × Later s u × All (Shaped u) ((iface, (j, p)) ∷ rest)) Covered _
              (install_all-Ends rest t fs hs q.0)
              (λ _ u x. (
                x.0,
                Grows-trans b view file law again wanted saved s t u q.1 x.1,
                ((x.1.lives j p q.2.0, x.1.journals iface (j, p) f q.2.1), x.2),
              ))
              (λ u c. c))
          (λ t c. c)
