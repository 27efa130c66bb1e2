-- ===== src/Qos/Reconcile/Kernel.antt =====
-- What `reconcile` relies on in the kernel and in the state directory, and the own qdiscs and
-- journals that there are.
use nfqttl.Base.{
  ℕ, ◌≡◌, refl, sym, ap, ◌∙◌, subst, arith, ◌⊎◌, inl, inr, Bool, true, false, ◌&&◌, ◌==◌, ==_iff,
  ==_refl, if◌then◌else◌, Bool-cases, List, [], ◌∷◌, Option, none, some,
}
use nfqttl.Base.Runs.{Ends}
use nfqttl.Base.Text.{Text, text_eq, text_eq_iff, text_eq_refl, some_of}
use nfqttl.Qos.{Options}
use nfqttl.Qos.Message.{Qdisc, same_options, owned, root}
use nfqttl.Qos.Journals.{iface_of, journal_name}
use nfqttl.Qos.Journals.Names.{iface_of-journal_name}
use nfqttl.Qos.Journals.Read.{listed, Reads, decoded}
use nfqttl.Qos.Reconcile.{Shaper, has_owned, is_entry, root_of, is_own_root}

-- `view` is the qdiscs that the kernel has, `file` the text of a file of the state directory. A call
-- that fails may have changed the qdiscs, but no file. `add` replaces no own qdisc (it asks for
-- exclusive creation), and `delete` takes those of one interface away.
pub record Kernel {S : Type 0} (b : Shaper S) (view : S → List Qdisc)
    (file : Text → S → Option Text) : Type 0 where
  pub dumped :
      (s : S)
      → Ends
          (λ qs t. (qs ≡ view s) × (view t ≡ view s) × ((f : Text) → file f t ≡ file f s))
          (λ t. (view t ≡ view s) × ((f : Text) → file f t ≡ file f s))
          (b.roots s)
  pub added_files : (j : ℕ) (p : Options) (f : Text) (s : S) → file f (b.add j p s).1 ≡ file f s
  pub added_keeps :
      (j : ℕ) (p : Options) (i : ℕ) (q : Options) (s : S)
      → has_owned (view s) i q ≡ true
      → has_owned (view (b.add j p s).1) i q ≡ true
  pub added_only :
      (j : ℕ) (p : Options) (i : ℕ) (q : Options) (s : S)
      → has_owned (view (b.add j p s).1) i q ≡ true
      → ((i ≡ j) × (q ≡ p)) ⊎ (has_owned (view s) i q ≡ true)
  pub deleted_files : (j : ℕ) (f : Text) (s : S) → file f (b.delete j s).1 ≡ file f s
  pub deleted_only :
      (j i : ℕ) (q : Options) (s : S)
      → has_owned (view (b.delete j s).1) i q ≡ true
      → has_owned (view s) i q ≡ true
  pub deleted_gone :
      (j : ℕ) (s : S)
      → Ends (λ _ t. (q : Options) → has_owned (view t) j q ≡ false) (λ t. Unit {0}) (b.delete j s)
  pub listed_files :
      (s : S)
      → Ends
          (λ l t.
            ((f : Text) → Reads (listed f l) (file f s))
            × (view t ≡ view s)
            × ((f : Text) → file f t ≡ file f s))
          (λ t. (view t ≡ view s) × ((f : Text) → file f t ≡ file f s))
          (b.listing s)
  pub replaced_view : (f x : Text) (s : S) → view (b.replace_file f x s).1 ≡ view s
  pub replaced_other :
      (f x g : Text) (s : S) → text_eq f g ≡ false → file g (b.replace_file f x s).1 ≡ file g s
  pub replaced_file :
      (f x : Text) (s : S)
      → Ends (λ _ t. file f t ≡ some x) (λ t. file f t ≡ file f s) (b.replace_file f x s)
  pub removed_view : (f : Text) (s : S) → view (b.remove_file f s).1 ≡ view s
  pub removed_other :
      (f g : Text) (s : S) → text_eq f g ≡ false → file g (b.remove_file f s).1 ≡ file g s
  pub removed_file :
      (f : Text) (s : S)
      → Ends (λ _ t. file f t ≡ none) (λ t. file f t ≡ file f s) (b.remove_file f s)

pub clash : {b : Bool} → b ≡ true → b ≡ false → ⊥
clash p q = ground arith

pub journal_name-apart :
    (t u : Text) → text_eq t u ≡ false → text_eq (journal_name t) (journal_name u) ≡ false
journal_name-apart t u n = at (text_eq (journal_name t) (journal_name u)) refl
  where
    some_same : some t ≡ some u → t ≡ u
    some_same h = cc

    at : (b : Bool) → text_eq (journal_name t) (journal_name u) ≡ b → b ≡ false
    at false e = refl
    at true e = absurd (
        clash
          ((text_eq_iff t u).1 (
            some_same (
              sym (iface_of-journal_name t)
              ∙ (ap iface_of ((text_eq_iff (journal_name t) (journal_name u)).0 e)
                  ∙ iface_of-journal_name u))))
          n)

pub same_options_eq : (o p : Options) → same_options o p ≡ true → o ≡ p
same_options_eq [] [] h = refl
same_options_eq [] (e ∷ p) h = cc
same_options_eq (e ∷ o) [] h = cc
same_options_eq ((k, v) ∷ o) ((j, w) ∷ p) h =
    let ek : k ≡ j = (==_iff k j).0 (ground arith) in
    let ev : v ≡ w = (text_eq_iff v w).0 (ground arith) in
    let eo : o ≡ p = same_options_eq o p (ground arith) in cc

pub same_options_refl : (o : Options) → same_options o o ≡ true
same_options_refl [] = refl
same_options_refl ((k, v) ∷ o) = rw (==_refl k, text_eq_refl v, same_options_refl o) refl

pub is_entry_eq :
    (e : Option (ℕ × Options)) (j : ℕ) (p : Options) → is_entry e j p ≡ true → e ≡ some (j, p)
is_entry_eq none j p h = cc
is_entry_eq (some (i, o)) j p h =
    let ei : i ≡ j = (==_iff i j).0 (ground arith) in
    let eo : o ≡ p = same_options_eq o p (ground arith) in cc

pub is_entry_self : (j : ℕ) (p : Options) → is_entry (some (j, p)) j p ≡ true
is_entry_self j p = rw (==_refl j, same_options_refl p) refl

-- A root that is the program's own is one of the qdiscs.
pub root_of-has_owned :
    (qs : List Qdisc) (j : ℕ) (p : Options)
    → is_own_root (root_of j qs) j p ≡ true
    → has_owned qs j p ≡ true
unfolding root_of some_of
root_of-has_owned [] j p h = cc
root_of-has_owned (q ∷ qs) j p h = elim (Bool-cases (q.index == j && q.parent == root)) [
  | inl here ↦
      let own : owned q j p ≡ true =
        subst (λ b. is_own_root (if b then some q else root_of j qs) j p ≡ true) here h in
      ground arith
  | inr other ↦
      let later =
        root_of-has_owned qs j p
          (subst (λ b. is_own_root (if b then some q else root_of j qs) j p ≡ true) other h) in
      ground arith
]

module _ {S : Type 0} (view : S → List Qdisc) (file : Text → S → Option Text) where
  -- The kernel has the program's qdisc with these parameters.
  abbrev pub Live : ℕ → Options → S → Type 0
  Live j p s = has_owned (view s) j p ≡ true

  -- What the interface's journal says.
  abbrev pub journaled : Text → S → Option (ℕ × Options)
  journaled iface s = decoded (file (journal_name iface) s)

  -- Every own qdisc is in a journal.
  abbrev pub IsCovered : S → Type 0
  IsCovered s =
      (j : ℕ) (p : Options) → Live j p s → (iface : Text) × (journaled iface s ≡ some (j, p))

  pub record Same (s t : S) : Type 0 where
    pub qdiscs : view t ≡ view s
    pub files : (f : Text) → file f t ≡ file f s

  pub Same-IsCovered : (s t : S) → Same s t → IsCovered s → IsCovered t
  Same-IsCovered s t e h j p l =
      let (iface, k) = h j p (subst (λ v. has_owned v j p ≡ true) e.qdiscs l) in
      (iface, ap decoded (e.files (journal_name iface)) ∙ k)
