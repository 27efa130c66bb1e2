-- ===== src/Qos/Reconcile/Examples.antt =====
-- A kernel and a directory that are lists, and one link that is shaped on them.
use nfqttl.Base.{
  ℕ, ◌≡◌, refl, sym, ap, ◌∙◌, subst, arith, ◌⊎◌, inl, inr, Bool, true, false, ◌||◌, not, ◌==◌,
  ==_iff, if◌then◌else◌, Bool-cases, List, [], ◌∷◌, length, ◌++◌, Option, none, some, Result, Error,
  ok, err, panic, stuck,
}
use nfqttl.Base.Runs.{Ends}
use nfqttl.Base.Text.{
  Text, codes, text_eq, text_eq_iff, text_eq_refl, some_of, keep_if, parse_uint, trim,
}
use nfqttl.Config.{Config, default}
use nfqttl.Net.{Links}
use nfqttl.Qos.{Options, options, insert_words, insert}
use nfqttl.Qos.Message.{Qdisc, root, own_handle, owned}
use nfqttl.Qos.Desired.{desired, add_side, put}
use nfqttl.Qos.Journals.{Listing}
use nfqttl.Qos.Journals.Read.{listed, or_else, Reads}
use nfqttl.Qos.Reconcile.{
  Shaper, has_owned, sync, cleanup, reconcile, settle, release, install_all, install_one, root_of,
  find,
}
use nfqttl.Qos.Journals.{journals_from}
use nfqttl.Qos.Reconcile.Kernel.{Kernel, IsCovered, same_options_eq}
use nfqttl.Qos.Reconcile.Synced.{
  IsSynced, IsSynced-Covered, sync-IsSynced, IsClean, cleanup-IsClean,
}

pub record Phone : Type 0 where
  pub qdiscs : List Qdisc
  pub files : Listing

abbrev cake_of : ℕ → Options → Qdisc
cake_of j p = record {
  index = j;
  parent = root;
  handle = own_handle;
  kind = codes "cake";
  options = p;
}

abbrev without : Text → Listing → Listing
without f files = keep_if (λ e. not (text_eq e.0 f)) files

abbrev pub shaper : Shaper Phone
shaper = record {
  roots = λ s. (ok s.qdiscs, s);
  add = λ j p s. (ok tt, record s { qdiscs = cake_of j p ∷ s.qdiscs });
  delete = λ j s. (ok tt, record s { qdiscs = keep_if (λ q. not (q.index == j)) s.qdiscs });
  listing = λ s. (ok s.files, s);
  replace_file = λ f x s. (ok tt, record s { files = (f, ok x) ∷ without f s.files });
  remove_file = λ f s. (ok tt, record s { files = without f s.files });
}

abbrev text_of : Option (Result Error Text) → Option Text
text_of (some (ok t)) = some t
text_of _ = none

pub view : Phone → List Qdisc
view s = s.qdiscs

pub file : Text → Phone → Option Text
file f s = text_of (listed f s.files)

or_else-none : {A : Type 0} (o : Option A) → or_else o none ≡ o
or_else-none none = refl
or_else-none (some a) = refl

listed-without : (f : Text) (files : Listing) → listed f (without f files) ≡ none
unfolding listed keep_if
listed-without f [] = refl
listed-without f ((g, x) ∷ files) = elim (Bool-cases (text_eq g f)) [
  | inl same ↦ rw same (listed-without f files)
  | inr other ↦ rw (other, other, listed-without f files) refl
]

listed-without_other :
    (f g : Text) (files : Listing)
    → text_eq f g ≡ false
    → listed g (without f files) ≡ listed g files
unfolding listed keep_if
listed-without_other f g [] n = refl
listed-without_other f g ((h, x) ∷ files) n = elim (Bool-cases (text_eq h f)) [
  | inl same ↦
      let away : text_eq h g ≡ false =
        subst (λ t. text_eq t g ≡ false) (sym ((text_eq_iff h f).0 same)) n in
      rw (same, away) (listed-without_other f g files n ∙ sym (or_else-none (listed g files)))
  | inr other ↦ rw other (
      ap (λ o. or_else o (if text_eq h g then some x else none)) (listed-without_other f g files n))
]

listed-first :
    (f : Text) (x : Result Error Text) (files : Listing)
    → listed f ((f, x) ∷ without f files) ≡ some x
unfolding listed
listed-first f x files = rw (listed-without f files, text_eq_refl f) refl

listed-first_other :
    (f g : Text) (x : Result Error Text) (files : Listing)
    → text_eq f g ≡ false
    → listed g ((f, x) ∷ without f files) ≡ listed g files
unfolding listed
listed-first_other f g x files n =
    rw (n, listed-without_other f g files n) (or_else-none (listed g files))

deleted_keeps :
    (j i : ℕ) (q : Options) (qs : List Qdisc)
    → has_owned (keep_if (λ d. not (d.index == j)) qs) i q ≡ true
    → has_owned qs i q ≡ true
unfolding some_of keep_if
deleted_keeps j i q [] h = h
deleted_keeps j i q (d ∷ qs) h = ground (arith, deleted_keeps j i q qs)

deleted_gone :
    (j : ℕ) (q : Options) (qs : List Qdisc)
    → has_owned (keep_if (λ d. not (d.index == j)) qs) j q ≡ false
unfolding some_of keep_if owned
deleted_gone j q [] = refl
deleted_gone j q (d ∷ qs) = ground (arith, deleted_gone j q qs)

cake_only :
    (j : ℕ) (p : Options) (i : ℕ) (q : Options) → owned (cake_of j p) i q ≡ true → (i ≡ j) × (q ≡ p)
unfolding owned
cake_only j p i q h =
    (sym ((==_iff j i).0 (ground arith)), sym (same_options_eq p q (ground arith)))

pub law : Kernel shaper view file
unfolding view file listed some_of
law = record {
  dumped = λ s. (refl, refl, λ f. refl);
  added_files = λ j p f s. refl;
  added_keeps = λ j p i q s h. or_true (owned (cake_of j p) i q) h;
  added_only = λ j p i q s h. only j p i q (owned (cake_of j p) i q) refl h;
  deleted_files = λ j f s. refl;
  deleted_only = λ j i q s h. deleted_keeps j i q s.qdiscs h;
  deleted_gone = λ j s q. deleted_gone j q s.qdiscs;
  listed_files = λ s. ((λ f. reads (listed f s.files)), refl, λ f. refl);
  replaced_view = λ f x s. refl;
  replaced_other = λ f x g s n. ap text_of (listed-first_other f g (ok x) s.files n);
  replaced_file = λ f x s. ap text_of (listed-first f (ok x) s.files);
  removed_view = λ f s. refl;
  removed_other = λ f g s n. ap text_of (listed-without_other f g s.files n);
  removed_file = λ f s. ap text_of (listed-without f s.files);
}
  where
    or_true : (a : Bool) {c : Bool} → c ≡ true → (a || c) ≡ true
    or_true a h = ground arith

    only :
        (j : ℕ) (p : Options) (i : ℕ) (q : Options) (a : Bool) {c : Bool}
        → owned (cake_of j p) i q ≡ a
        → (a || c) ≡ true
        → ((i ≡ j) × (q ≡ p)) ⊎ (c ≡ true)
    only j p i q true e h = inl (cake_only j p i q e)
    only j p i q false e h = inr h

    reads : (o : Option (Result Error Text)) → Reads o (text_of o)
    reads none = refl
    reads (some (ok t)) = refl
    reads (some (err x)) = tt
    reads (some panic) = tt
    reads (some stuck) = tt

abbrev pub shaped_up : Config
shaped_up = record default { sqm_up_kbit = 5000; sqm_up_iface = codes "rmnet0" }

abbrev two_links : Links
two_links = record { down = codes "ap0" ∷ []; up = codes "rmnet0" ∷ [] }

abbrev pub seventh : Text → Option Text
seventh name = some (codes "7" ++ (10 ∷ []))

abbrev blank : Phone
blank = record { qdiscs = []; files = [] }

blank-IsCovered : IsCovered view file blank
unfolding view some_of
blank-IsCovered j p l = absurd (no l)
  where
    no : false ≡ true → ⊥
    no h = cc

sync-IsSynced_example :
    IsSynced shaper view file law
      (desired seventh shaped_up two_links)
      (sync shaper seventh shaped_up two_links blank)
sync-IsSynced_example =
    sync-IsSynced shaper view file law seventh shaped_up two_links blank blank-IsCovered

-- The link is shaped, and the journal says so.
abbrev pub synced : Phone
synced = (sync shaper seventh shaped_up two_links blank).1

pub synced-IsCovered : IsCovered view file synced
synced-IsCovered =
    IsSynced-Covered shaper view file law (desired seventh shaped_up two_links)
      (sync shaper seventh shaped_up two_links blank)
      (sync-IsSynced shaper view file law seventh shaped_up two_links blank blank-IsCovered)

cleanup-IsClean_example :
    Ends (λ _ t. IsClean shaper view file law t) (IsCovered view file) (cleanup shaper synced)
cleanup-IsClean_example = cleanup-IsClean shaper view file law synced synced-IsCovered

one_shaped : length synced.qdiscs ≡ 1
unfolding sync reconcile settle release install_all install_one root_of find journals_from desired
    add_side some_of text_eq parse_uint trim put owned options insert_words insert
one_shaped = refl
