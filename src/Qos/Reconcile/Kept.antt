-- ===== src/Qos/Reconcile/Kept.antt =====
-- What the calls of the kernel and of the state directory keep, `sync` and `cleanup` keep.
use nfqttl.Base.{
  ℕ, Bool, true, false, ◌&&◌, ◌||◌, ltb, Bool-cases, inl, inr, List, [], ◌∷◌, Option, Result, ok,
  err, panic, stuck, Error, invalid_data, if◌then◌else◌,
}
use nfqttl.Base.Runs.{andthen}
use nfqttl.Base.Text.{Text, codes, text_eq, some_of}
use nfqttl.Config.{Config}
use nfqttl.Net.{Links}
use nfqttl.Qos.{Options}
use nfqttl.Qos.Message.{Qdisc}
use nfqttl.Qos.Desired.{Wanted, desired}
use nfqttl.Qos.Journals.{journals, journal_name}
use nfqttl.Qos.Reconcile.{
  Shaper, is_entry, find, has_owned, root_of, is_own_root, is_custom, is_custom_child,
  write_journal, release_one, release, checked, added, install_one, dumped_again, install_all,
  settle, reconcile, shown, sync, cleanup, is_empty, status_of,
}

pub record KeptByShaper {S : Type 0} (b : Shaper S) (P : S → Type 0) : Type 0 where
  pub roots : (s : S) → P s → P (b.roots s).1
  pub add : (index : ℕ) (o : Options) (s : S) → P s → P (b.add index o s).1
  pub delete : (index : ℕ) (s : S) → P s → P (b.delete index s).1
  pub listing : (s : S) → P s → P (b.listing s).1
  pub replace_file : (name text : Text) (s : S) → P s → P (b.replace_file name text s).1
  pub remove_file : (name : Text) (s : S) → P s → P (b.remove_file name s).1

module _ {S : Type 0} (b : Shaper S) (P : S → Type 0) (kept : KeptByShaper b P) where
  andthen-kept :
      {A B : Type 0} (m : Result Error A × S) (k : A → S → Result Error B × S)
      → P m.1
      → ((a : A) (s : S) → P s → P (k a s).1)
      → P (andthen m k).1
  andthen-kept (ok a, s) k h hk = hk a s h
  andthen-kept (err e, s) k h hk = h
  andthen-kept (panic, s) k h hk = h
  andthen-kept (stuck, s) k h hk = h

  release_one-kept :
      (entry here : Bool) (iface : Text) (index : ℕ) (s : S)
      → P s
      → P (release_one b entry here iface index s).1
  unfolding release_one
  release_one-kept true here iface index s h = h
  release_one-kept false true iface index s h =
      andthen-kept (b.delete index s) _ (kept.delete index s h)
        (λ _ t k. kept.remove_file (journal_name iface) t k)
  release_one-kept false false iface index s h = kept.remove_file (journal_name iface) s h

  release-kept :
      (roots : List Qdisc) (wanted saved : Wanted) (s : S)
      → P s
      → P (release b roots wanted saved s).1
  unfolding release
  release-kept roots wanted [] s h = h
  release-kept roots wanted ((iface, (index, o)) ∷ saved) s h =
      andthen-kept (release_one b _ (has_owned roots index o) iface index s)
        (λ _ t. release b roots wanted saved t) (release_one-kept _ _ iface index s h)
        (λ _ t k. release-kept roots wanted saved t k)

  dumped_again-kept :
      (saved : Wanted) (roots : List Qdisc) (s : S) → P s → P (dumped_again b saved roots s).1
  dumped_again-kept [] roots s h = h
  dumped_again-kept (e ∷ saved) roots s h = kept.roots s h

  checked-kept :
      (index : ℕ) (o : Options) (roots : List Qdisc) (s : S) → P s → P (checked b index o roots s).1
  checked-kept index o roots s h = elim (Bool-cases (has_owned roots index o)) [
    | inl e ↦ rw e h
    | inr e ↦ rw e h
  ]

  added-kept :
      (iface : Text) (index : ℕ) (o : Options) (s : S) → P s → P (added b iface index o s).1
  added-kept iface index o s h =
      andthen-kept (write_journal b iface index o s)
        (λ _ t. andthen (b.add index o t) (λ _ u. andthen (b.roots u) (checked b index o)))
        (kept.replace_file _ _ s h)
        (λ _ t k.
          andthen-kept (b.add index o t) (λ _ u. andthen (b.roots u) (checked b index o))
            (kept.add index o t k)
            (λ _ u j.
              andthen-kept (b.roots u) (checked b index o) (kept.roots u j)
                (λ roots v i. checked-kept index o roots v i)))

  install_one-kept :
      (saved : Wanted) (roots : List Qdisc) (iface : Text) (index : ℕ) (o : Options) (s : S)
      → P s
      → P (install_one b saved roots iface index o s).1
  unfolding install_one
  install_one-kept saved roots iface index o s h =
      at (is_entry (find iface saved) index o && is_own_root (root_of index roots) index o)
        (is_custom (root_of index roots) || some_of (is_custom_child index) roots)
    where
      at :
          (x y : Bool)
          → P
              (if x
                then (ok tt, s)
                else if y
                then (err (invalid_data "custom qdisc preserved"), s)
                else added b iface index o s).1
      at true y = h
      at false true = h
      at false false = added-kept iface index o s h

  install_all-kept :
      (saved : Wanted) (roots : List Qdisc) (wanted : Wanted) (s : S)
      → P s
      → P (install_all b saved roots wanted s).1
  unfolding install_all
  install_all-kept saved roots [] s h = h
  install_all-kept saved roots ((iface, (index, o)) ∷ wanted) s h =
      andthen-kept (install_one b saved roots iface index o s)
        (λ _ t. install_all b saved roots wanted t) (install_one-kept saved roots iface index o s h)
        (λ _ t k. install_all-kept saved roots wanted t k)

  settle-kept : (saved wanted : Wanted) (s : S) → P s → P (settle b saved wanted s).1
  unfolding settle
  settle-kept saved wanted s h = released (b.roots s) (kept.roots s h)
    where
      settled_on : List Qdisc → S → Result Error Text × S
      settled_on again v =
          andthen (install_all b saved again wanted v) (λ _ w. (ok (status_of wanted), w))

      installed : (again : List Qdisc) (v : S) → P v → P (settled_on again v).1
      installed again v k =
          andthen-kept (install_all b saved again wanted v) (λ _ w. (ok (status_of wanted), w))
            (install_all-kept saved again wanted v k) (λ _ w j. j)

      again_from : List Qdisc → S → Result Error Text × S
      again_from roots u = andthen (dumped_again b saved roots u) settled_on

      released :
          (m : Result Error (List Qdisc) × S)
          → P m.1
          → P
              (andthen m
                (λ roots t. andthen (release b roots wanted saved t) (λ _ u. again_from roots u))).1
      released m k =
          andthen-kept m
            (λ roots t. andthen (release b roots wanted saved t) (λ _ u. again_from roots u)) k
            (λ roots t j.
              andthen-kept (release b roots wanted saved t) (λ _ u. again_from roots u)
                (release-kept roots wanted saved t j)
                (λ _ u i.
                  andthen-kept (dumped_again b saved roots u) settled_on
                    (dumped_again-kept saved roots u i) installed))

  reconcile-kept : (wanted : Wanted) (s : S) → P s → P (reconcile b wanted s).1
  unfolding reconcile
  reconcile-kept wanted s h =
      andthen-kept (b.listing s) (λ files t. andthen (journals files, t) begun) (kept.listing s h)
        (λ files t k. at t (journals files) k)
    where
      begun : Wanted → S → Result Error Text × S
      begun saved u =
          if is_empty saved && is_empty wanted
          then (ok (codes "disabled"), u)
          else settle b saved wanted u

      one :
          (x : Bool) (saved : Wanted) (t : S)
          → P t
          → P (if x then (ok (codes "disabled"), t) else settle b saved wanted t).1
      one true saved t k = k
      one false saved t k = settle-kept saved wanted t k

      at : (t : S) (r : Result Error Wanted) → P t → P (andthen (r, t) begun).1
      at t (ok saved) k = one (is_empty saved && is_empty wanted) saved t k
      at t (err e) k = k
      at t panic k = k
      at t stuck k = k

  pub cleanup-kept : (s : S) → P s → P (cleanup b s).1
  unfolding cleanup
  cleanup-kept s h =
      andthen-kept (reconcile b [] s) (λ _ t. (ok tt, t)) (reconcile-kept [] s h) (λ _ t k. k)

  shown-kept : (c : Config) (m : Result Error Text × S) → P m.1 → P (shown b c m).1
  shown-kept c (ok t, s) h =
      elim (Bool-cases
        (text_eq t (codes "disabled") && (ltb 0 c.sqm_up_kbit || ltb 0 c.sqm_down_kbit))) [
          | inl e ↦ rw e h
          | inr e ↦ rw e h
        ]
  shown-kept c (err e, s) h = h
  shown-kept c (panic, s) h = h
  shown-kept c (stuck, s) h = h

  pub sync-kept :
      (ifindex : Text → Option Text) (c : Config) (l : Links) (s : S)
      → P s
      → P (sync b ifindex c l s).1
  unfolding sync
  sync-kept ifindex c l s h =
      shown-kept c (reconcile b (desired ifindex c l) s) (reconcile-kept (desired ifindex c l) s h)
