-- ===== src/Qos/Reconcile.antt =====
-- src/qos.rs, `reconcile`, `sync` and `cleanup`: the qdiscs of the kernel and the journal are brought
-- to what is wanted. The kernel and the state directory are a parameter.
pub mod Kept
pub mod Kernel
pub mod Release
pub mod Install
pub mod Entries
pub mod Settled
pub mod Synced
pub mod Examples
use nfqttl.Base.{
  ℕ, ◌+◌, Bool, true, false, ◌&&◌, ◌||◌, not, ◌==◌, ltb, if◌then◌else◌, List, [], ◌∷◌, ◌++◌, map,
  Option, none, some, Result, ok, err, panic, stuck, Error, invalid_data,
}
use nfqttl.Base.Runs.{andthen}
use nfqttl.Base.Text.{Text, codes, text_eq, some_of, has_text}
use nfqttl.Config.{Config}
use nfqttl.Net.{Links}
use nfqttl.Qos.{Options}
use nfqttl.Qos.Message.{Qdisc, root, same_options, owned, replaceable}
use nfqttl.Qos.Desired.{Wanted, desired}
use nfqttl.Qos.Journals.{Listing, journals, journal_name, journal_text}

-- `roots`, `add` and `delete` are the trait `Backend`. `listing` is the state directory, which has no
-- files if it does not exist; `replace_file` writes a temporary file and renames it.
pub record Shaper (S : Type 0) : Type 0 where
  pub roots : S → Result Error (List Qdisc) × S
  pub add : ℕ → Options → S → Result Error (Unit {0}) × S
  pub delete : ℕ → S → Result Error (Unit {0}) × S
  pub listing : S → Result Error Listing × S
  pub replace_file : Text → Text → S → Result Error (Unit {0}) × S
  pub remove_file : Text → S → Result Error (Unit {0}) × S

unfoldable pub find : Text → Wanted → Option (ℕ × Options)
find t [] = none
find t ((u, v) ∷ m) = if text_eq u t then some v else find t m

abbrev pub is_entry : Option (ℕ × Options) → ℕ → Options → Bool
is_entry none index o = false
is_entry (some (i, p)) index o = i == index && same_options p o

abbrev pub has_owned : List Qdisc → ℕ → Options → Bool
has_owned qs index o = some_of (λ q. owned q index o) qs

unfoldable pub root_of : ℕ → List Qdisc → Option Qdisc
root_of index [] = none
root_of index (q ∷ qs) = if q.index == index && q.parent == root then some q else root_of index qs

abbrev pub is_own_root : Option Qdisc → ℕ → Options → Bool
is_own_root none index o = false
is_own_root (some q) index o = owned q index o

abbrev pub is_custom : Option Qdisc → Bool
is_custom none = false
is_custom (some q) = not (replaceable q)

abbrev pub is_custom_child : ℕ → Qdisc → Bool
is_custom_child index q =
    q.index == index
    && (not (q.parent == root)
        && (not (has_text (codes "ingress" ∷ codes "clsact" ∷ []) q.kind) && not (q.handle == 0)))

abbrev pub is_empty : Wanted → Bool
is_empty [] = true
is_empty (e ∷ m) = false

unfoldable pub join_names : Wanted → Text
join_names [] = []
join_names ((t, v) ∷ []) = t
join_names ((t, v) ∷ e ∷ m) = t ++ (codes ", " ++ join_names (e ∷ m))

-- The status when all that is wanted is active.
abbrev pub status_of : Wanted → Text
status_of [] = codes "disabled"
status_of (e ∷ m) = codes "CAKE: " ++ join_names (e ∷ m)

module _ {S : Type 0} (b : Shaper S) where
  abbrev pub write_journal : Text → ℕ → Options → S → Result Error (Unit {0}) × S
  write_journal iface index o = b.replace_file (journal_name iface) (journal_text index o)

  -- An own qdisc goes from the kernel, if it is there, then its journal.
  unfoldable pub release_one : Bool → Bool → Text → ℕ → S → Result Error (Unit {0}) × S
  release_one kept here iface index s =
      if kept
      then (ok tt, s)
      else andthen (if here then b.delete index s else (ok tt, s))
          (λ _ t. b.remove_file (journal_name iface) t)

  unfoldable pub release : List Qdisc → Wanted → Wanted → S → Result Error (Unit {0}) × S
  release roots wanted [] s = (ok tt, s)
  release roots wanted ((iface, (index, o)) ∷ saved) s =
      andthen
        (release_one (is_entry (find iface wanted) index o && has_owned roots index o)
          (has_owned roots index o) iface index s)
        (λ _ t. release roots wanted saved t)

  abbrev pub checked : ℕ → Options → List Qdisc → S → Result Error (Unit {0}) × S
  checked index o roots s =
      if has_owned roots index o
      then (ok tt, s)
      else (err (invalid_data "CAKE verification failed"), s)

  -- The journal is written before the kernel.
  abbrev pub added : Text → ℕ → Options → S → Result Error (Unit {0}) × S
  added iface index o s =
      andthen (write_journal iface index o s)
        (λ _ t. andthen (b.add index o t) (λ _ u. andthen (b.roots u) (checked index o)))

  unfoldable pub install_one :
      Wanted → List Qdisc → Text → ℕ → Options → S → Result Error (Unit {0}) × S
  install_one saved roots iface index o s =
      if is_entry (find iface saved) index o && is_own_root (root_of index roots) index o
      then (ok tt, s)
      else if is_custom (root_of index roots) || some_of (is_custom_child index) roots
      then (err (invalid_data "custom qdisc preserved"), s)
      else added iface index o s

  unfoldable pub install_all : Wanted → List Qdisc → Wanted → S → Result Error (Unit {0}) × S
  install_all saved roots [] s = (ok tt, s)
  install_all saved roots ((iface, (index, o)) ∷ wanted) s =
      andthen (install_one saved roots iface index o s) (λ _ t. install_all saved roots wanted t)

  abbrev pub dumped_again : Wanted → List Qdisc → S → Result Error (List Qdisc) × S
  dumped_again [] roots s = (ok roots, s)
  dumped_again (e ∷ saved) roots s = b.roots s

  unfoldable pub settle : Wanted → Wanted → S → Result Error Text × S
  settle saved wanted s = andthen (b.roots s) (λ roots t.
      andthen (release roots wanted saved t) (λ _ u.
        andthen (dumped_again saved roots u) (λ again v.
          andthen (install_all saved again wanted v) (λ _ w. (ok (status_of wanted), w)))))

  unfoldable pub reconcile : Wanted → S → Result Error Text × S
  reconcile wanted s = andthen (b.listing s) (λ files t.
      andthen (journals files, t)
        (λ saved u.
          if is_empty saved && is_empty wanted
          then (ok (codes "disabled"), u)
          else settle saved wanted u))

  -- The status that `sync` shows, an error as none.
  abbrev pub shown : Config → Result Error Text × S → Option Text × S
  shown c (ok t, s) =
      if text_eq t (codes "disabled") && (ltb 0 c.sqm_up_kbit || ltb 0 c.sqm_down_kbit)
      then (some (codes "waiting: configured interfaces are not active"), s)
      else (some t, s)
  shown c (_, s) = (none, s)

  unfoldable pub sync : (Text → Option Text) → Config → Links → S → Option Text × S
  sync ifindex c l s = shown c (reconcile (desired ifindex c l) s)

  unfoldable pub cleanup : S → Result Error (Unit {0}) × S
  cleanup s = andthen (reconcile [] s) (λ _ t. (ok tt, t))
