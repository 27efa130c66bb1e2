-- ===== src/Net/Order.antt =====
-- Sorting and removing repeats keep the names of a list, and put them in increasing order.
use nfqttl.Base.{
  ◌≡◌, refl, sym, ap, subst, Bool, true, false, ◌&&◌, ◌||◌, arith, Bool-cases, inl, inr, List, [],
  ◌∷◌,
}
use nfqttl.Base.Text.{Text, text_eq, text_eq_iff, text_eq_refl, some_of, has_text, keep_if}
use nfqttl.Net.{text_leb, sort_insert, sort, dedup_after, dedup}

pub has_text-keep_if :
    (p : Text → Bool) (ts : List Text) (s : Text)
    → has_text (keep_if p ts) s ≡ (has_text ts s && p s)
unfolding keep_if some_of
has_text-keep_if p [] s = refl
has_text-keep_if p (t ∷ ts) s = elim (Bool-cases (text_eq s t)) [
  | inl same ↦
      rw (← (text_eq_iff s t).0 same) (ground (arith, text_eq_refl s, has_text-keep_if p ts s))
  | inr differ ↦ ground (arith, has_text-keep_if p ts s)
]

has_text-sort_insert :
    (x : Text) (ts : List Text) (s : Text)
    → has_text (sort_insert x ts) s ≡ (text_eq s x || has_text ts s)
unfolding sort_insert some_of
has_text-sort_insert x [] s = refl
has_text-sort_insert x (t ∷ ts) s = ground (arith, has_text-sort_insert x ts s)

pub has_text-sort : (ts : List Text) (s : Text) → has_text (sort ts) s ≡ has_text ts s
unfolding sort some_of
has_text-sort [] s = refl
has_text-sort (t ∷ ts) s = ground (arith, has_text-sort_insert t (sort ts) s, has_text-sort ts s)

has_text-dedup_after :
    (x : Text) (ts : List Text) (s : Text)
    → (text_eq s x || has_text (dedup_after x ts) s) ≡ (text_eq s x || has_text ts s)
unfolding dedup_after some_of
has_text-dedup_after x [] s = refl
has_text-dedup_after x (t ∷ ts) s = elim (Bool-cases (text_eq x t)) [
  | inl same ↦
      ground (arith, same, ap (text_eq s) ((text_eq_iff x t).0 same), has_text-dedup_after x ts s)
  | inr differ ↦ ground (arith, differ, has_text-dedup_after x ts s, has_text-dedup_after t ts s)
]

pub has_text-dedup : (ts : List Text) (s : Text) → has_text (dedup ts) s ≡ has_text ts s
unfolding dedup some_of
has_text-dedup [] s = refl
has_text-dedup (t ∷ ts) s = has_text-dedup_after t ts s

-- Neighbours satisfy `R`; the first is after `x`, if there is one.
abbrev pub ChainFrom : (Text → Text → Type 0) → Text → List Text → Type 0
ChainFrom R x [] = Unit
ChainFrom R x (y ∷ ts) = R x y × ChainFrom R y ts

abbrev pub Chain : (Text → Text → Type 0) → List Text → Type 0
Chain R [] = Unit
Chain R (x ∷ ts) = ChainFrom R x ts

abbrev Before : Text → Text → Type 0
Before s t = text_leb s t ≡ true

-- A name stands before another, and differs from it.
abbrev pub StrictlyBefore : Text → Text → Type 0
StrictlyBefore s t = (text_leb s t ≡ true) × (text_eq s t ≡ false)

text_leb_total : (s t : Text) → text_leb s t ≡ false → text_leb t s ≡ true
unfolding text_leb
text_leb_total [] t h = cc
text_leb_total (a ∷ s) [] h = refl
text_leb_total (a ∷ s) (b ∷ t) h = ground (arith, text_leb_total s t)

insert-ChainFrom :
    (y x : Text) (ts : List Text)
    → Before y x
    → ChainFrom Before y ts
    → ChainFrom Before y (sort_insert x ts)
unfolding sort_insert
insert-ChainFrom y x [] b h = (b, tt)
insert-ChainFrom y x (z ∷ ts) b h = elim (Bool-cases (text_leb x z)) [
  | inl le ↦ rw le (b, (le, h.1))
  | inr gt ↦ rw gt (h.0, insert-ChainFrom z x ts (text_leb_total x z gt) h.1)
]

sort_insert-Chain : (x : Text) (ts : List Text) → Chain Before ts → Chain Before (sort_insert x ts)
unfolding sort_insert
sort_insert-Chain x [] h = tt
sort_insert-Chain x (y ∷ ts) h = elim (Bool-cases (text_leb x y)) [
  | inl le ↦ rw le (le, h)
  | inr gt ↦ rw gt (insert-ChainFrom y x ts (text_leb_total x y gt) h)
]

sort-Chain : (ts : List Text) → Chain Before (sort ts)
unfolding sort
sort-Chain [] = tt
sort-Chain (t ∷ ts) = sort_insert-Chain t (sort ts) (sort-Chain ts)

dedup_after-Chain :
    (x : Text) (ts : List Text)
    → ChainFrom Before x ts
    → ChainFrom StrictlyBefore x (dedup_after x ts)
unfolding dedup_after
dedup_after-Chain x [] h = tt
dedup_after-Chain x (y ∷ ts) h = elim (Bool-cases (text_eq x y)) [
  | inl same ↦ rw same (
      dedup_after-Chain x ts
        (subst (λ z. ChainFrom Before z ts) (sym ((text_eq_iff x y).0 same)) h.1))
  | inr differ ↦ rw differ ((h.0, differ), dedup_after-Chain y ts h.1)
]

-- What is sorted and freed of repeats is strictly increasing.
pub dedup-sort-Chain : (ts : List Text) → Chain StrictlyBefore (dedup (sort ts))
dedup-sort-Chain ts = go (sort ts) (sort-Chain ts)
  where
    go : (us : List Text) → Chain Before us → Chain StrictlyBefore (dedup us)
    go [] h = unfold dedup in tt
    go (u ∷ us) h = unfold dedup in dedup_after-Chain u us h
