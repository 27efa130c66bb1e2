-- ===== src/Verify/Histogram.antt =====
-- The histogram of TTL values: what `foreign` counts after a series of `add`.
use nfqttl.Base.{
  ℕ, zero, suc, ◌+◌, ◌<◌, ◌≡◌, refl, ◌∙◌, if◌then◌else◌, arith, List, [], ◌∷◌, length, length-set,
  length-replicate, get_or, set, replicate, All,
}
use nfqttl.Verify.{Hist, empty_hist, add, contains, foreign_from, foreign}

-- The values are added one by one.
unfoldable pub add_all : List ℕ → Hist → Hist
add_all [] h = h
add_all (v ∷ vs) h = add_all vs (add h v)

-- How many of the values are not among the known ones.
unfoldable pub unknown : List ℕ → List ℕ → ℕ
unknown known [] = 0
unknown known (v ∷ vs) = (if contains known v then 0 else 1) + unknown known vs

foreign_from-set :
    (known cs : List ℕ) (k v w : ℕ)
    → v < length cs
    → w ≡ k + v
    → foreign_from known k (set cs v (get_or cs v 0 + 1))
      ≡ (if contains known w then 0 else 1) + foreign_from known k cs
unfolding foreign_from
foreign_from-set known [] k v w h e = absurd (omega arith)
foreign_from-set known (c ∷ cs) k zero w h e =
    let same : w ≡ k = omega arith in rw same (ground arith)
foreign_from-set known (c ∷ cs) k (suc v) w h e =
    ground (arith, foreign_from-set known cs (k + 1) v w)

foreign-add :
    (known : List ℕ) (h : Hist) (v : ℕ)
    → v < length h.counts
    → foreign (add h v) known ≡ (if contains known v then 0 else 1) + foreign h known
unfolding add
foreign-add known h v b = foreign_from-set known h.counts 0 v v b (omega arith)

foreign-zeros : (known : List ℕ) (k n : ℕ) → foreign_from known k (replicate n 0) ≡ 0
unfolding foreign_from
foreign-zeros known k zero = refl
foreign-zeros known k (suc n) = ground (arith, foreign-zeros known (k + 1) n)

pub record Counts (known vs : List ℕ) (before after : Hist) : Type 0 where
  pub foreign_is : foreign after known ≡ unknown known vs + foreign before known
  pub total_is : after.total ≡ length vs + before.total
  pub size_is : length after.counts ≡ 256

add_all-Counts :
    (known vs : List ℕ) (h : Hist)
    → length h.counts ≡ 256
    → All (λ v. v < 256) vs
    → Counts known vs h (add_all vs h)
unfolding add_all add unknown
add_all-Counts known [] h l b = record {
  foreign_is = omega arith;
  total_is = omega arith;
  size_is = l;
}
add_all-Counts known (v ∷ vs) h l b =
    let rest = add_all-Counts known vs (add h v) (length-set h.counts v _ ∙ l) b.1 in
    record {
      foreign_is = omega (arith, rest.foreign_is, foreign-add known h v (omega arith));
      total_is = omega (arith, rest.total_is);
      size_is = rest.size_is;
    }

-- After any bytes have been added to an empty histogram, `foreign` is the number of them that are
-- not among the known values, and `total` is the number of them all.
pub foreign-add_all :
    (known vs : List ℕ)
    → All (λ v. v < 256) vs
    → (foreign (add_all vs empty_hist) known ≡ unknown known vs)
      × ((add_all vs empty_hist).total ≡ length vs)
foreign-add_all known vs b =
    let counted = add_all-Counts known vs empty_hist (length-replicate {A = ℕ} 256 0) b in
    (omega (arith, counted.foreign_is, foreign-zeros known 0 256), omega (arith, counted.total_is))
