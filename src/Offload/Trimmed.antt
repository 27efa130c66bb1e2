-- ===== src/Offload/Trimmed.antt =====
-- Small facts on the values and the keys.
use nfqttl.Base.{
  ◌≡◌, refl, sym, subst, arith, ◌⊎◌, inl, inr, true, false, ◌||◌, Bool-cases, none, some,
}
use nfqttl.Base.Text.{Text, codes, text_eq, text_eq_iff, trim, trim_start, is_space}
use nfqttl.Offload.{Key, hw, bpf, bpf_tethering, new_of, is_valid}
use nfqttl.Offload.Store.{same_key}

trim_known :
    (v a b c : Text)
    → trim a ≡ a
    → trim b ≡ b
    → trim c ≡ c
    → (text_eq v a || (text_eq v b || text_eq v c)) ≡ true
    → trim v ≡ v
trim_known v a b c ha hb hc h = elim (Bool-cases (text_eq v a)) [
  | inl e ↦ known a ha e
  | inr na ↦ elim (Bool-cases (text_eq v b)) [
    | inl e ↦ known b hb e
    | inr nb ↦ known c hc (ground arith)
  ]
]
  where
    known : (w : Text) → trim w ≡ w → text_eq v w ≡ true → trim v ≡ v
    known w short e = subst (λ u. trim u ≡ u) (sym ((text_eq_iff v w).0 e)) short

pub trim-valid : (k : Key) (v : Text) → is_valid k v ≡ true → trim v ≡ v
unfolding trim trim_start is_space
trim-valid hw v h = trim_known v (codes "0") (codes "1") (codes "null") refl refl refl h
trim-valid bpf v h = trim_known v (codes "true") (codes "false") (codes "null") refl refl refl h
trim-valid bpf_tethering v h =
    trim_known v (codes "true") (codes "false") (codes "null") refl refl refl h

pub trim-new_of : (k : Key) → trim (new_of k) ≡ new_of k
unfolding trim trim_start is_space
trim-new_of hw = refl
trim-new_of bpf = refl
trim-new_of bpf_tethering = refl

pub some_not_none : (t : Text) → some t ≡ none → ⊥
some_not_none t h = ground arith

pub some_same : (t u : Text) → some t ≡ some u → t ≡ u
some_same t u h = ground arith

pub true_not_false : true ≡ false → ⊥
true_not_false h = ground arith

pub Key-cases : (j k : Key) → (j ≡ k) ⊎ (same_key j k ≡ false)
Key-cases hw hw = inl refl
Key-cases bpf bpf = inl refl
Key-cases bpf_tethering bpf_tethering = inl refl
Key-cases hw bpf = inr refl
Key-cases hw bpf_tethering = inr refl
Key-cases bpf hw = inr refl
Key-cases bpf bpf_tethering = inr refl
Key-cases bpf_tethering hw = inr refl
Key-cases bpf_tethering bpf = inr refl

pub last_key : (k : Key) → same_key hw k ≡ false → same_key bpf k ≡ false → bpf_tethering ≡ k
last_key hw p q = ground arith
last_key bpf p q = ground arith
last_key bpf_tethering p q = refl
