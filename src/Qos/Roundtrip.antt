-- ===== src/Qos/Roundtrip.antt =====
-- Attributes that are written are read back.
use nfqttl.Base.{
  ℕ, zero, suc, ◌+◌, ◌-◌, ◌*◌, ◌/◌, ◌%◌, ◌^◌, ◌≤◌, ◌<◌, ◌≡◌, refl, sym, ap, ◌∙◌, subst, arith,
  false, ◌||◌, ltb, [], ◌∷◌, ◌++◌, length, length-append, length-replicate, take, drop, take_prefix,
  drop_prefix, replicate, All, All-append, ok, slice-ok, Error,
}
use mathlib.Core.List.{append_assoc, append-nil}
use nfqttl.Base.Words.{
  Bytes, IsByte, IsBytes, to_le16, le16_at, read_le16-ok, align4, align4_bounds,
}
use nfqttl.Qos.{Options, insert, has_key, attr, encode_into, encode, read_attr, attrs_from, attrs}
use nfqttl.Qos.Parse.{IsField, Increasing, IsOptions}

-- The bytes of one attribute.
abbrev cell : ℕ → Bytes → Bytes
cell k v =
    to_le16 ((length v + 4) % 2 ^ 16)
    ++ (to_le16 k ++ (v ++ replicate (align4 (length v + 4) - (length v + 4)) 0))

length-cell : (k : ℕ) (v : Bytes) → length (cell k v) ≡ align4 (length v + 4)
length-cell k v =
    let n = align4 (length v + 4) - (length v + 4) in
    omega (
      arith,
      length-append v (replicate n 0),
      length-replicate {A = ℕ} n 0,
      align4_bounds (length v + 4),
    )

-- The padding after aligned bytes is that of the attribute alone.
attr-cell : (b : Bytes) (k : ℕ) (v : Bytes) → length b % 4 ≡ 0 → attr b k v ≡ b ++ cell k v
attr-cell b k v h =
    let head = to_le16 ((length v + 4) % 2 ^ 16) ++ (to_le16 k ++ v) in
    let size : length (b ++ head) ≡ length b + (length v + 4) =
      omega (arith, length-append b head) in
    let same : align4 (length (b ++ head)) - length (b ++ head)
        ≡ align4 (length v + 4) - (length v + 4) =
      omega (arith, size, h) in
    ap (λ n. (b ++ head) ++ replicate n 0) same ∙ append_assoc b head _

pub encode_into-append :
    (b : Bytes) (o : Options) → length b % 4 ≡ 0 → encode_into b o ≡ b ++ encode o
unfolding encode_into
encode_into-append b [] h = sym (append-nil b)
encode_into-append b ((k, v) ∷ o) h =
    let whole : length (b ++ cell k v) % 4 ≡ 0 =
      omega (arith, length-append b (cell k v), length-cell k v, h) in
    let alone : length (cell k v) % 4 ≡ 0 = omega (arith, length-cell k v) in
    ap (λ c. encode_into c o) (attr-cell b k v h)
    ∙ encode_into-append (b ++ cell k v) o whole
    ∙ append_assoc b (cell k v) (encode o)
    ∙ ap (λ c. b ++ c)
        (sym (
          ap (λ c. encode_into c o) (attr-cell [] k v refl)
          ∙ encode_into-append (cell k v) o alone))

encode_cons : (k : ℕ) (v : Bytes) (o : Options) → encode ((k, v) ∷ o) ≡ cell k v ++ encode o
unfolding encode_into
encode_cons k v o =
    ap (λ c. encode_into c o) (attr-cell [] k v refl)
    ∙ encode_into-append (cell k v) o (omega (arith, length-cell k v))

insert-last :
    (out : Options) (k : ℕ) (v : Bytes)
    → All (λ (e : ℕ × Bytes). e.0 < k) out
    → insert k v out ≡ out ++ ((k, v) ∷ [])
unfolding insert
insert-last [] k v h = refl
insert-last ((j, w) ∷ out) k v (b, h) = ground (arith, insert-last out k v h)

has_key-fresh :
    (out : Options) (k : ℕ) → All (λ (e : ℕ × Bytes). e.0 < k) out → has_key k out ≡ false
unfolding has_key
has_key-fresh [] k h = refl
has_key-fresh ((j, w) ∷ out) k (b, h) = ground (arith, has_key-fresh out k h)

read_attr-ok :
    (b : Bytes) (n : ℕ)
    → 4 ≤ length b
    → le16_at b 0 ≡ n
    → 4 ≤ n
    → align4 n ≤ length b
    → read_attr b
      ≡ ok (
        le16_at b 2 % 2 ^ 14,
        take (n - 4) (drop 4 b),
        take (length b - align4 n) (drop (align4 n) b),
      )
unfolding read_attr
read_attr-ok b n l e lo hi =
    let long : ltb (length b) 4 ≡ false = ground arith in
    let right : (ltb n 4 || ltb (length b) (align4 n)) ≡ false = ground arith in
    rw
      (
        long,
        read_le16-ok {E = Error} b 0 (omega arith),
        read_le16-ok {E = Error} b 2 (omega arith),
        e,
        right,
        slice-ok {E = Error} b 4 n lo (omega arith),
        slice-ok {E = Error} b (align4 n) (length b) hi (omega arith),
      )
      refl

pub take_all : (xs : Bytes) (n : ℕ) → length xs ≡ n → take n xs ≡ xs
take_all [] zero h = refl
take_all [] (suc n) h = refl
take_all (x ∷ xs) zero h = absurd (omega arith)
take_all (x ∷ xs) (suc n) h = ap (λ t. x ∷ t) (take_all xs n (omega arith))

read_attr-cell :
    (k : ℕ) (v rest : Bytes)
    → k < 2 ^ 14
    → length v + 4 < 2 ^ 16
    → read_attr (cell k v ++ rest) ≡ ok (k, v, rest)
read_attr-cell k v rest hk hv =
    let zeros : Bytes = replicate (align4 (length v + 4) - (length v + 4)) 0 in
    let size : length (cell k v ++ rest) ≡ align4 (length v + 4) + length rest =
      omega (arith, length-append (cell k v) rest, length-cell k v) in
    let less : length v + 4 - 4 ≡ length v = omega arith in
    let value : take (length v + 4 - 4) ((v ++ zeros) ++ rest) ≡ v =
      ap (λ n. take n ((v ++ zeros) ++ rest)) less
      ∙ ap (take (length v)) (append_assoc v zeros rest)
      ∙ take_prefix v (zeros ++ rest) in
    let after : drop (align4 (length v + 4)) (cell k v ++ rest) ≡ rest =
      ap (λ n. drop n (cell k v ++ rest)) (sym (length-cell k v)) ∙ drop_prefix (cell k v) rest in
    let remains : take (length (cell k v ++ rest) - align4 (length v + 4)) rest ≡ rest =
      take_all rest _ (omega arith) in
    let key : (k % 256 + k / 256 % 256 * 256) % 2 ^ 14 ≡ k = omega arith in
    read_attr-ok (cell k v ++ rest) (length v + 4) (omega arith) (omega arith) (omega arith)
      (omega arith)
    ∙ ap
        (λ i. ok (
          i,
          take (length v + 4 - 4) ((v ++ zeros) ++ rest),
          take (length (cell k v ++ rest) - align4 (length v + 4))
              (drop (align4 (length v + 4)) (cell k v ++ rest)),
        ))
        key
    ∙ ap
        (λ t. ok (
          k,
          t,
          take (length (cell k v ++ rest) - align4 (length v + 4))
              (drop (align4 (length v + 4)) (cell k v ++ rest)),
        ))
        value
    ∙ ap (λ t. ok (k, v, take (length (cell k v ++ rest) - align4 (length v + 4)) t)) after
    ∙ ap (λ t. ok (k, v, t)) remains

-- The keys of `out` come before those of `o`.
abbrev Before : Options → Options → Type 0
Before out o = All (λ (e : ℕ × Bytes). All (λ (f : ℕ × Bytes). f.0 < e.0) out) o

Before-next :
    (out o : Options) (k : ℕ) (v : Bytes)
    → Before out o
    → All (λ (e : ℕ × Bytes). k < e.0) o
    → Before (out ++ ((k, v) ∷ [])) o
Before-next out [] k v h a = tt
Before-next out ((j, w) ∷ o) k v (b, h) (l, a) =
    (All-append (λ (f : ℕ × Bytes). f.0 < j) out ((k, v) ∷ []) b (l, tt), Before-next out o k v h a)

attrs_from-cell :
    (fuel k : ℕ) (v rest : Bytes) (out : Options)
    → k < 2 ^ 14
    → length v + 4 < 2 ^ 16
    → All (λ (e : ℕ × Bytes). e.0 < k) out
    → attrs_from (suc fuel) (cell k v ++ rest) out ≡ attrs_from fuel rest (out ++ ((k, v) ∷ []))
unfolding attrs_from
attrs_from-cell fuel k v rest out hk hv a =
    rw (read_attr-cell k v rest hk hv)
      (rw (has_key-fresh out k a) (ap (attrs_from fuel rest) (insert-last out k v a)))

attrs_from-encode :
    (o : Options) (fuel : ℕ) (out : Options)
    → length (encode o) ≤ fuel
    → Increasing o
    → All IsField o
    → Before out o
    → attrs_from fuel (encode o) out ≡ ok (out ++ o)
unfolding Increasing attrs_from encode_into
attrs_from-encode [] fuel out l i f a = ap ok (sym (append-nil out))
attrs_from-encode ((k, v) ∷ o) zero out l i f a = absurd (
    omega
      (arith, ap length (encode_cons k v o), length-append (cell k v) (encode o), length-cell k v))
attrs_from-encode ((k, v) ∷ o) (suc fuel) out l (ki, i) ((hk, hv, hb), f) (ka, a) =
    ap (λ b. attrs_from (suc fuel) b out) (encode_cons k v o)
    ∙ attrs_from-cell fuel k v (encode o) out hk hv ka
    ∙ attrs_from-encode o fuel (out ++ ((k, v) ∷ []))
        (omega (
          arith,
          ap length (encode_cons k v o),
          length-append (cell k v) (encode o),
          length-cell k v,
          align4_bounds (length v + 4),
        ))
        i f (Before-next out o k v a ki)
    ∙ ap ok (append_assoc out ((k, v) ∷ []) o)

Before-none : (o : Options) → Before [] o
Before-none [] = tt
Before-none (e ∷ o) = (tt, Before-none o)

-- Options with increasing keys of at most 14 bits and values that fit an attribute are read back
-- from their encoding as they were.
pub attrs-encode : (o : Options) → IsOptions o → attrs (encode o) ≡ ok o
attrs-encode o w =
    attrs_from-encode o (length (encode o)) [] (omega arith) w.increasing w.fields (Before-none o)

zeros-IsBytes : (n : ℕ) → IsBytes (replicate n 0)
zeros-IsBytes zero = tt
zeros-IsBytes (suc n) = (omega arith, zeros-IsBytes n)

pub encode-IsBytes : (o : Options) → All IsField o → IsBytes (encode o)
unfolding encode_into
encode-IsBytes [] f = tt
encode-IsBytes ((k, v) ∷ o) ((hk, hv, hb), f) = subst IsBytes (sym (encode_cons k v o)) (
  omega arith,
  (
    omega arith,
    (
      omega arith,
      (
        omega arith,
        All-append IsByte (v ++ _) (encode o) (All-append IsByte v _ hb (zeros-IsBytes _))
            (encode-IsBytes o f),
      ),
    ),
  ),
)
