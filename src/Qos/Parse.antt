-- ===== src/Qos/Parse.antt =====
-- What reading attributes yields, on any bytes.
use nfqttl.Base.{
  ℕ, zero, suc, ◌+◌, ◌%◌, ◌^◌, ◌≤◌, ◌<◌, sym, subst, ==_iff, arith, ◌||◌, ltb, ◌==◌, Bool-cases,
  inl, inr, [], ◌∷◌, length, length-slice, All, All-take, All-drop, ok, Post, Post-bind, slice,
  slice-ok, ◌>>=◌, Error,
}
use nfqttl.Base.Words.{Bytes, IsByte, IsBytes, le16_at, le16_at-lt, read_le16-ok, align4}
use nfqttl.Qos.{Options, insert, has_key, read_attr, attrs_from, attrs}

-- A key of 14 bits and a value that fits an attribute.
abbrev pub IsField : ℕ × Bytes → Type 0
IsField e = (e.0 < 2 ^ 14) × (length e.1 + 4 < 2 ^ 16) × IsBytes e.1

unfoldable pub Increasing : Options → Type 0
Increasing [] = Unit
Increasing ((k, v) ∷ o) = All (λ (e : ℕ × Bytes). k < e.0) o × Increasing o

pub record IsOptions (o : Options) : Type 0 where
  pub increasing : Increasing o
  pub fields : All IsField o

insert-above :
    (j k : ℕ) (v : Bytes) (o : Options)
    → j < k
    → All (λ (e : ℕ × Bytes). j < e.0) o
    → All (λ (e : ℕ × Bytes). j < e.0) (insert k v o)
unfolding insert
insert-above j k v [] h a = (h, tt)
insert-above j k v ((i, w) ∷ o) h (b, a) = ground (arith, insert-above j k v o h a)

above_trans :
    (j k : ℕ) (o : Options)
    → j < k
    → All (λ (e : ℕ × Bytes). k < e.0) o
    → All (λ (e : ℕ × Bytes). j < e.0) o
above_trans j k [] h a = tt
above_trans j k ((i, w) ∷ o) h (b, a) = (omega arith, above_trans j k o h a)

pub insert-Increasing : (k : ℕ) (v : Bytes) (o : Options) → Increasing o → Increasing (insert k v o)
unfolding insert Increasing
insert-Increasing k v [] h = (tt, tt)
insert-Increasing k v ((j, w) ∷ o) (a, h) = elim (Bool-cases (ltb k j)) [
  | inl less ↦ rw less ((ground arith, above_trans k j o (ground arith) a), (a, h))
  | inr more ↦ elim (Bool-cases (k == j)) [
    | inl same ↦
        rw more (
          rw same
            (subst (λ i. All (λ (e : ℕ × Bytes). i < e.0) o) (sym ((==_iff k j).0 same)) a, h))
    | inr different ↦
        rw more (rw different (insert-above j k v o (ground arith) a, insert-Increasing k v o h))
  ]
]

pub insert-fields :
    (k : ℕ) (v : Bytes) (o : Options) → IsField (k, v) → All IsField o → All IsField (insert k v o)
unfolding insert
insert-fields k v [] h a = (h, tt)
insert-fields k v ((j, w) ∷ o) h (b, a) = ground (arith, insert-fields k v o h a)

-- What one attribute yields: a field, and fewer bytes.
record IsRead (b : Bytes) (r : ℕ × Bytes × Bytes) : Type 0 where
  field_is : IsField (r.0, r.1)
  rest_is : IsBytes r.2
  shorter : length r.2 + 4 ≤ length b

read_attr-IsRead : (b : Bytes) → IsBytes b → Post (IsRead b) (read_attr b)
unfolding read_attr
read_attr-IsRead b h = elim (Bool-cases (ltb (length b) 4)) [
  | inl short ↦ rw short tt
  | inr long ↦
      rw
        (
          long,
          read_le16-ok {E = Error} b 0 (ground arith),
          read_le16-ok {E = Error} b 2 (ground arith),
        )
        (elim (Bool-cases (ltb (le16_at b 0) 4 || ltb (length b) (align4 (le16_at b 0)))) [
          | inl wrong ↦ rw wrong tt
          | inr right ↦ rw right (cut (ground arith) (ground arith))
        ])
]
  where
    cut :
        4 ≤ le16_at b 0
        → align4 (le16_at b 0) ≤ length b
        → Post (IsRead b) (do
          value ← slice {E = Error} b 4 (le16_at b 0)
          rest ← slice b (align4 (le16_at b 0)) (length b)
          ok (le16_at b 2 % 2 ^ 14, value, rest))
    cut lo hi =
        rw
          (
            slice-ok {E = Error} b 4 (le16_at b 0) lo (omega arith),
            slice-ok {E = Error} b (align4 (le16_at b 0)) (length b) hi (omega arith),
          )
          (record {
            field_is = (
              omega arith,
              omega (arith, length-slice b 4 (le16_at b 0) lo (omega arith), le16_at-lt b 0 h),
              All-take IsByte _ _ (All-drop IsByte 4 b h),
            );
            rest_is = All-take IsByte _ _ (All-drop IsByte _ b h);
            shorter =
                omega
                  (arith, length-slice b (align4 (le16_at b 0)) (length b) hi (omega arith), lo);
          })

attrs_from-IsOptions :
    (fuel : ℕ) (b : Bytes) (out : Options)
    → length b ≤ fuel
    → IsBytes b
    → IsOptions out
    → Post IsOptions (attrs_from fuel b out)
unfolding attrs_from
attrs_from-IsOptions fuel [] out l h o = o
attrs_from-IsOptions zero (x ∷ b) out l h o = absurd (omega arith)
attrs_from-IsOptions (suc fuel) (x ∷ b) out l h o =
    Post-bind (IsRead (x ∷ b)) IsOptions _ _ (read_attr-IsRead (x ∷ b) h) (λ (k, value, rest) w.
      elim (Bool-cases (has_key k out)) [
        | inl twice ↦ rw twice tt
        | inr once ↦ rw once (
            attrs_from-IsOptions fuel rest (insert k value out) (omega (arith, w.shorter)) w.rest_is
              (record {
                increasing = insert-Increasing k value out o.increasing;
                fields = insert-fields k value out w.field_is o.fields;
              }))
      ])

-- Reading attributes ends on any bytes without a panic. What it returns has increasing keys of at
-- most 14 bits and values that fit an attribute.
pub attrs-IsOptions : (b : Bytes) → IsBytes b → Post IsOptions (attrs b)
unfolding Increasing
attrs-IsOptions b h =
    attrs_from-IsOptions (length b) b [] (omega arith) h (record { increasing = tt; fields = tt })
