-- ===== src/Base/Results.antt =====
-- What a call of fallible code ends in: a value, an error, or a panic, such as an index or a slice
-- that is out of range. `stuck` is no outcome of the code: a loop of the model ran out of fuel.
-- Reads and writes of a byte slice are calls of this kind.
use Prim.Native.Nat.{ℕ, ◌-◌, ◌≤◌, ◌<◌}
use Prim.Native.String.{String}
use mathlib.Core.Path.{◌≡◌, refl, subst}
use mathlib.Core.Logic.{◌⊎◌, inl, inr}
use mathlib.Core.Bool.{Bool, ◌&&◌}
use mathlib.Core.List.{List}
use native.Mathlib.Omega.{arith}
use nfqttl.Base.Bools.{leb, ltb, if◌then◌else◌}
use nfqttl.Base.Lists.{length, get_or, set, take, drop, length-take, length-drop}

pub data Result {ℓ} (E : Type 0) (A : Type ℓ) : Type ℓ where
  ok : A → Result E A
  err : E → Result E A
  panic : Result E A
  stuck : Result E A

infixl 5 ◌>>=◌ ◌>>◌
abbrev pub ◌>>=◌ {ℓ κ} :
    {E : Type 0} {A : Type ℓ} {B : Type κ} → Result E A → (A → Result E B) → Result E B
ok a >>= f = f a
err e >>= f = err e
panic >>= f = panic
stuck >>= f = stuck

abbrev pub ◌>>◌ {ℓ κ} :
    {E : Type 0} {A : Type ℓ} {B : Type κ} → Result E A → Result E B → Result E B
m >> k = m >>= λ _. k

-- The `std::io::Error`s that the program makes: an `ErrorKind` with its message, and an errno.
pub data Error : Type 0 where
  invalid_data : String → Error
  invalid_input : String → Error
  not_found : String → Error
  timed_out : String → Error
  already_exists : String → Error
  interrupted : String → Error
  other : String → Error
  raw_os_error : ℕ → Error

module _ {ℓ} {E : Type 0} {A : Type ℓ} where
  -- `Option::ok_or_else` and a fallible call's `map_err`.
  abbrev pub fail_unless : Bool → E → Result E A → Result E A
  fail_unless b e r = if b then r else err e

module _ {E : Type 0} where
  -- `p[i]`
  unfoldable pub byte_at : List ℕ → ℕ → Result E ℕ
  byte_at p i = if ltb i (length p) then ok (get_or p i 0) else panic

  -- `p[i] = v`
  unfoldable pub put_at : List ℕ → ℕ → ℕ → Result E (List ℕ)
  put_at p i v = if ltb i (length p) then ok (set p i v) else panic

  -- `&p[i..j]`
  unfoldable pub slice : List ℕ → ℕ → ℕ → Result E (List ℕ)
  slice p i j = if leb i j && leb j (length p) then ok (take (j - i) (drop i p)) else panic

  pub byte_at-ok : (p : List ℕ) (i : ℕ) → i < length p → byte_at p i ≡ ok (get_or p i 0)
  unfolding byte_at
  byte_at-ok p i h = ground arith

  pub put_at-ok : (p : List ℕ) (i v : ℕ) → i < length p → put_at p i v ≡ ok (set p i v)
  unfolding put_at
  put_at-ok p i v h = ground arith

  pub slice-ok :
      (p : List ℕ) (i j : ℕ) → i ≤ j → j ≤ length p → slice p i j ≡ ok (take (j - i) (drop i p))
  unfolding slice
  slice-ok p i j h k = ground arith

pub length-slice :
    (p : List ℕ) (i j : ℕ) → i ≤ j → j ≤ length p → length (take (j - i) (drop i p)) ≡ j - i
length-slice p i j h k = omega (arith, length-take (j - i) (drop i p), length-drop i p)

-- Total correctness: the code ends, and a value that it returns satisfies `P`.
abbrev pub Post {ℓ} : {E : Type 0} {A : Type ℓ} → (A → Type 0) → Result E A → Type 0
Post P (ok a) = P a
Post P (err e) = Unit
Post P panic = ⊥
Post P stuck = ⊥

module _ {ℓ κ} {E : Type 0} {A : Type ℓ} {B : Type κ} where
  pub Post-bind :
      (P : A → Type 0) (Q : B → Type 0) (m : Result E A) (f : A → Result E B)
      → Post P m
      → ((a : A) → P a → Post Q (f a))
      → Post Q (m >>= f)
  Post-bind P Q (ok a) f h k = k a h
  Post-bind P Q (err e) f h k = tt
  Post-bind P Q panic f h k = absurd h
  Post-bind P Q stuck f h k = absurd h

  -- The rule that keeps the equation of the first step.
  pub Post-and_eq :
      (P : A → Type 0) (Q : B → Type 0) (m : Result E A) (f : A → Result E B)
      → Post P m
      → ((a : A) → P a → m ≡ ok a → Post Q (f a))
      → Post Q (m >>= f)
  Post-and_eq P Q (ok a) f h k = k a h refl
  Post-and_eq P Q (err e) f h k = tt
  Post-and_eq P Q panic f h k = absurd h
  Post-and_eq P Q stuck f h k = absurd h

module _ {ℓ} {E : Type 0} {A : Type ℓ} where
  ok-injective : {a b : A} → ◌≡◌ {A = Result E A} (ok a) (ok b) → a ≡ b
  ok-injective e = cc

  pub Post-map : (P Q : A → Type 0) (m : Result E A) → Post P m → ((a : A) → P a → Q a) → Post Q m
  Post-map P Q (ok a) h k = k a h
  Post-map P Q (err e) h k = tt
  Post-map P Q panic h k = h
  Post-map P Q stuck h k = h

  pub Post-eq_ok : (P : A → Type 0) (m : Result E A) {a : A} → Post P m → m ≡ ok a → P a
  Post-eq_ok P (ok b) h e = subst P (ok-injective e) h
  Post-eq_ok P (err x) h e = cc
  Post-eq_ok P panic h e = cc
  Post-eq_ok P stuck h e = cc

  pub Post-cases :
      (P : A → Type 0) (m : Result E A)
      → Post P m
      → ((a : A) × (m ≡ ok a) × P a) ⊎ ((e : E) × (m ≡ err e))
  Post-cases P (ok a) h = inl (a, refl, h)
  Post-cases P (err e) h = inr (e, refl)
  Post-cases P panic h = absurd h
  Post-cases P stuck h = absurd h
