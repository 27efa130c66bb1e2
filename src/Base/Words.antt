-- ===== src/Base/Words.antt =====
-- Bytes and machine words. The module ships for arm64, so native order is little-endian.
use Prim.Native.Nat.{ℕ, ◌+◌, ◌*◌, ◌/◌, ◌%◌, ◌≤◌, ◌<◌, ◌^◌}
use mathlib.Core.Path.{◌≡◌}
use mathlib.Core.List.{List, [], ◌∷◌}
use native.Mathlib.Omega.{arith}
use nfqttl.Base.Lists.{All, All-get_or, length, get_or}
use nfqttl.Base.Results.{Result, ok, byte_at, byte_at-ok, ◌>>=◌}

abbrev pub IsByte : ℕ → Type 0
IsByte b = b < 256

abbrev pub Bytes : Type 0
Bytes = List ℕ

abbrev pub IsBytes : Bytes → Type 0
IsBytes = All IsByte

-- `u16::from_be_bytes`, and the native-order `from_ne_bytes`.
abbrev pub be16 : ℕ → ℕ → ℕ
be16 a b = a * 256 + b

abbrev pub le16 : ℕ → ℕ → ℕ
le16 a b = a + b * 256

abbrev pub be32 : ℕ → ℕ → ℕ → ℕ → ℕ
be32 a b c d = a * 16777216 + b * 65536 + c * 256 + d

abbrev pub le32 : ℕ → ℕ → ℕ → ℕ → ℕ
le32 a b c d = a + b * 256 + c * 65536 + d * 16777216

-- `to_be_bytes` and `to_ne_bytes`.
abbrev pub to_be16 : ℕ → Bytes
to_be16 n = n / 256 % 256 ∷ n % 256 ∷ []

abbrev pub to_le16 : ℕ → Bytes
to_le16 n = n % 256 ∷ n / 256 % 256 ∷ []

abbrev pub to_be32 : ℕ → Bytes
to_be32 n = n / 16777216 % 256 ∷ n / 65536 % 256 ∷ n / 256 % 256 ∷ n % 256 ∷ []

abbrev pub to_le32 : ℕ → Bytes
to_le32 n = n % 256 ∷ n / 256 % 256 ∷ n / 65536 % 256 ∷ n / 16777216 % 256 ∷ []

-- `(n + 3) & !3`: the next multiple of four.
abbrev pub align4 : ℕ → ℕ
align4 n = (n + 3) / 4 * 4

module _ {E : Type 0} where
  abbrev pub read_be16 : Bytes → ℕ → Result E ℕ
  read_be16 p i = do a ← byte_at p i; b ← byte_at p (i + 1); ok (be16 a b)

  abbrev pub read_le16 : Bytes → ℕ → Result E ℕ
  read_le16 p i = do a ← byte_at p i; b ← byte_at p (i + 1); ok (le16 a b)

  abbrev pub read_le32 : Bytes → ℕ → Result E ℕ
  read_le32 p i = do
    a ← byte_at p i
    b ← byte_at p (i + 1)
    c ← byte_at p (i + 2)
    d ← byte_at p (i + 3)
    ok (le32 a b c d)

-- The value that a read in range yields.
abbrev pub le16_at : Bytes → ℕ → ℕ
le16_at p i = le16 (get_or p i 0) (get_or p (i + 1) 0)

abbrev pub be16_at : Bytes → ℕ → ℕ
be16_at p i = be16 (get_or p i 0) (get_or p (i + 1) 0)

abbrev pub le32_at : Bytes → ℕ → ℕ
le32_at p i = le32 (get_or p i 0) (get_or p (i + 1) 0) (get_or p (i + 2) 0) (get_or p (i + 3) 0)

module _ {E : Type 0} where
  pub read_be16-ok :
      (p : Bytes) (i : ℕ) → i + 1 < length p → read_be16 {E = E} p i ≡ ok (be16_at p i)
  read_be16-ok p i h = rw (byte_at-ok p i (omega arith), byte_at-ok p (i + 1) h)

  pub read_le16-ok :
      (p : Bytes) (i : ℕ) → i + 1 < length p → read_le16 {E = E} p i ≡ ok (le16_at p i)
  read_le16-ok p i h = rw (byte_at-ok p i (omega arith), byte_at-ok p (i + 1) h)

  pub read_le32-ok :
      (p : Bytes) (i : ℕ) → i + 3 < length p → read_le32 {E = E} p i ≡ ok (le32_at p i)
  read_le32-ok p i h = rw (
    byte_at-ok p i (omega arith),
    byte_at-ok p (i + 1) (omega arith),
    byte_at-ok p (i + 2) (omega arith),
    byte_at-ok p (i + 3) h,
  )

pub align4_bounds : (n : ℕ) → (n ≤ align4 n) × (align4 n < n + 4) × (align4 n % 4 ≡ 0)
align4_bounds n = omega arith

-- A u16 or a u32 is read back from its bytes.
pub le16-to_le16 : (n : ℕ) → n < 2 ^ 16 → le16 (n % 256) (n / 256 % 256) ≡ n
le16-to_le16 n h = omega arith

pub be16-to_be16 : (n : ℕ) → n < 2 ^ 16 → be16 (n / 256 % 256) (n % 256) ≡ n
be16-to_be16 n h = omega arith

pub le32-to_le32 :
    (n : ℕ) → n < 2 ^ 32 → le32 (n % 256) (n / 256 % 256) (n / 65536 % 256) (n / 16777216 % 256) ≡ n
le32-to_le32 n h = omega arith

pub get_or-IsByte : (p : Bytes) (i : ℕ) → IsBytes p → get_or p i 0 < 256
get_or-IsByte p i h = All-get_or IsByte p i 0 h (omega arith)

pub be16_at-lt : (p : Bytes) (i : ℕ) → IsBytes p → be16_at p i < 65536
be16_at-lt p i h = omega (arith, get_or-IsByte p i h, get_or-IsByte p (i + 1) h)

pub le16_at-lt : (p : Bytes) (i : ℕ) → IsBytes p → le16_at p i < 65536
le16_at-lt p i h = omega (arith, get_or-IsByte p i h, get_or-IsByte p (i + 1) h)
