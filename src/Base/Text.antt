-- ===== src/Base/Text.antt =====
-- Rust's `str` as the list of its code points, and the functions of `str` that the program calls.
use Prim.Native.Nat.{ℕ, zero, suc, ◌+◌, ◌-◌, ◌*◌, ◌/◌, ◌%◌, ◌≤◌, ◌<◌, ◌^◌}
use Prim.Native.Char.{code}
use Prim.Native.String.{String}
use mathlib.Core.Path.{◌≡◌, refl}
use mathlib.Core.Logic.{◌↔◌}
use mathlib.Core.Bool.{Bool, true, false, ◌&&◌, ◌||◌}
use mathlib.Core.List.{List, [], ◌∷◌, ◌++◌, map, reverse}
use mathlib.Core.Option.{Option, none, some}
use native.Mathlib.Omega.{arith}
use mathlib.Core.Logic.{inl, inr}
use nfqttl.Base.Bools.{Bool-cases, ltb, ◌==◌, in_range, if◌then◌else◌}
use nfqttl.Base.Lists.{length}

abbrev pub Text : Type 0
Text = List ℕ

-- A literal. `String` has its own `[]` and `∷`.
abbrev pub codes : String → Text
codes String.[] = []
codes (String.◌∷◌ c s) = code c ∷ codes s

unfoldable pub text_eq : Text → Text → Bool
text_eq [] [] = true
text_eq [] (b ∷ t) = false
text_eq (a ∷ s) [] = false
text_eq (a ∷ s) (b ∷ t) = a == b && text_eq s t

pub text_eq_iff : (s t : Text) → (text_eq s t ≡ true) ↔ (s ≡ t)
unfolding text_eq
text_eq_iff [] [] = ground arith
text_eq_iff [] (b ∷ t) = ground arith
text_eq_iff (a ∷ s) [] = ground arith
text_eq_iff (a ∷ s) (b ∷ t) = ground (arith, text_eq_iff s t)

pub text_eq_refl : (s : Text) → text_eq s s ≡ true
text_eq_refl s = (text_eq_iff s s).1 refl

-- The UTF-8 encoding; `len` counts its bytes.
unfoldable pub utf8 : ℕ → List ℕ
utf8 c =
    if ltb c 0x80
    then c ∷ []
    else if ltb c 0x800
    then (192 + c / 64) ∷ (128 + c % 64) ∷ []
    else if ltb c 0x10000
    then (224 + c / 4096) ∷ (128 + c / 64 % 64) ∷ (128 + c % 64) ∷ []
    else (240 + c / 262144) ∷ (128 + c / 4096 % 64) ∷ (128 + c / 64 % 64) ∷ (128 + c % 64) ∷ []

unfoldable pub bytes : Text → List ℕ
unfolding utf8
bytes [] = []
bytes (c ∷ t) = utf8 c ++ bytes t

abbrev pub len : Text → ℕ
len t = length (bytes t)

unfoldable pub every {ℓ} : {A : Type ℓ} → (A → Bool) → List A → Bool
every p [] = true
every p (x ∷ xs) = p x && every p xs

unfoldable pub some_of {ℓ} : {A : Type ℓ} → (A → Bool) → List A → Bool
some_of p [] = false
some_of p (x ∷ xs) = p x || some_of p xs

-- `contains` on a list of texts.
abbrev pub has_text : List Text → Text → Bool
has_text ts s = some_of (text_eq s) ts

unfoldable pub keep_if {ℓ} : {A : Type ℓ} → (A → Bool) → List A → List A
keep_if p [] = []
keep_if p (x ∷ xs) = let rest = keep_if p xs in if p x then x ∷ rest else rest

-- `char::is_whitespace`: the code points with the property White_Space.
unfoldable pub is_space : ℕ → Bool
is_space c =
    in_range 9 13 c
    || c == 32
    || c == 0x85
    || c == 0xa0
    || c == 0x1680
    || in_range 0x2000 0x200a c
    || c == 0x2028
    || c == 0x2029
    || c == 0x202f
    || c == 0x205f
    || c == 0x3000

unfoldable pub trim_start : Text → Text
unfolding is_space
trim_start [] = []
trim_start (c ∷ t) = elim (is_space c) [ true ↦ trim_start t | false ↦ c ∷ t ]

unfoldable pub trim : Text → Text
unfolding trim_start
trim t = reverse (trim_start (reverse (trim_start t)))

abbrev pub flush : Text → List Text
flush [] = []
flush (c ∷ t) = (c ∷ t) ∷ []

-- `split_whitespace`, with the word that has begun.
unfoldable pub words_from : Text → Text → List Text
unfolding is_space
words_from cur [] = flush cur
words_from cur (c ∷ t) = elim (is_space c) [
  | true ↦ flush cur ++ words_from [] t
  | false ↦ words_from (cur ++ (c ∷ [])) t
]

abbrev pub split_whitespace : Text → List Text
split_whitespace = words_from []

-- A line loses a carriage return before its newline.
unfoldable pub strip_cr : Text → Text
strip_cr [] = []
strip_cr (c ∷ []) = if c == 13 then [] else c ∷ []
strip_cr (c ∷ d ∷ t) = c ∷ strip_cr (d ∷ t)

-- `lines`: a last line with no newline is kept as it is, unless it is empty.
unfoldable pub lines_from : Text → Text → List Text
unfolding strip_cr
lines_from cur [] = flush cur
lines_from cur (c ∷ t) = elim (c == 10) [
  | true ↦ strip_cr cur ∷ lines_from [] t
  | false ↦ lines_from (cur ++ (c ∷ [])) t
]

abbrev pub lines : Text → List Text
lines = lines_from []

unfoldable pub split_once : ℕ → Text → Option (Text × Text)
split_once d [] = none
split_once d (c ∷ t) =
    if c == d
    then some ([], t)
    else elim (split_once d t) [ none ↦ none | some (a, b) ↦ some (c ∷ a, b) ]

unfoldable pub starts_with : Text → Text → Bool
starts_with [] t = true
starts_with (p ∷ ps) [] = false
starts_with (p ∷ ps) (c ∷ t) = p == c && starts_with ps t

unfoldable pub ends_with : Text → Text → Bool
unfolding starts_with
ends_with p t = starts_with (reverse p) (reverse t)

abbrev pub lower : ℕ → ℕ
lower c = if in_range 65 90 c then c + 32 else c

abbrev pub eq_ignore_ascii_case : Text → Text → Bool
eq_ignore_ascii_case s t = text_eq (map lower s) (map lower t)

-- `parse` of an unsigned type with values below `bound`: an optional plus, then digits.
unfoldable pub digits_from : ℕ → ℕ → Text → Option ℕ
digits_from bound acc [] = some acc
digits_from bound acc (c ∷ t) =
    let rest = digits_from bound (acc * 10 + (c - 48)) t in
    if in_range 48 57 c && ltb (acc * 10 + (c - 48)) bound then rest else none

unfoldable pub parse_digits : ℕ → Text → Option ℕ
unfolding digits_from
parse_digits bound [] = none
parse_digits bound (c ∷ t) = digits_from bound 0 (c ∷ t)

unfoldable pub parse_uint : ℕ → Text → Option ℕ
unfolding parse_digits
parse_uint bound [] = none
parse_uint bound (c ∷ t) = if c == b'+' then parse_digits bound t else parse_digits bound (c ∷ t)

-- An `i32`: `negative n` is -n.
pub data Signed : Type 0 where
  positive : ℕ → Signed
  negative : ℕ → Signed

unfoldable pub parse_i32 : Text → Option Signed
unfolding parse_uint
parse_i32 [] = none
parse_i32 (c ∷ t) =
    if c == b'-'
    then elim (parse_digits (2 ^ 31 + 1) t) [ none ↦ none | some n ↦ some (negative n) ]
    else elim (parse_uint (2 ^ 31) (c ∷ t)) [ none ↦ none | some n ↦ some (positive n) ]

digits_from-lt :
    (bound acc n : ℕ) (t : Text) → acc < bound → digits_from bound acc t ≡ some n → n < bound
unfolding digits_from
digits_from-lt bound acc n [] h e = ground arith
digits_from-lt bound acc n (c ∷ t) h e =
    ground (arith, digits_from-lt bound (acc * 10 + (c - 48)) n t)

parse_digits-lt : (bound n : ℕ) (t : Text) → 0 < bound → parse_digits bound t ≡ some n → n < bound
unfolding parse_digits
parse_digits-lt bound n [] h e = cc
parse_digits-lt bound n (c ∷ t) h e = digits_from-lt bound 0 n (c ∷ t) h e

-- What is parsed fits the type.
pub parse_uint-lt : (bound n : ℕ) (t : Text) → 0 < bound → parse_uint bound t ≡ some n → n < bound
unfolding parse_uint
parse_uint-lt bound n [] h e = cc
parse_uint-lt bound n (c ∷ t) h e =
    ground (arith, parse_digits-lt bound n t, parse_digits-lt bound n (c ∷ t))

digits_from-ge : (bound acc n : ℕ) (t : Text) → digits_from bound acc t ≡ some n → acc ≤ n
unfolding digits_from
digits_from-ge bound acc n [] e = ground arith
digits_from-ge bound acc n (c ∷ t) e =
    ground (arith, digits_from-ge bound (acc * 10 + (c - 48)) n t)

digits_from_narrow :
    (wide narrow acc n : ℕ) (t : Text)
    → n < narrow
    → digits_from wide acc t ≡ some n
    → digits_from narrow acc t ≡ some n
unfolding digits_from
digits_from_narrow wide narrow acc n [] h e = e
digits_from_narrow wide narrow acc n (c ∷ t) h e = ground (
  arith,
  digits_from-ge wide (acc * 10 + (c - 48)) n t,
  digits_from_narrow wide narrow (acc * 10 + (c - 48)) n t,
)

pub parse_digits_narrow :
    (wide narrow n : ℕ) (t : Text)
    → n < narrow
    → parse_digits wide t ≡ some n
    → parse_digits narrow t ≡ some n
unfolding parse_digits
parse_digits_narrow wide narrow n [] h e = cc
parse_digits_narrow wide narrow n (c ∷ t) h e = digits_from_narrow wide narrow 0 n (c ∷ t) h e

-- A number that a wide type parses is parsed by every type that it fits.
pub parse_uint_narrow :
    (wide narrow n : ℕ) (t : Text)
    → n < narrow
    → parse_uint wide t ≡ some n
    → parse_uint narrow t ≡ some n
unfolding parse_uint
parse_uint_narrow wide narrow n [] h e = cc
parse_uint_narrow wide narrow n (c ∷ t) h e =
    ground (arith, parse_digits_narrow wide narrow n t, parse_digits_narrow wide narrow n (c ∷ t))

pub parse_i32_of_uint :
    (wide n : ℕ) (t : Text)
    → n < 2 ^ 31
    → parse_uint wide t ≡ some n
    → parse_i32 t ≡ some (positive n)
unfolding parse_i32
parse_i32_of_uint wide n [] h e = unfold parse_uint in cc
parse_i32_of_uint wide n (c ∷ t) h e = elim (Bool-cases (c == b'-')) [
  | inl minus ↦ absurd (no_minus minus)
  | inr plain ↦ rw (plain, parse_uint_narrow wide (2 ^ 31) n (c ∷ t) h e)
]
  where
    no_minus : (c == b'-') ≡ true → ⊥
    no_minus m = unfold parse_uint parse_digits digits_from in ground arith

pub keep_if-every {ℓ} :
    {A : Type ℓ} (p : A → Bool) (xs : List A) → every p xs ≡ true → keep_if p xs ≡ xs
unfolding every keep_if
keep_if-every p [] h = refl
keep_if-every p (x ∷ xs) h = ground (arith, keep_if-every p xs)

-- Two lists with no common text.
pub some_of-has_text :
    (up down : List Text) (s : Text)
    → some_of (has_text up) down ≡ false
    → has_text down s ≡ true
    → has_text up s ≡ false
unfolding some_of
some_of-has_text up [] s h d = cc
some_of-has_text up (t ∷ down) s h d = elim (Bool-cases (text_eq s t)) [
  | inl same ↦ rw ((text_eq_iff s t).0 same) (ground arith)
  | inr differ ↦ some_of-has_text up down s (ground arith) (ground arith)
]

-- Equality of lists of texts.
unfoldable pub texts_eq : List Text → List Text → Bool
texts_eq [] [] = true
texts_eq [] (t ∷ ts) = false
texts_eq (s ∷ ss) [] = false
texts_eq (s ∷ ss) (t ∷ ts) = text_eq s t && texts_eq ss ts

pub texts_eq_refl : (ts : List Text) → texts_eq ts ts ≡ true
unfolding texts_eq
texts_eq_refl [] = refl
texts_eq_refl (t ∷ ts) = rw (text_eq_refl t, texts_eq_refl ts) refl

-- `to_string` of an unsigned number of at most 64 bits, which has at most 20 digits.
unfoldable pub digits_up : ℕ → ℕ → Text → Text
digits_up zero n t = t
digits_up (suc k) n t =
    let rest = digits_up k (n / 10) ((b'0' + n % 10) ∷ t) in
    if ltb n 10 then (b'0' + n) ∷ t else rest

abbrev pub to_text : ℕ → Text
to_text n = digits_up 20 n []
