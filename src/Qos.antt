-- ===== src/Qos.antt =====
-- src/qos.rs: the netlink attributes of traffic shaping, the messages made of them, and the
-- hexadecimal journal.
pub mod Parse
pub mod Roundtrip
pub mod Journal
pub mod Message
pub mod Replies
pub mod Desired
pub mod Journals
pub mod Reconcile
mod Examples
use nfqttl.Base.{
  ℕ, zero, suc, ◌+◌, ◌-◌, ◌*◌, ◌/◌, ◌%◌, ◌^◌, Bool, true, false, ◌&&◌, ◌||◌, not, leb, ltb, ◌==◌,
  in_range, if◌then◌else◌, List, [], ◌∷◌, ◌++◌, length, replicate, Option, none, some, Result, ok,
  err, stuck, ◌>>=◌, slice, Error, invalid_data,
}
use nfqttl.Base.Words.{Bytes, to_le16, to_le32, read_le16, align4}
use nfqttl.Base.Text.{Text, codes, bytes, len}

-- A `BTreeMap<u16, Vec<u8>>`, in the order of the keys.
abbrev pub Options : Type 0
Options = List (ℕ × Bytes)

unfoldable pub insert : ℕ → Bytes → Options → Options
insert k v [] = (k, v) ∷ []
insert k v ((j, w) ∷ o) =
    if ltb k j then (k, v) ∷ (j, w) ∷ o else if k == j then (k, v) ∷ o else (j, w) ∷ insert k v o

unfoldable pub has_key : ℕ → Options → Bool
has_key k [] = false
has_key k ((j, w) ∷ o) = j == k || has_key k o

-- `b.resize(align(b.len()), 0)`
abbrev pub pad : Bytes → Bytes
pad b = b ++ replicate (align4 (length b) - length b) 0

abbrev pub attr : Bytes → ℕ → Bytes → Bytes
attr b kind value = pad (b ++ (to_le16 ((length value + 4) % 2 ^ 16) ++ (to_le16 kind ++ value)))

unfoldable pub encode_into : Bytes → Options → Bytes
encode_into b [] = b
encode_into b ((k, v) ∷ o) = encode_into (attr b k v) o

abbrev pub encode : Options → Bytes
encode = encode_into []

abbrev pub to_le64 : ℕ → Bytes
to_le64 n = to_le32 (n % 2 ^ 32) ++ to_le32 (n / 2 ^ 32)

-- The parameters of CAKE that are words of 32 bits.
abbrev pub cake_words : ℕ → List (ℕ × ℕ)
cake_words flow =
    (3, 3)
    ∷ (4, 0)
    ∷ (5, flow)
    ∷ (6, 0)
    ∷ (7, 100000)
    ∷ (8, 5000)
    ∷ (9, 0)
    ∷ (10, 4 * 2 ^ 20)
    ∷ (11, 1)
    ∷ (12, 0)
    ∷ (13, 0)
    ∷ (14, 0)
    ∷ (15, 0)
    ∷ (16, 0)
    ∷ (17, 1)
    ∷ (18, 0)
    ∷ []

unfoldable pub insert_words : List (ℕ × ℕ) → Options → Options
insert_words [] o = o
insert_words ((k, v) ∷ ws) o = insert_words ws (insert k (to_le32 v) o)

-- The rate is in bytes per second.
unfoldable pub options : ℕ → ℕ → Options
options kbit flow = insert_words (cake_words flow) (insert 2 (to_le64 (kbit * 125)) [])

-- The kind and the value of the first attribute, and the bytes after it.
unfoldable pub read_attr : Bytes → Result Error (ℕ × Bytes × Bytes)
read_attr b = if ltb (length b) 4 then err (invalid_data "short netlink attribute") else do
  n ← read_le16 b 0
  kind ← read_le16 b 2
  if ltb n 4 || ltb (length b) (align4 n)
      then err (invalid_data "invalid netlink attribute length")
      else do
        value ← slice b 4 n
        rest ← slice b (align4 n) (length b)
        ok (kind % 2 ^ 14, value, rest)

-- `while !b.is_empty()`, with fuel.
unfoldable pub attrs_from : ℕ → Bytes → Options → Result Error Options
attrs_from fuel [] out = ok out
attrs_from zero (x ∷ b) out = stuck
attrs_from (suc fuel) (x ∷ b) out = do
  (k, value, rest) ← read_attr (x ∷ b)
  if has_key k out
      then err (invalid_data "duplicate netlink attribute")
      else attrs_from fuel rest (insert k value out)

-- Each attribute takes at least 4 bytes.
abbrev pub attrs : Bytes → Result Error Options
attrs b = attrs_from (length b) b []

-- A byte as two lower-case hexadecimal digits.
unfoldable pub hex_digit : ℕ → ℕ
hex_digit n = if ltb n 10 then b'0' + n else b'a' + n - 10

unfoldable pub hex : Bytes → Text
hex [] = []
hex (b ∷ bs) = hex_digit (b / 16) ∷ hex_digit (b % 16) ∷ hex bs

unfoldable pub unhex_digit : ℕ → Option ℕ
unhex_digit c =
    if in_range b'0' b'9' c
    then some (c - b'0')
    else if in_range b'a' b'f' c
    then some (c - b'a' + 10)
    else if in_range b'A' b'F' c
    then some (c - b'A' + 10)
    else none

abbrev pub hex_value : Bool → Option ℕ → Option ℕ → Option ℕ
hex_value plus high none = none
hex_value true high (some low) = some low
hex_value false none (some low) = none
hex_value false (some high) (some low) = some (high * 16 + low)

-- `u8::from_str_radix(…, 16)` of two characters, of which the first may be a plus.
unfoldable pub from_hex : ℕ → ℕ → Option ℕ
from_hex a b = hex_value (a == b'+') (unhex_digit a) (unhex_digit b)

abbrev pub cons_byte : Option ℕ → Result Error Bytes → Result Error Bytes
cons_byte none rest = err (invalid_data "invalid SQM journal")
cons_byte (some n) rest = do bs ← rest; ok (n ∷ bs)

-- The pairs of characters of a text of even length.
unfoldable pub unhex_pairs : Text → Result Error Bytes
unhex_pairs [] = ok []
unhex_pairs (a ∷ []) = err (invalid_data "invalid SQM journal")
unhex_pairs (a ∷ b ∷ s) = cons_byte (from_hex a b) (unhex_pairs s)

unfoldable pub is_ascii : Text → Bool
is_ascii [] = true
is_ascii (c ∷ s) = ltb c 128 && is_ascii s

unfoldable pub unhex : Text → Result Error Bytes
unhex s =
    if ltb 2048 (len s) || (not (len s % 2 == 0) || not (is_ascii s))
    then err (invalid_data "invalid SQM journal")
    else unhex_pairs s
