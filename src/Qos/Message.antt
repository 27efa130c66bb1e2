-- ===== src/Qos/Message.antt =====
-- The messages about queueing disciplines of src/qos.rs, and how one is decoded.
pub mod Owned
use nfqttl.Base.{
  ℕ, zero, suc, ◌+◌, ◌*◌, ◌%◌, ◌^◌, Bool, true, false, ◌&&◌, ◌||◌, ltb, leb, ◌==◌, in_range,
  if◌then◌else◌, List, [], ◌∷◌, ◌++◌, length, drop, Option, none, some, Result, ok, err, ◌>>=◌,
  slice, Error, invalid_data,
}
use nfqttl.Base.Words.{Bytes, to_le16, to_le32, read_le32}
use nfqttl.Base.Text.{Text, codes, text_eq, has_text}
use nfqttl.Qos.{Options, attr, encode, attrs}

abbrev pub root : ℕ
root = 0xffffffff

abbrev pub own_handle : ℕ
own_handle = 0x7e100000

abbrev pub seq : ℕ
seq = 1

-- The kind is a `String`, kept as its UTF-8 bytes.
pub record Qdisc : Type 0 where
  pub index : ℕ
  pub parent : ℕ
  pub handle : ℕ
  pub kind : Bytes
  pub options : Options

unfoldable pub get : ℕ → Options → Option Bytes
get k [] = none
get k ((j, v) ∷ o) = if j == k then some v else get k o

unfoldable pub remove : ℕ → Options → Options
remove k [] = []
remove k ((j, v) ∷ o) = if j == k then o else (j, v) ∷ remove k o

-- `strip_suffix(&[0]).unwrap_or(…)`
unfoldable pub strip_nul : Bytes → Bytes
strip_nul [] = []
strip_nul (a ∷ []) = if a == 0 then [] else a ∷ []
strip_nul (a ∷ b ∷ t) = a ∷ strip_nul (b ∷ t)

-- How many bytes follow a lead byte of UTF-8, and the range of the first of them.
unfoldable pub lead : ℕ → Option (ℕ × ℕ × ℕ)
lead a =
    if ltb a 0x80
    then some (0, 0x80, 0xbf)
    else if in_range 0xc2 0xdf a
    then some (1, 0x80, 0xbf)
    else if a == 0xe0
    then some (2, 0xa0, 0xbf)
    else if a == 0xed
    then some (2, 0x80, 0x9f)
    else if in_range 0xe1 0xef a
    then some (2, 0x80, 0xbf)
    else if a == 0xf0
    then some (3, 0x90, 0xbf)
    else if in_range 0xf1 0xf3 a
    then some (3, 0x80, 0xbf)
    else if a == 0xf4
    then some (3, 0x80, 0x8f)
    else none

unfoldable pub is_utf8_from : ℕ → ℕ → ℕ → Bytes → Bool
unfolding lead
is_utf8_from zero lo hi [] = true
is_utf8_from (suc n) lo hi [] = false
is_utf8_from zero lo hi (a ∷ t) = elim (lead a) [
  | none ↦ false
  | some (n, l, h) ↦ is_utf8_from n l h t
]
is_utf8_from (suc n) lo hi (a ∷ t) = in_range lo hi a && is_utf8_from n 0x80 0xbf t

abbrev pub is_utf8 : Bytes → Bool
is_utf8 = is_utf8_from 0 0x80 0xbf

abbrev pub required : Option Bytes → Error → Result Error Bytes
required none e = err e
required (some v) e = ok v

abbrev pub options_of : Bytes → Options → Result Error Options
options_of kind a =
    if text_eq kind (codes "cake")
    then (do v ← required (get 2 a) (invalid_data "CAKE options missing"); attrs v)
    else ok []

unfoldable pub decode_qdisc : Bytes → Result Error (Option Qdisc)
decode_qdisc b = if ltb (length b) 20 then err (invalid_data "short tcmsg") else do
  tail ← slice b 20 (length b)
  a ← attrs tail
  kind ← required (get 1 a) (invalid_data "qdisc kind missing")
  if is_utf8 (strip_nul kind)
      then (do
        o ← options_of (strip_nul kind) a
        index ← read_le32 b 4
        parent ← read_le32 b 12
        handle ← read_le32 b 8
        ok (
            some (record {
              index = index;
              parent = parent;
              handle = handle;
              kind = strip_nul kind;
              options = remove 1 o;
            })))
      else err (invalid_data "invalid qdisc kind")

-- The 36 bytes of the two headers, after the writes at their fixed places.
abbrev pub header : ℕ → ℕ → ℕ → ℕ → ℕ → Bytes
header n ty flags index handle =
    to_le32 n
    ++ (to_le16 ty
        ++ (to_le16 flags
            ++ (to_le32 seq
                ++ (0 ∷ 0 ∷ 0 ∷ 0 ∷ 0 ∷ 0 ∷ 0 ∷ 0 ∷ []
                    ++ (to_le32 index
                        ++ (to_le32 handle
                            ++ (to_le32 (if ty == 38 then 0 else root)
                                ++ (0 ∷ 0 ∷ 0 ∷ 0 ∷ []))))))))

abbrev pub cake_kind : Bytes
cake_kind = codes "cake" ++ (0 ∷ [])

abbrev pub with_options : Bytes → Option Options → Bytes
with_options b none = b
with_options b (some o) = attr (attr b 1 cake_kind) 2 (encode o)

-- The length is written at the front at last.
unfoldable pub message : ℕ → ℕ → ℕ → ℕ → Option Options → Bytes
message ty flags index handle o =
    let b = with_options (header 0 ty flags index handle) o in
    to_le32 (length b % 2 ^ 32) ++ drop 4 b

abbrev pub same_options : Options → Options → Bool
same_options [] [] = true
same_options [] (e ∷ p) = false
same_options (e ∷ o) [] = false
same_options ((k, v) ∷ o) ((j, w) ∷ p) = (k == j && text_eq v w) && same_options o p

unfoldable pub owned : Qdisc → ℕ → Options → Bool
owned q index o =
    q.index == index
    && (q.parent == root
        && (q.handle == own_handle && (text_eq q.kind (codes "cake") && same_options q.options o)))

abbrev pub builtin : List Text
builtin = codes "noqueue" ∷ codes "pfifo_fast" ∷ codes "fq" ∷ codes "fq_codel" ∷ codes "mq" ∷ []

unfoldable pub replaceable : Qdisc → Bool
replaceable q = q.handle == 0 && has_text builtin q.kind
