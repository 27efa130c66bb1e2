-- ===== src/Qos/Journal.antt =====
-- The hexadecimal text of a journal is read back.
use nfqttl.Base.{
  ℕ, ◌+◌, ◌*◌, ◌/◌, ◌%◌, ◌^◌, ◌≤◌, ◌<◌, ◌≡◌, refl, ap, ◌∙◌, arith, true, false, ◌||◌, not, ltb,
  ◌==◌, List, [], ◌∷◌, length, All, ok, ◌>>=◌, some,
}
use nfqttl.Base.Words.{Bytes, IsBytes, to_le32}
use nfqttl.Base.Text.{Text, bytes, utf8, len}
use nfqttl.Qos.Parse.{Increasing, IsOptions, insert-Increasing, insert-fields}
use nfqttl.Qos.Roundtrip.{attrs-encode, encode-IsBytes}
use nfqttl.Qos.{
  to_le64, cake_words, insert, insert_words, options, encode_into, Options, encode, attrs,
  hex_digit, hex, unhex_digit, from_hex, unhex_pairs, is_ascii, unhex,
}

unhex_digit-hex_digit : (n : ℕ) → n < 16 → unhex_digit (hex_digit n) ≡ some n
unfolding unhex_digit hex_digit
unhex_digit-hex_digit n h = ground arith

pub hex_digit_bounds : (n : ℕ) → n < 16 → (48 ≤ hex_digit n) × (hex_digit n < 128)
unfolding hex_digit
hex_digit_bounds n h = ground arith

from_hex-hex_digit : (n : ℕ) → n < 256 → from_hex (hex_digit (n / 16)) (hex_digit (n % 16)) ≡ some n
unfolding from_hex
from_hex-hex_digit n h =
    let no_plus : (hex_digit (n / 16) == b'+') ≡ false =
      ground (arith, hex_digit_bounds (n / 16) (omega arith)) in
    let whole : n / 16 * 16 + n % 16 ≡ n = omega arith in
    rw
      (
        unhex_digit-hex_digit (n % 16) (omega arith),
        no_plus,
        unhex_digit-hex_digit (n / 16) (omega arith),
      )
      (ap some whole)

unhex_pairs-hex : (bs : Bytes) → IsBytes bs → unhex_pairs (hex bs) ≡ ok bs
unfolding unhex_pairs hex
unhex_pairs-hex [] h = refl
unhex_pairs-hex (b ∷ bs) (hb, h) = rw (from_hex-hex_digit b hb, unhex_pairs-hex bs h) refl

hex-is_ascii : (bs : Bytes) → IsBytes bs → is_ascii (hex bs) ≡ true
unfolding is_ascii hex
hex-is_ascii [] h = refl
hex-is_ascii (b ∷ bs) (hb, h) = ground (
  arith,
  hex_digit_bounds (b / 16) (omega arith),
  hex_digit_bounds (b % 16) (omega arith),
  hex-is_ascii bs h,
)

len_ascii : (t : Text) → is_ascii t ≡ true → len t ≡ length t
unfolding is_ascii bytes utf8
len_ascii [] h = refl
len_ascii (c ∷ t) h = ground (arith, len_ascii t)

length-hex : (bs : Bytes) → length (hex bs) ≡ 2 * length bs
unfolding hex
length-hex [] = refl
length-hex (b ∷ bs) = omega (arith, length-hex bs)

-- At most 1024 bytes are read back from their hexadecimal text.
pub unhex-hex : (bs : Bytes) → IsBytes bs → length bs ≤ 1024 → unhex (hex bs) ≡ ok bs
unfolding unhex
unhex-hex bs h l =
    let size : len (hex bs) ≡ 2 * length bs =
      len_ascii (hex bs) (hex-is_ascii bs h) ∙ length-hex bs in
    let fits : (ltb 2048 (len (hex bs)) || (not (len (hex bs) % 2 == 0) || not (is_ascii (hex bs))))
        ≡ false =
      ground (arith, size, hex-is_ascii bs h) in
    rw fits (unhex_pairs-hex bs h)

insert_words-IsOptions :
    (ws : List (ℕ × ℕ)) (o : Options)
    → All (λ (w : ℕ × ℕ). w.0 < 2 ^ 14) ws
    → IsOptions o
    → IsOptions (insert_words ws o)
unfolding insert_words
insert_words-IsOptions [] o h w = w
insert_words-IsOptions ((k, v) ∷ ws) o (hk, h) w =
    insert_words-IsOptions ws (insert k (to_le32 v) o) h (record {
      increasing = insert-Increasing k (to_le32 v) o w.increasing;
      fields =
          insert-fields k (to_le32 v) o
            (hk, omega arith, (omega arith, (omega arith, (omega arith, (omega arith, tt)))))
            w.fields;
    })

pub options-IsOptions : (kbit flow : ℕ) → IsOptions (options kbit flow)
unfolding options insert Increasing
options-IsOptions kbit flow =
    insert_words-IsOptions (cake_words flow) (insert 2 (to_le64 (kbit * 125)) []) (ground arith)
      (record { increasing = (tt, tt); fields = ground arith })

pub length-encode-options : (kbit flow : ℕ) → length (encode (options kbit flow)) ≡ 140
unfolding options insert insert_words encode_into
length-encode-options kbit flow = refl

-- The CAKE parameters of any rate and flow mode are written to a journal, as the hexadecimal text
-- of their attributes, in a way that they are read back as they were.
pub journal-options :
    (kbit flow : ℕ)
    → (do b ← unhex (hex (encode (options kbit flow))); attrs b) ≡ ok (options kbit flow)
journal-options kbit flow =
    let o = options kbit flow in
    let w = options-IsOptions kbit flow in
    rw
      (unhex-hex (encode o) (encode-IsBytes o w.fields)
        (omega (arith, length-encode-options kbit flow)))
      (attrs-encode o w)
