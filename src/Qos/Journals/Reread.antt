-- ===== src/Qos/Journals/Reread.antt =====
-- The text of a journal is read back.
use nfqttl.Base.{ℕ, ◌/◌, ◌%◌, ◌^◌, ◌≤◌, ◌<◌, ◌≡◌, refl, arith, true, [], ◌∷◌, length, ok}
use nfqttl.Base.Words.{Bytes, IsBytes}
use nfqttl.Base.Text.{every, to_text}
use nfqttl.Base.Numerals.{parse_uint-to_text}
use nfqttl.Base.Lines.{is_plain, lines_of_two, to_text-plain}
use nfqttl.Qos.{Options, encode, hex, options}
use nfqttl.Qos.Parse.{IsOptions}
use nfqttl.Qos.Roundtrip.{attrs-encode, encode-IsBytes}
use nfqttl.Qos.Journal.{unhex-hex, hex_digit_bounds, options-IsOptions, length-encode-options}
use nfqttl.Qos.Journals.{read_journal, journal_text}

-- An index of 32 bits, and options whose attributes take at most 1024 bytes.
pub record IsSmall (index : ℕ) (o : Options) : Type 0 where
  pub index_bound : index < 2 ^ 32
  pub shape : IsOptions o
  pub size : length (encode o) ≤ 1024

pub options-IsSmall : (index kbit flow : ℕ) → index < 2 ^ 32 → IsSmall index (options kbit flow)
options-IsSmall index kbit flow h = record {
  index_bound = h;
  shape = options-IsOptions kbit flow;
  size = omega (arith, length-encode-options kbit flow);
}

hex-plain : (bs : Bytes) → IsBytes bs → every is_plain (hex bs) ≡ true
unfolding every hex
hex-plain [] h = refl
hex-plain (b ∷ bs) (hb, h) = ground (
  arith,
  hex_digit_bounds (b / 16) (omega arith),
  hex_digit_bounds (b % 16) (omega arith),
  hex-plain bs h,
)

-- The journal of an index of 32 bits and of options of at most 1024 bytes, which keep the order of
-- their keys and fit their fields, is read back as it was written.
pub read_journal-journal_text :
    (index : ℕ) (o : Options)
    → IsSmall index o
    → read_journal (journal_text index o) ≡ ok (index, o)
unfolding read_journal
read_journal-journal_text index o h =
    let two =
      lines_of_two (to_text index) (hex (encode o)) (to_text-plain index)
        (hex-plain (encode o) (encode-IsBytes o h.shape.fields)) in
    rw
      (
        two,
        parse_uint-to_text (2 ^ 32) index h.index_bound (omega arith),
        unhex-hex (encode o) (encode-IsBytes o h.shape.fields) h.size,
        attrs-encode o h.shape,
      )
      refl
