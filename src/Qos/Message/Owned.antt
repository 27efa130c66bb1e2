-- ===== src/Qos/Message/Owned.antt =====
-- A qdisc that the kernel reports as it was asked for is recognised as the program's own.
use nfqttl.Base.{
  ℕ, ◌+◌, ◌-◌, ◌%◌, ◌^◌, ◌<◌, ◌≡◌, refl, ap, ◌∙◌, arith, true, false, ltb, ==_refl, [], ◌∷◌, ◌++◌,
  length, drop, All, some, ok, slice, slice-ok, Error,
}
use nfqttl.Base.Words.{Bytes, to_le32, read_le32, read_le32-ok, le32-to_le32}
use nfqttl.Base.Text.{codes, text_eq, text_eq_refl}
use nfqttl.Qos.{Options, encode, encode_into}
use nfqttl.Qos.Parse.{Increasing, IsOptions}
use nfqttl.Qos.Roundtrip.{attrs-encode, encode_into-append, encode-IsBytes, take_all}
use nfqttl.Qos.Message.{
  root, own_handle, Qdisc, get, remove, strip_nul, is_utf8_from, decode_qdisc, header, cake_kind,
  message, same_options, owned,
}

same_options_refl : (o : Options) → same_options o o ≡ true
same_options_refl [] = refl
same_options_refl ((k, v) ∷ o) = rw (==_refl k, text_eq_refl v, same_options_refl o) refl

remove-fresh : (o : Options) → All (λ (e : ℕ × Bytes). 1 < e.0) o → remove 1 o ≡ o
unfolding remove
remove-fresh [] h = refl
remove-fresh ((k, v) ∷ o) (b, h) = ground (arith, remove-fresh o h)

-- The attributes of a message that adds CAKE.
abbrev cake_attrs : Options → Options
cake_attrs o = (1, cake_kind) ∷ (2, encode o) ∷ []

message-attrs :
    (flags index handle : ℕ) (o : Options)
    → drop 16 (message 36 flags index handle (some o))
      ≡ drop 16 (header 0 36 flags index handle) ++ encode (cake_attrs o)
unfolding message encode_into
message-attrs flags index handle o =
    ap (λ b. drop 16 (to_le32 (length b % 2 ^ 32) ++ drop 4 b))
      (encode_into-append (header 0 36 flags index handle) (cake_attrs o) refl)

cake_attrs-IsOptions :
    (o : Options) → IsOptions o → length (encode o) + 4 < 2 ^ 16 → IsOptions (cake_attrs o)
unfolding Increasing
cake_attrs-IsOptions o w l = record {
  increasing = ground arith;
  fields =
      ((omega arith, omega arith, ground arith), ((omega arith, l, encode-IsBytes o w.fields), tt));
}

abbrev reported : ℕ → ℕ → Options → Qdisc
reported index handle o = record {
  index = index;
  parent = root;
  handle = handle;
  kind = codes "cake";
  options = o;
}

decode_qdisc-message :
    (flags index handle : ℕ) (o : Options)
    → index < 2 ^ 32
    → handle < 2 ^ 32
    → IsOptions o
    → length (encode o) + 4 < 2 ^ 16
    → decode_qdisc (drop 16 (message 36 flags index handle (some o)))
      ≡ ok (some (reported index handle (remove 1 o)))
unfolding decode_qdisc get strip_nul is_utf8_from text_eq
decode_qdisc-message flags index handle o hi hh w l =
    let e = encode (cake_attrs o) in
    let b : Bytes = drop 16 (header 0 36 flags index handle) ++ e in
    let tail : slice {E = Error} b 20 (length b) ≡ ok e =
      slice-ok {E = Error} b 20 (length b) (omega arith) (omega arith)
      ∙ ap ok (take_all e (length b - 20) (omega arith)) in
    let long : ltb (length b) 20 ≡ false = ground arith in
    let index_is : read_le32 {E = Error} b 4 ≡ ok index =
      read_le32-ok {E = Error} b 4 (omega arith) ∙ ap ok (le32-to_le32 index hi) in
    let handle_is : read_le32 {E = Error} b 8 ≡ ok handle =
      read_le32-ok {E = Error} b 8 (omega arith) ∙ ap ok (le32-to_le32 handle hh) in
    let parent_is : read_le32 {E = Error} b 12 ≡ ok root =
      read_le32-ok {E = Error} b 12 (omega arith) in
    ap decode_qdisc (message-attrs flags index handle o)
    ∙ rw
        (
          long,
          tail,
          attrs-encode (cake_attrs o) (cake_attrs-IsOptions o w l),
          attrs-encode o w,
          index_is,
          parent_is,
          handle_is,
        )
        refl

-- Options with increasing keys from 2 to 14 bits, whose encoding fits one attribute: the message
-- that asks for CAKE with them on an interface, reported back by the kernel byte for byte, is
-- decoded without an error as a qdisc that the program takes for its own with these options.
pub owned-decode_qdisc-message :
    (flags index : ℕ) (o : Options)
    → index < 2 ^ 32
    → IsOptions o
    → All (λ (e : ℕ × Bytes). 1 < e.0) o
    → length (encode o) + 4 < 2 ^ 16
    → (q : Qdisc) × (decode_qdisc (drop 16 (message 36 flags index own_handle (some o)))
        ≡ ok (some q))
      × (owned q index o ≡ true)
unfolding owned text_eq
owned-decode_qdisc-message flags index o hi w a l = (
  reported index own_handle o,
  decode_qdisc-message flags index own_handle o hi (omega arith) w l
      ∙ ap (λ p. ok (some (reported index own_handle p))) (remove-fresh o a),
  rw (==_refl index, same_options_refl o) refl,
)
