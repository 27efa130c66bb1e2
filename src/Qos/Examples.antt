-- ===== src/Qos/Examples.antt =====
-- Attributes of shaping, written and read.
use nfqttl.Base.{
  length, ℕ, ◌<◌, ◌≡◌, arith, [], ◌∷◌, drop, All, some, true, ok, Post, Option, false, ◌++◌,
}
use nfqttl.Base.Words.{Bytes}
use nfqttl.Qos.{Options, insert, insert_words, encode, attrs, options}
use nfqttl.Qos.Parse.{Increasing, IsOptions, attrs-IsOptions}
use nfqttl.Qos.Roundtrip.{attrs-encode}
use nfqttl.Qos.Message.{Qdisc, own_handle, decode_qdisc, message, owned}
use nfqttl.Qos.Replies.{replies}
use nfqttl.Qos.Replies.Ends.{replies-Ends}
use nfqttl.Qos.Message.Owned.{owned-decode_qdisc-message}
use nfqttl.Base.Text.{Text, codes}
use nfqttl.Config.{Config, default}
use nfqttl.Net.{Links, active}
use nfqttl.Qos.Desired.{desired, IsSide, desired-IsSide}
use nfqttl.Qos.Journals.{read_journal, journal_text}
use nfqttl.Qos.Journals.Reread.{options-IsSmall, read_journal-journal_text}
use nfqttl.Qos.Journal.{options-IsOptions, length-encode-options}

abbrev two_fields : Options
two_fields = (1, 7 ∷ []) ∷ (2, 1 ∷ 2 ∷ 3 ∷ 4 ∷ []) ∷ []

abbrev cut_short : Bytes
cut_short = 8 ∷ 0 ∷ 1 ∷ 0 ∷ 7 ∷ []

attrs-IsOptions_example : Post IsOptions (attrs cut_short)
attrs-IsOptions_example =
    attrs-IsOptions cut_short
      (omega arith, (omega arith, (omega arith, (omega arith, (omega arith, tt)))))

attrs-encode_example : attrs (encode two_fields) ≡ ok two_fields
unfolding Increasing
attrs-encode_example =
    attrs-encode two_fields (record { increasing = ground arith; fields = ground arith })

read_journal-journal_text_example :
    read_journal (journal_text 7 (options 5000 5)) ≡ ok (7, options 5000 5)
read_journal-journal_text_example =
    read_journal-journal_text 7 (options 5000 5) (options-IsSmall 7 5000 5 (omega arith))

keys_from_two : All (λ (e : ℕ × Bytes). 1 < e.0) (options 5000 5)
unfolding options insert insert_words
keys_from_two = ground arith

owned-decode_qdisc-message_example :
    (q : Qdisc) × (decode_qdisc (drop 16 (message 36 0x605 7 own_handle (some (options 5000 5))))
      ≡ ok (some q))
    × (owned q 7 (options 5000 5) ≡ true)
owned-decode_qdisc-message_example =
    owned-decode_qdisc-message 0x605 7 (options 5000 5) (omega arith) (options-IsOptions 5000 5)
      keys_from_two (omega (arith, length-encode-options 5000 5))

-- A dump's end, cut short after its header.
abbrev bare_end : Bytes
bare_end = 16 ∷ 0 ∷ 0 ∷ 0 ∷ 3 ∷ 0 ∷ 2 ∷ 0 ∷ 1 ∷ 0 ∷ 0 ∷ 0 ∷ 0 ∷ 0 ∷ 0 ∷ 0 ∷ []

replies-Ends_example : Post (λ _. Unit) (replies (length bare_end) true bare_end [])
replies-Ends_example = replies-Ends true bare_end [] (ground arith)

abbrev shaped_up : Config
shaped_up = record default { sqm_up_kbit = 5000; sqm_up_iface = codes "rmnet0" }

abbrev two_links : Links
two_links = record { down = codes "ap0" ∷ []; up = codes "rmnet0" ∷ [] }

abbrev seventh : Text → Option Text
seventh name = some (codes "7" ++ (10 ∷ []))

desired-IsSide_example :
    All
      (λ (e : Text × (ℕ × Options)). IsSide seventh shaped_up two_links e.0 e.1)
      (desired seventh shaped_up two_links)
    × (active two_links ≡ false → desired seventh shaped_up two_links ≡ [])
desired-IsSide_example = desired-IsSide seventh shaped_up two_links
