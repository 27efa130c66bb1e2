-- ===== src/Qos/Journals.antt =====
-- src/qos.rs, `write_journal` and `journals`: the names and the texts of the journal's files.
pub mod Names
pub mod Read
pub mod Order
pub mod Reread
use nfqttl.Base.{
  ℕ, ◌^◌, Bool, true, false, not, ◌==◌, if◌then◌else◌, List, [], ◌∷◌, ◌++◌, Option, none, some,
  Result, ok, err, panic, stuck, ◌>>=◌, Error, invalid_data,
}
use nfqttl.Base.Text.{Text, codes, lines, parse_uint, to_text}
use nfqttl.Config.{valid_iface}
use nfqttl.Qos.{Options, encode, attrs, hex, unhex}
use nfqttl.Qos.Desired.{Wanted, put}
use mathlib.Core.List.{reverse}

unfoldable pub strip_prefix : Text → Text → Option Text
strip_prefix [] t = some t
strip_prefix (p ∷ ps) [] = none
strip_prefix (p ∷ ps) (c ∷ t) = let rest = strip_prefix ps t in if p == c then rest else none

abbrev pub reversed : Option Text → Option Text
reversed none = none
reversed (some t) = some (reverse t)

abbrev pub strip_suffix : Text → Option Text → Option Text
strip_suffix p none = none
strip_suffix p (some t) = reversed (strip_prefix (reverse p) (reverse t))

abbrev pub journal_prefix : Text
journal_prefix = codes "sqm."

abbrev pub journal_suffix : Text
journal_suffix = codes ".owned"

-- The interface of a file in the state directory, if the file is a journal.
abbrev pub iface_of : Text → Option Text
iface_of name = strip_suffix journal_suffix (strip_prefix journal_prefix name)

abbrev pub journal_name : Text → Text
journal_name iface = journal_prefix ++ (iface ++ journal_suffix)

abbrev pub journal_text : ℕ → Options → Text
journal_text index o = to_text index ++ (10 ∷ (hex (encode o) ++ (10 ∷ [])))

abbrev pub with_options : ℕ → List Text → Result Error (ℕ × Options)
with_options index [] = err (invalid_data "short SQM journal")
with_options index (l ∷ ls) = do b ← unhex l; o ← attrs b; ok (index, o)

abbrev pub with_index : Option ℕ → List Text → Result Error (ℕ × Options)
with_index none ls = err (invalid_data "invalid SQM journal index")
with_index (some index) ls = with_options index ls

abbrev pub read_lines : List Text → Result Error (ℕ × Options)
read_lines [] = err (invalid_data "invalid SQM journal index")
read_lines (l ∷ ls) = with_index (parse_uint (2 ^ 32) l) ls

unfoldable pub read_journal : Text → Result Error (ℕ × Options)
read_journal t = read_lines (lines t)

-- The files of the state directory, each with its text if it can be read.
abbrev pub Listing : Type 0
Listing = List (Text × Result Error Text)

abbrev pub add_journal : Bool → Text → Result Error Text → Wanted → Result Error Wanted
add_journal false iface text out = err (invalid_data "invalid SQM journal interface")
add_journal true iface text out = do t ← text; v ← read_journal t; ok (put iface v out)

abbrev pub add_file : Option Text → Result Error Text → Wanted → Result Error Wanted
add_file none text out = ok out
add_file (some iface) text out = add_journal (valid_iface iface) iface text out

unfoldable pub journals_from : Listing → Wanted → Result Error Wanted
journals_from [] out = ok out
journals_from ((name, text) ∷ files) out = do
  saved ← add_file (iface_of name) text out
  journals_from files saved

abbrev pub journals : Listing → Result Error Wanted
journals files = journals_from files []
