-- ===== src/Ctl.antt =====
-- src/ctl.rs, `configure`: how the settings that are asked for go into the lines of the
-- configuration file, and how the file is replaced. The files, and the stop and the start of the
-- daemon, are a parameter here; Control has the stop and the start.

pub mod Keys
pub mod Edited
pub mod Saved
pub mod Control
pub mod Kept
pub mod Stopped
mod Examples
use nfqttl.Base.{
  ℕ, Bool, true, false, ◌&&◌, ◌||◌, not, ◌==◌, in_range, if◌then◌else◌, List, [], ◌∷◌, ◌++◌, map,
  Option, none, some, Result, ok, err, panic, stuck, ◌>>=◌, Error, invalid_input,
}
use nfqttl.Base.Text.{Text, text_eq, every, some_of, trim, lines, split_once}
use nfqttl.Net.{text_leb}
use nfqttl.Config.Validate.{ConfigError, validate}

-- A `BTreeMap` is a list in the order of its keys.
abbrev pub Entries : Type 0
Entries = List (Text × Text)

unfoldable pub get : Text → Entries → Option Text
get k [] = none
get k ((j, v) ∷ es) = if text_eq j k then some v else get k es

unfoldable pub insert : Text → Text → Entries → Entries
insert k v [] = (k, v) ∷ []
insert k v ((j, w) ∷ es) =
    let rest = insert k v es in
    if text_eq j k
    then (j, v) ∷ es
    else if text_leb k j
    then (k, v) ∷ (j, w) ∷ es
    else (j, w) ∷ rest

unfoldable pub remove : Text → Entries → Entries
remove k [] = []
remove k ((j, v) ∷ es) = let rest = remove k es in if text_eq j k then rest else (j, v) ∷ rest

abbrev pub is_there : Option Text → Bool
is_there none = false
is_there (some v) = true

abbrev pub is_key_byte : ℕ → Bool
is_key_byte x = in_range 65 90 x || (x == b'_' || in_range 48 57 x)

abbrev pub is_key : Text → Bool
is_key [] = false
is_key (c ∷ k) = every is_key_byte (c ∷ k)

abbrev pub is_refused : Text → Text → Entries → Bool
is_refused k v es =
    not (is_key k) || (some_of (λ x. x == 10 || (x == 13 || x == 0)) v || is_there (get k es))

abbrev pub entered :
    Option (Text × Text) → Entries → (Entries → Result Error Entries) → Result Error Entries
entered none es rest = err (invalid_input "use KEY=VALUE")
entered (some (k, v)) es rest =
    if is_refused k v es
    then err (invalid_input "invalid or duplicate setting")
    else rest (insert k v es)

-- The arguments of `configure`, after the entries so far.
unfoldable pub parse_from : List Text → Entries → Result Error Entries
parse_from [] es = ok es
parse_from (s ∷ ss) es = entered (split_once b'=' s) es (λ fs. parse_from ss fs)

abbrev pub not_empty : Entries → Result Error Entries
not_empty [] = err (invalid_input "no settings supplied")
not_empty (e ∷ es) = ok (e ∷ es)

unfoldable pub parse_settings : List Text → Result Error Entries
parse_settings ss = do es ← parse_from ss []; not_empty es

abbrev pub line_of : Text × Text → Text
line_of (k, v) = k ++ (b'=' ∷ v)

-- The entry that a line sets, with its key trimmed.
abbrev pub valued : Text → Option Text → Option (Text × Text)
valued k none = none
valued k (some v) = some (k, v)

abbrev pub entry_of : Entries → Option (Text × Text) → Option (Text × Text)
entry_of es none = none
entry_of es (some (k, w)) = valued (trim k) (get (trim k) es)

abbrev pub placed : Text → Option (Text × Text) → List Text → (Text → List Text) → List Text
placed l none rest without = l ∷ rest
placed l (some (k, v)) rest without = line_of (k, v) ∷ without k

-- The lines after the edit: the entries that no line has set come last.
unfoldable pub edit_lines : Entries → List Text → List Text
edit_lines es [] = map line_of es
edit_lines es (l ∷ ls) =
    placed l (entry_of es (split_once b'=' l)) (edit_lines es ls) (λ k. edit_lines (remove k es) ls)

unfoldable pub join_lines : List Text → Text
join_lines [] = []
join_lines (l ∷ ls) = l ++ (10 ∷ join_lines ls)

unfoldable pub edit : Entries → Text → Text
edit es old = join_lines (edit_lines es (lines old))

-- `config_text` is the text of config.conf, `temp_text` that of config.conf.tmp, and `protect_temp`
-- sets its permissions.
pub record Host (S : Type 0) : Type 0 where
  pub config_text : S → Option Text
  pub temp_text : S → Option Text
  pub write_temp : Text → S → Bool × S
  pub protect_temp : S → Bool × S
  pub remove_temp : S → S
  pub is_running : S → Bool
  pub stop : S → Result Error (Unit {0}) × S
  pub start : S → Result Error (Unit {0}) × S
  pub write_backup : Text → S → Bool × S
  pub rename_temp : S → Bool × S

-- Why `configure` fails. An error of the system has no number here.
pub data Refusal : Type 0 where
  io_error : Refusal
  refused : Error → Refusal
  bad_config : ConfigError → Refusal

abbrev pub refusal : {A B : Type 0} → (A → Refusal) → Result A B → Result Refusal B
refusal f (ok u) = ok u
refusal f (err e) = err (f e)
refusal f panic = panic
refusal f stuck = stuck

module _ {S : Type 0} (h : Host S) where
  abbrev pub Saved : Type 0
  Saved = Result Refusal (Unit {0}) × S

  abbrev pub started : Result Error (Unit {0}) × S → Saved
  started (r, s) = (refusal refused r, s)

  abbrev pub renamed : Bool → Bool × S → Saved
  renamed running (false, s) = (err io_error, s)
  renamed running (true, s) = if running then started (h.start s) else (ok tt, s)

  abbrev pub backed : Bool → Bool × S → Saved
  backed running (false, s) = (err io_error, s)
  backed running (true, s) = renamed running (h.rename_temp s)

  abbrev pub stopped : Text → Result Error (Unit {0}) × S → Saved
  stopped old (ok u, s) = backed true (h.write_backup old s)
  stopped old (err e, s) = (err (refused e), s)
  stopped old (panic, s) = (panic, s)
  stopped old (stuck, s) = (stuck, s)

  abbrev pub validated : Text → Result ConfigError (Unit {0}) → S → Saved
  validated old (ok u) s =
      if h.is_running s then stopped old (h.stop s) else backed false (h.write_backup old s)
  validated old (err e) s = (err (bad_config e), h.remove_temp s)
  validated old panic s = (panic, s)
  validated old stuck s = (stuck, s)

  abbrev pub protected : Text → Bool × S → Saved
  protected old (false, s) = (err io_error, s)
  protected old (true, s) = validated old (validate (h.temp_text s)) s

  abbrev pub written : Text → Bool × S → Saved
  written old (false, s) = (err io_error, s)
  written old (true, s) = protected old (h.protect_temp s)

  abbrev pub parsed : Text → Result Error Entries → S → Saved
  parsed old (ok es) s = written old (h.write_temp (edit es old) s)
  parsed old (err e) s = (err (refused e), s)
  parsed old panic s = (panic, s)
  parsed old stuck s = (stuck, s)

  abbrev pub configure_from : List Text → Option Text → S → Saved
  configure_from settings none s = (err io_error, s)
  configure_from settings (some old) s = parsed old (parse_settings settings) s

  unfoldable pub configure : List Text → S → Saved
  configure settings s = configure_from settings (h.config_text s) s
