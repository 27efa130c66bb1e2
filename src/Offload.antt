-- ===== src/Offload.antt =====
-- src/offload.rs: the offload settings of the phone, and the journal of their values. The commands
-- and the state files are a parameter; a file that is there can be read.
pub mod Kept
pub mod Store
pub mod Trimmed
pub mod Journal
pub mod Restored
pub mod Examples
use nfqttl.Base.{
  Bool, true, false, ◌&&◌, ◌||◌, not, if◌then◌else◌, List, [], ◌∷◌, ◌++◌, Option, none, some,
}
use nfqttl.Base.Text.{Text, codes, text_eq}

pub data Key : Type 0 where
  hw bpf bpf_tethering : Key

-- `output` is `util::text`, `run` is `util::ok`, `file` is the trimmed text of a state file.
pub record Device (S : Type 0) : Type 0 where
  pub output : List Text → S → Option Text
  pub run : List Text → S → Bool × S
  pub file : Text → S → Option Text
  pub write_file : Text → Text → S → Bool × S
  pub remove_file : Text → S → Bool × S

abbrev pub key_name : Key → Text
key_name hw = codes "hw"
key_name bpf = codes "bpf"
key_name bpf_tethering = codes "bpf_tethering"

-- The setting that a key stands for, with the verb of the command.
abbrev pub setting : Text → Key → List Text
setting verb hw = codes "settings" ∷ verb ∷ codes "global" ∷ codes "tether_offload_disabled" ∷ []
setting verb bpf =
    codes "device_config" ∷ verb ∷ codes "connectivity" ∷ codes "tether_enable_bpf_offload" ∷ []
setting verb bpf_tethering =
    codes "device_config" ∷ verb ∷ codes "tethering" ∷ codes "tether_enable_bpf_offload" ∷ []

abbrev pub write_words : Key → Text → List Text
write_words key value =
    if text_eq value (codes "null")
    then setting (codes "delete") key
    else setting (codes "put") key ++ (value ∷ [])

abbrev pub is_valid : Key → Text → Bool
is_valid hw v = text_eq v (codes "0") || (text_eq v (codes "1") || text_eq v (codes "null"))
is_valid _ v = text_eq v (codes "true") || (text_eq v (codes "false") || text_eq v (codes "null"))

abbrev pub new_of : Key → Text
new_of hw = codes "1"
new_of _ = codes "false"

abbrev pub before_file : Key → Text
before_file key = codes "offload." ++ (key_name key ++ codes ".before")

abbrev pub owned_file : Key → Text
owned_file key = codes "offload." ++ (key_name key ++ codes ".owned")

abbrev pub is_there : Option Text → Bool
is_there none = false
is_there (some t) = true

abbrev pub is_value : Option Text → Text → Bool
is_value none v = false
is_value (some t) v = text_eq t v

module _ {S : Type 0} (d : Device S) where
  abbrev pub read : Key → S → Option Text
  read key s = d.output (setting (codes "get") key) s

  abbrev pub write : Key → Text → S → Bool × S
  write key value s = d.run (write_words key value) s

  -- The check of the value that was written only logs.
  abbrev pub marked : Key → Bool × S → S
  marked key (false, s) = s
  marked key (true, s) = (write key (new_of key) s).1

  abbrev pub saved : Key → Bool × S → S
  saved key (false, s) = s
  saved key (true, s) = marked key (d.write_file (owned_file key) (new_of key) s)

  abbrev pub replaced : Key → Option Text → S → S
  replaced key none s = s
  replaced key (some old) s =
      if not (is_valid key old)
      then s
      else if text_eq old (new_of key)
      then s
      else saved key (
          if is_there (d.file (owned_file key) s)
          then (true, s)
          else d.write_file (before_file key) old s)

  unfoldable pub apply_key : Key → S → S
  apply_key key s = replaced key (read key s) s

  unfoldable pub apply : Bool → S → S
  apply enabled s =
      if not enabled then s else apply_key bpf_tethering (apply_key bpf (apply_key hw s))

  -- Whether the files could be removed is not looked at.
  abbrev pub forgotten : Key → S → S
  forgotten key s = (d.remove_file (before_file key) (d.remove_file (owned_file key) s).1).1

  abbrev pub put_back : Key → Text → Bool × S → S
  put_back key old (false, s) = s
  put_back key old (true, s) = if is_value (read key s) old then forgotten key s else s

  abbrev pub given_back : Key → Option Text → S → S
  given_back key none s = forgotten key s
  given_back key (some old) s = put_back key old (write key old s)

  abbrev pub compared : Key → Text → Option Text → S → S
  compared key ours none s = s
  compared key ours (some now) s =
      if text_eq now ours then given_back key (d.file (before_file key) s) s else forgotten key s

  abbrev pub released : Key → Option Text → S → S
  released key none s = s
  released key (some ours) s = compared key ours (read key s) s

  unfoldable pub restore_key : Key → S → S
  restore_key key s = released key (d.file (owned_file key) s) s

  unfoldable pub restore : S → S
  restore s = restore_key bpf_tethering (restore_key bpf (restore_key hw s))
