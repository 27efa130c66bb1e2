-- ===== src/Util.antt =====
-- src/util.rs: which processes are the program's own, and the last lines of a file. The processes of
-- the system are a parameter.
use nfqttl.Base.{
  ℕ, zero, suc, ◌-◌, Bool, false, not, leb, ◌==◌, if◌then◌else◌, List, [], ◌∷◌, ◌++◌, length, take,
  drop, Option, none, some,
}
use nfqttl.Base.Text.{Text, codes, text_eq, ends_with, lines, Signed, positive, negative, parse_i32}

-- `answers` tells whether signal 0 reaches a process, `exe_of` is its link in /proc, `cmdline` its
-- command line.
pub record Processes (S : Type 0) : Type 0 where
  pub answers : ℕ → S → Bool
  pub own_exe : S → Option Text
  pub exe_of : ℕ → S → Option Text
  pub cmdline : ℕ → S → Option (List ℕ)

abbrev pub deleted_mark : Text
deleted_mark = codes " (deleted)"

-- `trim_end_matches(" (deleted)")`: the mark goes as long as it is there, `n` times at most.
unfoldable pub trim_deleted : ℕ → Text → Text
trim_deleted zero t = t
trim_deleted (suc n) t =
    let rest = trim_deleted n (take (length t - 10) t) in
    if ends_with deleted_mark t then rest else t

abbrev pub without_deleted : Text → Text
without_deleted t = trim_deleted (length t) t

-- `split(|x| *x == 0).nth(1)`: what stands between the first two zeros.
unfoldable pub until_zero : List ℕ → List ℕ
until_zero [] = []
until_zero (x ∷ xs) = if x == 0 then [] else x ∷ until_zero xs

unfoldable pub second_field : List ℕ → Option (List ℕ)
second_field [] = none
second_field (x ∷ xs) = if x == 0 then some (until_zero xs) else second_field xs

abbrev pub is_field : Option (List ℕ) → Text → Bool
is_field none mode = false
is_field (some f) mode = text_eq f mode

abbrev pub is_mode : Option (List ℕ) → Text → Bool
is_mode none mode = false
is_mode (some b) mode = is_field (second_field b) mode

abbrev pub is_same_exe : Option Text → Option Text → Bool
is_same_exe none other = false
is_same_exe (some exe) none = false
is_same_exe (some exe) (some other) = text_eq (without_deleted other) exe

-- `join("\n")`
unfoldable pub join_newline : List Text → Text
join_newline [] = []
join_newline (l ∷ []) = l
join_newline (l ∷ m ∷ ls) = l ++ (10 ∷ join_newline (m ∷ ls))

-- The text of the file, none if it cannot be read.
abbrev pub tail_lines : Option Text → ℕ → Text
tail_lines none n = []
tail_lines (some s) n = join_newline (drop (length (lines s) - n) (lines s))

module _ {S : Type 0} (p : Processes S) where
  abbrev pub pid_alive : Signed → S → Bool
  pid_alive (negative n) s = false
  pid_alive (positive n) s = if leb n 1 then false else p.answers n s

  abbrev pub number : Signed → ℕ
  number (positive n) = n
  number (negative n) = n

  unfoldable pub owned_pid : Signed → Text → S → Bool
  owned_pid pid mode s =
      if not (pid_alive pid s)
      then false
      else if not (is_same_exe (p.own_exe s) (p.exe_of (number pid) s))
      then false
      else is_mode (p.cmdline (number pid) s) mode

  -- The process that a file names, if it is the program's own.
  abbrev pub pid_in : Option Text → Option Signed
  pid_in none = none
  pid_in (some t) = parse_i32 t

  abbrev pub owned_in : Option Signed → Text → S → Option Signed
  owned_in none mode s = none
  owned_in (some pid) mode s = if owned_pid pid mode s then some pid else none
