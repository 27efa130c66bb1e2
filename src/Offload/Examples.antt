-- ===== src/Offload/Examples.antt =====
-- A phone that keeps its settings and files in functions.
use nfqttl.Base.{
  ◌≡◌, refl, sym, arith, ◌∙◌, inl, inr, Bool, true, false, if◌then◌else◌, Bool-cases, List, [], ◌∷◌,
  ◌++◌, Option, none, some,
}
use nfqttl.Base.Text.{Text, codes, text_eq, text_eq_iff, text_eq_refl, trim}
use nfqttl.Offload.{Key, hw, bpf, bpf_tethering, Device, is_there, setting, read, write}
use nfqttl.Offload.Store.{Store, same_key}
use nfqttl.Offload.Journal.{IsSafe}
use nfqttl.Offload.Restored.{applying, restoring, Works, all_called, all_called-IsSafe}

pub record Phone : Type 0 where
  pub value : Key → Text
  pub files : Text → Option Text

abbrev key_of : Text → Key
key_of w =
    if text_eq w (codes "global")
    then hw
    else if text_eq w (codes "connectivity")
    then bpf
    else bpf_tethering

abbrev set_value : Key → Text → Phone → Phone
set_value k v s = record s { value = λ j. if same_key k j then v else s.value j }

abbrev set_file : Text → Option Text → Phone → Phone
set_file f v s = record s { files = λ g. if text_eq f g then v else s.files g }

abbrev execute : List Text → Phone → Bool × Phone
execute (c ∷ verb ∷ space ∷ name ∷ []) s = (true, set_value (key_of space) (codes "null") s)
execute (c ∷ verb ∷ space ∷ name ∷ v ∷ []) s = (true, set_value (key_of space) v s)
execute _ s = (false, s)

abbrev answer : List Text → Phone → Option Text
answer (c ∷ verb ∷ space ∷ name ∷ []) s = some (s.value (key_of space))
answer _ s = none

abbrev pub phone : Device Phone
phone = record {
  output = answer;
  run = execute;
  file = λ f s. s.files f;
  write_file = λ f v s. (true, set_file f (some (trim v)) s);
  remove_file = λ f s. (is_there (s.files f), set_file f none s);
}

written : (k : Key) (v : Text) (s : Phone) → write phone k v s ≡ (true, set_value k v s)
unfolding text_eq
written k v s = elim (Bool-cases (text_eq v (codes "null"))) [
  | inl e ↦ rw e (deleted k ((text_eq_iff v (codes "null")).0 e))
  | inr e ↦ rw e (put k)
]
  where
    deleted :
        (k : Key)
        → v ≡ codes "null"
        → execute (setting (codes "delete") k) s ≡ (true, set_value k v s)
    deleted hw e = rw e refl
    deleted bpf e = rw e refl
    deleted bpf_tethering e = rw e refl

    put : (k : Key) → execute (setting (codes "put") k ++ (v ∷ [])) s ≡ (true, set_value k v s)
    put hw = refl
    put bpf = refl
    put bpf_tethering = refl

read_value : (k : Key) (s : Phone) → read phone k s ≡ some (s.value k)
unfolding text_eq
read_value hw s = refl
read_value bpf s = refl
read_value bpf_tethering s = refl

same_key_refl : (k : Key) → same_key k k ≡ true
same_key_refl hw = refl
same_key_refl bpf = refl
same_key_refl bpf_tethering = refl

unfoldable pub value_of : Key → Phone → Text
value_of k s = s.value k

some_of_same : (v w : Text) → some v ≡ some w → w ≡ v
some_of_same v w h = ground arith

changed : (k : Key) (v : Text) (s : Phone) → value_of k (write phone k v s).1 ≡ v
unfolding value_of
changed k v s = rw (written k v s) (rw (same_key_refl k) refl)

pub phone_store : Store phone value_of
unfolding value_of
phone_store = record {
  honest = λ k v s h. some_of_same (s.value k) v (sym (read_value k s) ∙ h);
  put = λ k v s. inl (changed k v s);
  put_other = λ k j v s h. rw (written k v s) (rw h refl);
  put_file = λ k v f s. rw (written k v s) refl;
  kept = λ f v s h. rw (text_eq_refl f) refl;
  kept_other = λ f g v s h. rw h refl;
  kept_value = λ k f v s. refl;
  gone = λ f s h. rw (text_eq_refl f) refl;
  not_there = λ f s h. rw (text_eq_refl f) refl;
  removable = λ f v s h. rw h refl;
  gone_other = λ f g s h. rw h refl;
  gone_value = λ k f s. refl;
}

pub phone_works : (k : Key) (orig : Text) → Works phone value_of phone_store k orig
unfolding value_of
phone_works k orig = record {
  reads = λ s. read_value k s;
  writes = λ v s. rw (written k v s) refl;
  changes = λ v s. changed k v s;
}

abbrev pub fresh : Phone
fresh = record { value = λ k. codes "0"; files = λ f. none }

all_called-IsSafe_example : IsSafe phone value_of phone_store hw (codes "0") (
    all_called phone value_of phone_store hw
      (codes "0")
      (applying true ∷ restoring ∷ applying true ∷ [])
      fresh)
unfolding value_of
all_called-IsSafe_example =
    all_called-IsSafe phone value_of phone_store hw (codes "0")
      (applying true ∷ restoring ∷ applying true ∷ []) fresh refl refl
