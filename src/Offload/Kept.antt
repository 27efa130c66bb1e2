-- ===== src/Offload/Kept.antt =====
-- What the commands and the changes of files keep, `apply` and `restore` keep.
use nfqttl.Base.{Bool, true, false, not, if◌then◌else◌, List, Option, none, some}
use nfqttl.Base.Text.{Text, text_eq}
use nfqttl.Offload.{
  Device, Key, hw, bpf, bpf_tethering, owned_file, before_file, write_words, read, write, is_value,
  forgotten, put_back, given_back, compared, released, restore_key, restore, apply, apply_key,
  replaced, saved, marked, new_of, is_valid, is_there,
}

pub record KeptByDevice {S : Type 0} (d : Device S) (P : S → Type 0) : Type 0 where
  pub run : (words : List Text) (s : S) → P s → P (d.run words s).1
  pub write_file : (name value : Text) (s : S) → P s → P (d.write_file name value s).1
  pub remove_file : (name : Text) (s : S) → P s → P (d.remove_file name s).1

module _ {S : Type 0} (d : Device S) (P : S → Type 0) (kept : KeptByDevice d P) where
  forgotten-kept : (k : Key) (s : S) → P s → P (forgotten d k s)
  forgotten-kept k s h = kept.remove_file (before_file k) _ (kept.remove_file (owned_file k) s h)

  either-kept : (b : Bool) (s t : S) → P s → P t → P (if b then s else t)
  either-kept true s t h k = h
  either-kept false s t h k = k

  put_back-kept : (k : Key) (old : Text) (m : Bool × S) → P m.1 → P (put_back d k old m)
  put_back-kept k old (false, s) h = h
  put_back-kept k old (true, s) h =
      either-kept (is_value (read d k s) old) (forgotten d k s) s (forgotten-kept k s h) h

  given_back-kept : (k : Key) (o : Option Text) (s : S) → P s → P (given_back d k o s)
  given_back-kept k none s h = forgotten-kept k s h
  given_back-kept k (some old) s h =
      put_back-kept k old (write d k old s) (kept.run (write_words k old) s h)

  compared-kept :
      (k : Key) (ours : Text) (o : Option Text) (s : S) → P s → P (compared d k ours o s)
  compared-kept k ours none s h = h
  compared-kept k ours (some now) s h =
      either-kept (text_eq now ours) _ _ (given_back-kept k (d.file (before_file k) s) s h)
        (forgotten-kept k s h)

  released-kept : (k : Key) (o : Option Text) (s : S) → P s → P (released d k o s)
  released-kept k none s h = h
  released-kept k (some ours) s h = compared-kept k ours (read d k s) s h

  restore_key-kept : (k : Key) (s : S) → P s → P (restore_key d k s)
  unfolding restore_key
  restore_key-kept k s h = released-kept k (d.file (owned_file k) s) s h

  pub restore-kept : (s : S) → P s → P (restore d s)
  unfolding restore
  restore-kept s h =
      restore_key-kept bpf_tethering _ (restore_key-kept bpf _ (restore_key-kept hw s h))

  marked-kept : (k : Key) (m : Bool × S) → P m.1 → P (marked d k m)
  marked-kept k (false, s) h = h
  marked-kept k (true, s) h = kept.run (write_words k (new_of k)) s h

  saved-kept : (k : Key) (m : Bool × S) → P m.1 → P (saved d k m)
  saved-kept k (false, s) h = h
  saved-kept k (true, s) h =
      marked-kept k (d.write_file (owned_file k) (new_of k) s)
        (kept.write_file (owned_file k) (new_of k) s h)

  replaced-kept : (k : Key) (o : Option Text) (s : S) → P s → P (replaced d k o s)
  replaced-kept k none s h = h
  replaced-kept k (some old) s h =
      either-kept (not (is_valid k old)) s _ h
        (either-kept (text_eq old (new_of k)) s _ h (at (is_there (d.file (owned_file k) s))))
    where
      at : (x : Bool) → P (saved d k (if x then (true, s) else d.write_file (before_file k) old s))
      at true = saved-kept k (true, s) h
      at false = saved-kept k _ (kept.write_file (before_file k) old s h)

  apply_key-kept : (k : Key) (s : S) → P s → P (apply_key d k s)
  unfolding apply_key
  apply_key-kept k s h = replaced-kept k (read d k s) s h

  pub apply-kept : (enabled : Bool) (s : S) → P s → P (apply d enabled s)
  unfolding apply
  apply-kept enabled s h =
      either-kept (not enabled) s _ h
        (apply_key-kept bpf_tethering _ (apply_key-kept bpf _ (apply_key-kept hw s h)))
