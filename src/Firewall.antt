-- ===== src/Firewall.antt =====
-- src/firewall.rs: the rules of the mangle table. The run of `iptables` (or `ip6tables`) is a
-- parameter; its waiting for the lock and the note of its last error are left out.
mod Words
pub mod Kept
pub mod Run
pub mod Laws
pub mod Jumps
pub mod Cleanup
pub mod Cleaned
pub mod Activate
pub mod Fill
pub mod Install
pub mod Frames
pub mod Agree
pub mod Checks
mod Examples
use nfqttl.Base.{
  ℕ, zero, suc, ◌+◌, ◌-◌, ◌%◌, ◌^◌, Bool, true, false, ◌&&◌, not, ltb, ◌==◌, if◌then◌else◌, List,
  [], ◌∷◌, ◌++◌, length, Option, none, some,
}
use nfqttl.Base.Text.{Text, codes, text_eq, texts_eq, some_of, keep_if, starts_with, to_text}
use nfqttl.Net.{Links, join}
use Run.{andalso, orelse, after}
unfoldable pub use Words.*

module _ {S : Type 0} (t : Tool S) where
  -- At most 16 jumps are deleted.
  unfoldable pub del_jump_rounds : ℕ → Text → Text → S → Bool × S
  del_jump_rounds zero parent target s = (false, s)
  del_jump_rounds (suc n) parent target s =
      orelse (absent (t.run (check parent (jump_to target)) s))
        (λ u. andalso (t.run (delete parent (jump_to target)) u) (del_jump_rounds n parent target))
    where
      absent : Bool × S → Bool × S
      absent (b, u) = (not b, u)

  abbrev pub del_jump : Text → Text → S → Bool × S
  del_jump = del_jump_rounds 16

  unfoldable pub del_jumps : List Text → S → Bool × S
  del_jumps [] s = (true, s)
  del_jumps (c ∷ cs) s = andalso (del_jump forward c s) (del_jumps cs)

  -- The results of these commands are ignored.
  unfoldable pub flush_all : List Text → S → S
  flush_all [] s = s
  flush_all (c ∷ cs) s = flush_all cs (t.run (flush c) s).1

  unfoldable pub delete_all : List Text → S → S
  delete_all [] s = s
  delete_all (c ∷ cs) s = delete_all cs (t.run (delete_chain c) s).1

  unfoldable pub hook_ok : Bool → S → Bool
  hook_ok v6 s =
      is_first (codes "-A FORWARD -j " ++ hook_of v6) (keep_if is_rule (t.listed forward s))

  unfoldable pub rules_ok :
      (v6 : Bool)
      → Option Text
      → Links
      → (kernel : Bool) → (workers value : ℕ) → Ipv6Plan
      → S
      → Bool
  rules_ok v6 none links kernel workers value mode s = false
  rules_ok v6 (some c) links kernel workers value mode s =
      hook_ok v6 s
      && (texts_eq (keep_if is_rule (t.listed (hook_of v6) s))
            ((codes "-A " ++ (hook_of v6 ++ (codes " -j " ++ c))) ∷ [])
          && texts_eq (keep_if is_rule (t.listed c s))
              (expected c (expected_target v6 kernel workers value mode) links.down links.up))

  -- `for _ in 1..n`
  unfoldable pub delete_seconds : ℕ → Text → S → Bool × S
  delete_seconds zero c s = (true, s)
  delete_seconds (suc n) c s = andalso (t.run (delete_second c) s) (delete_seconds n c)

  -- The first of `-R` and `-F`, `-A` that the state allows.
  unfoldable pub point : Text → Text → Option Text → S → Bool × S
  point hook c none s = andalso (t.run (flush hook) s) (t.run (append hook (jump_to c)))
  point hook c (some old) s =
      orelse (t.run (replace hook (jump_to c)) s)
        (λ u. andalso (t.run (flush hook) u) (t.run (append hook (jump_to c))))

  unfoldable pub trim_hook : Text → S → Bool × S
  trim_hook hook s = delete_seconds (length (keep_if is_rule (t.listed hook s)) - 1) hook s

  unfoldable pub hook_first : Bool → S → Bool × S
  hook_first v6 s =
      if hook_ok v6 s
      then (true, s)
      else andalso (del_jump forward (hook_of v6) s) (t.run (insert forward (jump_to (hook_of v6))))

  unfoldable pub activate : Bool → Text → Option Text → S → Bool × S
  activate v6 c active s = after (t.run (new (hook_of v6)) s) (λ u.
      andalso (point (hook_of v6) c active u)
        (λ v. andalso (trim_hook (hook_of v6) v) (hook_first v6)))

  -- The rules of the pairs of different interfaces.
  unfoldable pub fill_from : Text → List Text → Text → List Text → S → Bool × S
  fill_from c target i [] s = (true, s)
  fill_from c target i (o ∷ up) s =
      if text_eq i o
      then fill_from c target i up s
      else andalso (t.run (append c (rule_words target i o)) s) (fill_from c target i up)

  unfoldable pub fill : Text → List Text → List Text → List Text → S → Bool × S
  fill c target [] up s = (true, s)
  fill c target (i ∷ down) up s = andalso (fill_from c target i up s) (fill c target down up)

  abbrev pub flush_old : Option Text → S → S
  flush_old none s = s
  flush_old (some old) s = (t.run (flush old) s).1

  -- The new value of `active` comes with the state.
  abbrev pub installed : Text → Option Text → Bool × S → Bool × Option Text × S
  installed c active (false, s) = (false, active, s)
  installed c active (true, s) = (true, some c, flush_old active s)

  -- The common body of `install4` and `install6`, for the words of the target.
  unfoldable pub install : Bool → List Text → Links → Option Text → S → Bool × Option Text × S
  install v6 target links active s =
      let c = other_chain v6 active in
      installed c active (
        after (t.run (new c) s) (λ u.
          andalso (t.run (flush c) u)
            (λ v. andalso (fill c target links.down links.up v) (activate v6 c active))))

  -- The jumps are deleted, then the chains flushed and deleted.
  unfoldable pub cleanup_chains : List Text → List Text → S → Bool × S
  cleanup_chains jumps chains s =
      andalso (del_jumps jumps s) (λ u. (true, delete_all chains (flush_all chains u)))

  -- A rule with the target is tried in a chain of its own; the other results are ignored.
  unfoldable pub probe : Text → List Text → S → Bool × S
  probe p target s =
      let u = (t.run (flush p) (t.run (new p) s).1).1 in
      let (found, v) = t.run (append p (codes "-j" ∷ target)) u in
      (found, (t.run (delete_chain p) (t.run (flush p) v).1).1)

abbrev pub old_jumps4 : List Text
old_jumps4 =
    chain_hook
    ∷ codes "nfqttl_v30h"
    ∷ codes "nfqttl_v30a"
    ∷ codes "nfqttl_v30b"
    ∷ codes "nfqttl_v29a"
    ∷ codes "nfqttl_v29b"
    ∷ codes "nfqttl_fwd"
    ∷ []

abbrev pub chains4 : List Text
chains4 =
    chain_hook
    ∷ chain_a
    ∷ chain_b
    ∷ codes "nfqttl_v30h"
    ∷ codes "nfqttl_v30a"
    ∷ codes "nfqttl_v30b"
    ∷ codes "nfqttl_v29a"
    ∷ codes "nfqttl_v29b"
    ∷ codes "nfqttl_fwd"
    ∷ []

abbrev pub old_jumps6 : List Text
old_jumps6 = chain6_hook ∷ codes "nfqttl6_v30h" ∷ codes "nfqttl6_v30a" ∷ codes "nfqttl6_v30b" ∷ []

abbrev pub chains6 : List Text
chains6 =
    chain6_hook
    ∷ chain6_a
    ∷ chain6_b
    ∷ codes "nfqttl6_v30h"
    ∷ codes "nfqttl6_v30a"
    ∷ codes "nfqttl6_v30b"
    ∷ []

module _ {S : Type 0} (ipt : Tool S) (ip6t : Option (Tool S)) where
  abbrev pub cleanup4 : S → Bool × S
  cleanup4 = cleanup_chains ipt old_jumps4 chains4

  abbrev pub cleanup6_with : Option (Tool S) → S → Bool × S
  cleanup6_with none s = (true, s)
  cleanup6_with (some t) s = cleanup_chains t old_jumps6 chains6 s

  abbrev pub cleanup6 : S → Bool × S
  cleanup6 = cleanup6_with ip6t

  unfoldable pub cleanup : S → Bool × S
  cleanup s = andalso (cleanup4 s) cleanup6

  abbrev pub install4 : Links → Bool → (workers ttl : ℕ) → Option Text → S → Bool × Option Text × S
  install4 links kernel workers ttl = install ipt false (target4 kernel workers ttl) links

  unfoldable pub install6 : Links → Ipv6Plan → ℕ → Option Text → S → Bool × Option Text × S
  install6 links mode hl active s =
      if is_mode_pass mode then (true, none, (cleanup6 s).1) else install6_with ip6t
    where
      install6_with : Option (Tool S) → Bool × Option Text × S
      install6_with none = (false, active, s)
      install6_with (some t) = install t true (target6 mode hl) links active s

  abbrev pub probe_ttl : ℕ → S → Bool × S
  probe_ttl ttl =
      probe ipt (codes "nfqttl_tprobe") (codes "TTL" ∷ codes "--ttl-set" ∷ to_text ttl ∷ [])

  abbrev pub probe_hl_with : Option (Tool S) → ℕ → S → Bool × S
  probe_hl_with none hl s = (false, s)
  probe_hl_with (some t) hl s =
      probe t (codes "nfqttl6_probe") (codes "HL" ∷ codes "--hl-set" ∷ to_text hl ∷ []) s

  abbrev pub probe_hl : ℕ → S → Bool × S
  probe_hl = probe_hl_with ip6t

  unfoldable pub probe_balance : ℕ → S → Bool × S
  probe_balance workers s =
      if ltb workers 2
      then (false, s)
      else probe ipt (codes "nfqttl_qprobe") (target4 false workers 0) s
