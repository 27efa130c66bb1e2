-- ===== src/Firewall/Kept.antt =====
-- What every command of the tool keeps, the operations of the firewall keep.
use nfqttl.Base.{
  ℕ, zero, suc, Bool, true, false, not, if◌then◌else◌, List, [], ◌∷◌, Option, none, some,
}
use nfqttl.Base.Text.{Text, text_eq}
use nfqttl.Net.{Links}
use nfqttl.Firewall.Run.{andalso, orelse, after}
use nfqttl.Firewall.{
  cleanup, old_jumps4, chains4, old_jumps6, chains6, install6, is_mode_pass, target6, Ipv6Plan,
}
use nfqttl.Firewall.{
  Command, new, flush, delete_chain, append, insert, replace, check, delete, delete_second, Tool,
  forward, hook_of, jump_to, rule_words, other_chain, del_jump_rounds, del_jump, del_jumps,
  flush_all, delete_all, hook_ok, delete_seconds, point, trim_hook, hook_first, activate, fill_from,
  fill, flush_old, installed, install, cleanup_chains,
}

module _ {S : Type 0} (t : Tool S) (P : S → Type 0)
    (kept : (c : Command) (s : S) → P s → P (t.run c s).1) where
  andalso-kept :
      (m : Bool × S) (k : S → Bool × S) → P m.1 → ((s : S) → P s → P (k s).1) → P (andalso m k).1
  andalso-kept (true, s) k h hk = hk s h
  andalso-kept (false, s) k h hk = h

  orelse-kept :
      (m : Bool × S) (k : S → Bool × S) → P m.1 → ((s : S) → P s → P (k s).1) → P (orelse m k).1
  orelse-kept (true, s) k h hk = h
  orelse-kept (false, s) k h hk = hk s h

  after-kept :
      (m : Bool × S) (k : S → Bool × S) → P m.1 → ((s : S) → P s → P (k s).1) → P (after m k).1
  after-kept (b, s) k h hk = hk s h

  del_jump_rounds-kept :
      (n : ℕ) (parent target : Text) (s : S) → P s → P (del_jump_rounds t n parent target s).1
  unfolding del_jump_rounds
  del_jump_rounds-kept zero parent target s h = h
  del_jump_rounds-kept (suc n) parent target s h =
      at (t.run (check parent (jump_to target)) s) (kept (check parent (jump_to target)) s h)
        (λ v j. del_jump_rounds-kept n parent target v j)
    where
      again :
          (u : S)
          → P u
          → ((v : S) → P v → P (del_jump_rounds t n parent target v).1)
          → P
              (andalso
                (t.run (delete parent (jump_to target)) u)
                (del_jump_rounds t n parent target)).1
      again u k rest =
          andalso-kept (t.run (delete parent (jump_to target)) u)
            (del_jump_rounds t n parent target) (kept (delete parent (jump_to target)) u k) rest

      at :
          (m : Bool × S)
          → P m.1
          → ((v : S) → P v → P (del_jump_rounds t n parent target v).1)
          → P
              (orelse
                (not m.0, m.1)
                (λ u.
                  andalso
                    (t.run (delete parent (jump_to target)) u)
                    (del_jump_rounds t n parent target))).1
      at (true, u) k rest = again u k rest
      at (false, u) k rest = k

  del_jumps-kept : (cs : List Text) (s : S) → P s → P (del_jumps t cs s).1
  unfolding del_jumps
  del_jumps-kept [] s h = h
  del_jumps-kept (c ∷ cs) s h =
      andalso-kept (del_jump t forward c s) (del_jumps t cs) (del_jump_rounds-kept 16 forward c s h)
        (λ u k. del_jumps-kept cs u k)

  flush_all-kept : (cs : List Text) (s : S) → P s → P (flush_all t cs s)
  unfolding flush_all
  flush_all-kept [] s h = h
  flush_all-kept (c ∷ cs) s h = flush_all-kept cs (t.run (flush c) s).1 (kept (flush c) s h)

  delete_all-kept : (cs : List Text) (s : S) → P s → P (delete_all t cs s)
  unfolding delete_all
  delete_all-kept [] s h = h
  delete_all-kept (c ∷ cs) s h =
      delete_all-kept cs (t.run (delete_chain c) s).1 (kept (delete_chain c) s h)

  pub cleanup_chains-kept :
      (jumps chains : List Text) (s : S) → P s → P (cleanup_chains t jumps chains s).1
  unfolding cleanup_chains
  cleanup_chains-kept jumps chains s h =
      andalso-kept (del_jumps t jumps s) _ (del_jumps-kept jumps s h)
        (λ u k. delete_all-kept chains (flush_all t chains u) (flush_all-kept chains u k))

  delete_seconds-kept : (n : ℕ) (c : Text) (s : S) → P s → P (delete_seconds t n c s).1
  unfolding delete_seconds
  delete_seconds-kept zero c s h = h
  delete_seconds-kept (suc n) c s h =
      andalso-kept (t.run (delete_second c) s) (delete_seconds t n c) (kept (delete_second c) s h)
        (λ u k. delete_seconds-kept n c u k)

  point-kept : (hook c : Text) (active : Option Text) (s : S) → P s → P (point t hook c active s).1
  unfolding point
  point-kept hook c none s h =
      andalso-kept (t.run (flush hook) s) _ (kept (flush hook) s h)
        (λ u k. kept (append hook (jump_to c)) u k)
  point-kept hook c (some old) s h =
      orelse-kept (t.run (replace hook (jump_to c)) s) _ (kept (replace hook (jump_to c)) s h)
        (λ v j.
          andalso-kept (t.run (flush hook) v) _ (kept (flush hook) v j)
            (λ u k. kept (append hook (jump_to c)) u k))

  hook_first-kept : (v6 : Bool) (s : S) → P s → P (hook_first t v6 s).1
  unfolding hook_first
  hook_first-kept v6 s h = at (hook_ok t v6 s)
    where
      at :
          (b : Bool)
          → P
              (if b
                then (true, s)
                else andalso
                    (del_jump t forward (hook_of v6) s)
                    (t.run (insert forward (jump_to (hook_of v6))))).1
      at true = h
      at false =
          andalso-kept (del_jump t forward (hook_of v6) s) _
            (del_jump_rounds-kept 16 forward (hook_of v6) s h)
            (λ u k. kept (insert forward (jump_to (hook_of v6))) u k)

  activate-kept :
      (v6 : Bool) (c : Text) (active : Option Text) (s : S) → P s → P (activate t v6 c active s).1
  unfolding activate trim_hook
  activate-kept v6 c active s h =
      after-kept (t.run (new (hook_of v6)) s)
        (λ u.
          andalso (point t (hook_of v6) c active u)
            (λ v. andalso (trim_hook t (hook_of v6) v) (hook_first t v6)))
        (kept (new (hook_of v6)) s h)
        (λ u k.
          andalso-kept (point t (hook_of v6) c active u)
            (λ v. andalso (trim_hook t (hook_of v6) v) (hook_first t v6))
            (point-kept (hook_of v6) c active u k)
            (λ v j.
              andalso-kept (trim_hook t (hook_of v6) v) (hook_first t v6)
                (delete_seconds-kept _ (hook_of v6) v j) (λ w i. hook_first-kept v6 w i)))

  fill_from-kept :
      (c : Text) (target : List Text) (i : Text) (up : List Text) (s : S)
      → P s
      → P (fill_from t c target i up s).1
  unfolding fill_from
  fill_from-kept c target i [] s h = h
  fill_from-kept c target i (o ∷ up) s h =
      at (text_eq i o) (λ u k. fill_from-kept c target i up u k)
    where
      at :
          (b : Bool)
          → ((u : S) → P u → P (fill_from t c target i up u).1)
          → P
              (if b
                then fill_from t c target i up s
                else andalso
                    (t.run (append c (rule_words target i o)) s)
                    (fill_from t c target i up)).1
      at true rest = rest s h
      at false rest =
          andalso-kept (t.run (append c (rule_words target i o)) s) (fill_from t c target i up)
            (kept (append c (rule_words target i o)) s h) rest

  fill-kept :
      (c : Text) (target down up : List Text) (s : S) → P s → P (fill t c target down up s).1
  unfolding fill
  fill-kept c target [] up s h = h
  fill-kept c target (i ∷ down) up s h =
      andalso-kept (fill_from t c target i up s) (fill t c target down up)
        (fill_from-kept c target i up s h) (λ u k. fill-kept c target down up u k)

  pub install-kept :
      (v6 : Bool) (target : List Text) (links : Links) (active : Option Text) (s : S)
      → P s
      → P (install t v6 target links active s).2
  unfolding install
  install-kept v6 target links active s h =
      let c = other_chain v6 active in
      ended c active
        (after (t.run (new c) s) (λ u.
          andalso (t.run (flush c) u)
            (λ v. andalso (fill t c target links.down links.up v) (activate t v6 c active))))
        (after-kept (t.run (new c) s)
          (λ u.
            andalso (t.run (flush c) u)
              (λ v. andalso (fill t c target links.down links.up v) (activate t v6 c active)))
          (kept (new c) s h)
          (λ u k.
            andalso-kept (t.run (flush c) u)
              (λ v. andalso (fill t c target links.down links.up v) (activate t v6 c active))
              (kept (flush c) u k)
              (λ v j.
                andalso-kept (fill t c target links.down links.up v) (activate t v6 c active)
                  (fill-kept c target links.down links.up v j)
                  (λ w i. activate-kept v6 c active w i))))
    where
      flushed : (o : Option Text) (u : S) → P u → P (flush_old t o u)
      flushed none u k = k
      flushed (some old) u k = kept (flush old) u k

      ended : (c : Text) (o : Option Text) (m : Bool × S) → P m.1 → P (installed t c o m).2
      ended c o (true, u) k = flushed o u k
      ended c o (false, u) k = k

module _ {S : Type 0} (t4 t6 : Tool S) (P : S → Type 0)
    (kept4 : (c : Command) (s : S) → P s → P (t4.run c s).1)
    (kept6 : (c : Command) (s : S) → P s → P (t6.run c s).1) where
  pub cleanup-kept : (s : S) → P s → P (cleanup t4 (some t6) s).1
  unfolding cleanup
  cleanup-kept s h =
      andalso-kept t4 P kept4 (cleanup_chains t4 old_jumps4 chains4 s)
        (cleanup_chains t6 old_jumps6 chains6)
        (cleanup_chains-kept t4 P kept4 old_jumps4 chains4 s h)
        (λ u k. cleanup_chains-kept t6 P kept6 old_jumps6 chains6 u k)

  pub install6-kept :
      (links : Links) (mode : Ipv6Plan) (hl : ℕ) (a : Option Text) (s : S)
      → P s
      → P (install6 t4 (some t6) links mode hl a s).2
  unfolding install6
  install6-kept links mode hl a s h = at (is_mode_pass mode)
    where
      at :
          (b : Bool)
          → P
              (if b
                then (true, none, (cleanup_chains t6 old_jumps6 chains6 s).1)
                else install t6 true (target6 mode hl) links a s).2
      at true = cleanup_chains-kept t6 P kept6 old_jumps6 chains6 s h
      at false = install-kept t6 P kept6 true (target6 mode hl) links a s h
