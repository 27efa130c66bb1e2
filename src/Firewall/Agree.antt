-- ===== src/Firewall/Agree.antt =====
-- An installation, whether it succeeds or fails, and what `rules_ok` says after it.
use nfqttl.Base.{ℕ, ◌≡◌, refl, ◌∙◌, ap, Bool, true, false, List, [], ◌∷◌, ◌++◌, map, some}
use nfqttl.Base.Text.{Text, texts_eq_refl, keep_if}
use nfqttl.Net.{join, Links}
use nfqttl.Firewall.{
  new, flush, Tool, Ipv6Plan, forward, hook_of, jump_to, is_rule, rules_ok, activate, fill,
  other_chain, installed, install, expected, expected_target,
}
use nfqttl.Firewall.Run.{andalso, after, Ends, Ends-andalso, Ends-map}
use nfqttl.Firewall.Laws.{line_of, Same, Changed, Iptables}
use nfqttl.Firewall.Jumps.{others}
use nfqttl.Firewall.Fill.{pairs, Only, fill-Ends, pairs-expected, IsTarget}
use nfqttl.Firewall.Activate.{is_head, hook_jump, hook_ok-is_head, Apart}
use nfqttl.Firewall.Install.{Pointed, activate-Ends}
use nfqttl.Firewall.Frames.{
  Slot, slot_chain, IsFramed, IsInstalled, ActiveSame, IsOutcome, other_chain-Differs,
  Only-IsFramed, Apart-IsFramed, IsFramed-trans, Only-ActiveSame, Apart-ActiveSame,
  ActiveSame-trans, flush_old-Same, slot_chain-OldDiffers,
}

module _ {S : Type 0} (t : Tool S) (w : Iptables t) where
  -- The state before the old chain is flushed.
  abbrev Filled : Bool → List Text → Slot → S → S → Type 0
  Filled v6 rs k s u = IsInstalled t w v6 rs (other_chain v6 (slot_chain v6 k)) s u

  abbrev Failed : Bool → Slot → S → S → Type 0
  Failed v6 k s u = IsFramed t w v6 s u × ActiveSame t w (slot_chain v6 k) s u

  Only-Failed :
      (v6 : Bool) (k : Slot) (s u : S)
      → Only t w (other_chain v6 (slot_chain v6 k)) s u
      → Failed v6 k s u
  Only-Failed v6 k s u h = (Only-IsFramed t w v6 k s u h, Only-ActiveSame t w v6 k s u h)

  Only-trans : (c : Text) (s u v : S) → Only t w c s u → Only t w c u v → Only t w c s v
  Only-trans c s u v h k = λ d ne. k d ne ∙ h d ne

  filled :
      (v6 : Bool) (target : List Text) (links : Links) (k : Slot) (s u : S)
      → Same w.rules s u
      → Ends (Filled v6 (pairs target links.down links.up) k s) (Failed v6 k s) (
          andalso (t.run (flush (other_chain v6 (slot_chain v6 k))) u) (λ v.
            andalso
              (fill t (other_chain v6 (slot_chain v6 k)) target links.down links.up v)
              (activate t v6 (other_chain v6 (slot_chain v6 k)) (slot_chain v6 k))))
  filled v6 target links k s u same =
      let c = other_chain v6 (slot_chain v6 k) in
      let differs = other_chain-Differs t w v6 k in
      Ends-andalso (Changed w.rules c [] u) (Same w.rules u) _ _ _ _ (w.flush_law c u)
        (λ v e.
          let emptied : Only t w c s v = λ d ne. e.elsewhere d ne ∙ same d in
          Ends-andalso (Changed w.rules c (w.rules c v ++ pairs target links.down links.up) v)
            (Only t w c v) _ _ _ _ (fill-Ends t w c target links.down links.up v)
            (λ x g.
              let only = Only-trans c s v x emptied g.elsewhere in
              Ends-map (Pointed t w v6 c x) (Apart t w v6 x) _ _ _
                (activate-Ends t w v6 c (slot_chain v6 k) x)
                (λ y p. record {
                  chain_is =
                      p.apart.elsewhere c differs.hook_c differs.forward_c
                      ∙ g.here
                      ∙ ap (λ rs. rs ++ pairs target links.down links.up) e.here;
                  hook_is = p.hook_is;
                  heads = p.heads;
                  framed =
                      IsFramed-trans t w v6 s x y (Only-IsFramed t w v6 k s x only)
                        (Apart-IsFramed t w v6 x y p.apart);
                })
                (λ y p. (
                  IsFramed-trans t w v6 s x y (Only-IsFramed t w v6 k s x only)
                      (Apart-IsFramed t w v6 x y p),
                  ActiveSame-trans t w (slot_chain v6 k) s x y (Only-ActiveSame t w v6 k s x only)
                      (Apart-ActiveSame t w v6 k x y p),
                )))
            (λ x g. Only-Failed v6 k s x (Only-trans c s v x emptied g)))
        (λ v h. Only-Failed v6 k s v (λ d ne. h d ∙ same d))

  finished :
      (v6 : Bool) (rs : List Text) (k : Slot) (s : S) (m : Bool × S)
      → Ends (Filled v6 rs k s) (Failed v6 k s) m
      → IsOutcome t w v6 rs k s (installed t (other_chain v6 (slot_chain v6 k)) (slot_chain v6 k) m)
  finished v6 rs k s (false, u) h = (refl, h.0, h.1)
  finished v6 rs k s (true, u) h =
      let old = slot_chain-OldDiffers t w v6 k in
      let a = slot_chain v6 k in
      let still = flush_old-Same t w a u in
      (
        refl,
        record {
          chain_is = still (other_chain v6 a) old.from_new ∙ h.chain_is;
          hook_is = still (hook_of v6) old.from_hook ∙ h.hook_is;
          heads = ap (is_head (hook_jump v6)) (still forward old.from_forward) ∙ h.heads;
          framed = record {
            foreign = λ d f. still d (old.from_foreign d f) ∙ h.framed.foreign d f;
            kept = ap (others (hook_jump v6)) (still forward old.from_forward) ∙ h.framed.kept;
          };
        },
      )

  -- For a tool that behaves as its manual says, of which any change may fail, and whose checks and
  -- listings are carried out: an installation fills the chain that is not in use. If it succeeds, that chain has exactly the rules of the pairs of different interfaces, and
  -- `FORWARD` leads to it first and only once. If it fails, `active` and the rules of the chain in
  -- use are as they were. In both cases so are the other chains, and the other rules of `FORWARD`.
  pub install-IsOutcome :
      (v6 : Bool) (target : List Text) (links : Links) (k : Slot) (s : S)
      → IsOutcome t w v6
          (pairs target links.down links.up)
          k
          s
          (install t v6 target links (slot_chain v6 k) s)
  unfolding install
  install-IsOutcome v6 target links k s =
      let c = other_chain v6 (slot_chain v6 k) in
      finished v6 (pairs target links.down links.up) k s _ (made (t.run (new c) s) (w.new_law c s))
    where
      made :
          (m : Bool × S)
          → Ends (Same w.rules s) (Same w.rules s) m
          → Ends (Filled v6 (pairs target links.down links.up) k s) (Failed v6 k s) (
              after m (λ u. andalso (t.run (flush (other_chain v6 (slot_chain v6 k))) u) (λ v.
                andalso
                  (fill t (other_chain v6 (slot_chain v6 k)) target links.down links.up v)
                  (activate t v6 (other_chain v6 (slot_chain v6 k)) (slot_chain v6 k)))))
      made (true, u) same = filled v6 target links k s u same
      made (false, u) same = filled v6 target links k s u same

  pub rules_ok-IsInstalled :
      (v6 kernel : Bool) (workers value : ℕ) (mode : Ipv6Plan) (target : List Text) (links : Links)
      (c : Text) (s u : S)
      → IsTarget (expected_target v6 kernel workers value mode) target
      → IsInstalled t w v6 (pairs target links.down links.up) c s u
      → rules_ok t v6 (some c) links kernel workers value mode u ≡ true
  unfolding rules_ok join
  rules_ok-IsInstalled v6 kernel workers value mode target links c s u same h =
      let text = expected_target v6 kernel workers value mode in
      let hook : keep_if is_rule (t.listed (hook_of v6) u)
          ≡ line_of (hook_of v6) (join (jump_to c)) ∷ [] =
        w.listing_answered (hook_of v6) u ∙ ap (map (line_of (hook_of v6))) h.hook_is in
      let chain : keep_if is_rule (t.listed c u) ≡ expected c text links.down links.up =
        w.listing_answered c u
        ∙ ap (map (line_of c)) h.chain_is
        ∙ pairs-expected c text target links.down links.up same in
      rw
        (
          hook_ok-is_head t w v6 u ∙ h.heads,
          hook,
          chain,
          texts_eq_refl (line_of (hook_of v6) (join (jump_to c)) ∷ []),
          texts_eq_refl (expected c text links.down links.up),
        )
        refl
