-- ===== src/Firewall/Cleaned.antt =====
-- `cleanup4` and `cleanup6`, and what the probes leave.
use nfqttl.Base.{◌≡◌, refl, ◌∙◌, ap, arith, false, List, [], ◌∷◌, ◌++◌, All}
use nfqttl.Base.Text.{Text, codes, text_eq, some_of}
use nfqttl.Net.{join}
use nfqttl.Firewall.{
  new, flush, delete_chain, append, Tool, forward, jump_to, del_jumps, flush_all, delete_all,
  cleanup_chains, probe,
}
use nfqttl.Firewall.Run.{Ends, Ends-andalso, Ends-map, Ends-both}
use nfqttl.Firewall.Laws.{has, Same, Changed, Iptables}
use nfqttl.Firewall.Cleanup.{without, is_among, IsSpared, IsSpared-trans, Gone, del_jumps-Ends}

module _ {S : Type 0} (t : Tool S) (w : Iptables t) where
  flush-elsewhere :
      (c d : Text) (s : S) → text_eq c d ≡ false → w.rules d (t.run (flush c) s).1 ≡ w.rules d s
  flush-elsewhere c d s ne =
      Ends-both (λ u. w.rules d u ≡ w.rules d s) _
        (Ends-map (Changed w.rules c [] s) (Same w.rules s) _ _ _ (w.flush_law c s)
          (λ u h. h.elsewhere d ne) (λ u h. h d))

  append-elsewhere :
      (c : Text) (r : List Text) (d : Text) (s : S)
      → text_eq c d ≡ false
      → w.rules d (t.run (append c r) s).1 ≡ w.rules d s
  append-elsewhere c r d s ne =
      Ends-both (λ u. w.rules d u ≡ w.rules d s) _
        (Ends-map (Changed w.rules c (w.rules c s ++ (join r ∷ [])) s) (Same w.rules s) _ _ _
          (w.append_law c r s) (λ u h. h.elsewhere d ne) (λ u h. h d))

  delete_chain-Same : (c : Text) (s : S) → Same w.rules s (t.run (delete_chain c) s).1
  delete_chain-Same c s = Ends-both (Same w.rules s) _ (w.delete_chain_law c s)

  new-Same : (c : Text) (s : S) → Same w.rules s (t.run (new c) s).1
  new-Same c s = Ends-both (Same w.rules s) _ (w.new_law c s)

  flush_all-elsewhere :
      (cs : List Text) (d : Text) (s : S)
      → is_among cs d ≡ false
      → w.rules d (flush_all t cs s) ≡ w.rules d s
  unfolding flush_all some_of
  flush_all-elsewhere [] d s ne = refl
  flush_all-elsewhere (c ∷ cs) d s ne =
      flush_all-elsewhere cs d (t.run (flush c) s).1 (ground (arith, ne))
      ∙ flush-elsewhere c d s (ground (arith, ne))

  delete_all-Same : (cs : List Text) (s : S) → Same w.rules s (delete_all t cs s)
  unfolding delete_all
  delete_all-Same [] s = λ d. refl
  delete_all-Same (c ∷ cs) s =
      λ d. delete_all-Same cs (t.run (delete_chain c) s).1 d ∙ delete_chain-Same c s d

  -- No jump to one of the chains is left.
  pub record IsCleaned (jumps chains : List Text) (s u : S) : Type 0 where
    pub gone : All (λ c. has (join (jump_to c)) (w.rules forward u) ≡ false) jumps
    pub spared : IsSpared t w jumps chains s u

  All-Gone-same :
      (cs : List Text) (s u : S)
      → w.rules forward u ≡ w.rules forward s
      → All (λ c. Gone t w c s) cs
      → All (λ c. Gone t w c u) cs
  All-Gone-same [] s u e h = tt
  All-Gone-same (c ∷ cs) s u e (g, h) =
      (ap (has (join (jump_to c))) e ∙ g, All-Gone-same cs s u e h)

  -- For a tool that behaves as its manual says, whose checks and listings are carried out (so that a
  -- check that fails means that there is no such rule), where `FORWARD` is none of the chains: a
  -- cleanup that succeeds leaves no jump from `FORWARD` to one of the chains. Whether it succeeds or
  -- fails, the other rules of `FORWARD` are as they were, and so are all chains that are not the
  -- program's.
  pub cleanup_chains-IsCleaned :
      (jumps chains : List Text) (s : S)
      → is_among chains forward ≡ false
      → Ends
          (IsCleaned jumps chains s)
          (IsSpared t w jumps chains s)
          (cleanup_chains t jumps chains s)
  unfolding cleanup_chains
  cleanup_chains-IsCleaned jumps chains s apart =
      Ends-andalso _ (IsSpared t w jumps chains s) _ _ (del_jumps t jumps s) _
        (del_jumps-Ends t w jumps chains jumps [] s (λ r e. e) tt)
        (λ u (spared, _, gone).
          let v = delete_all t chains (flush_all t chains u) in
          let same : (d : Text) → is_among chains d ≡ false → w.rules d v ≡ w.rules d u = λ d ne.
            delete_all-Same chains (flush_all t chains u) d ∙ flush_all-elsewhere chains d u ne in
          record {
            gone = All-Gone-same jumps u v (same forward apart) gone;
            spared = IsSpared-trans t w jumps chains s u v spared (record {
              kept = ap (without jumps) (same forward apart);
              foreign = λ d a b. same d b;
            });
          })
        (λ u h. h)

  -- A probe changes the rules of its own chain only.
  pub probe-elsewhere :
      (p : Text) (target : List Text) (s : S) (d : Text)
      → text_eq p d ≡ false
      → w.rules d (probe t p target s).1 ≡ w.rules d s
  unfolding probe
  probe-elsewhere p target s d ne =
      let s1 = (t.run (new p) s).1 in
      let s2 = (t.run (flush p) s1).1 in
      let s3 = (t.run (append p (codes "-j" ∷ target)) s2).1 in
      delete_chain-Same p (t.run (flush p) s3).1 d
      ∙ flush-elsewhere p d s3 ne
      ∙ append-elsewhere p (codes "-j" ∷ target) d s2 ne
      ∙ flush-elsewhere p d s1 ne
      ∙ new-Same p s d
