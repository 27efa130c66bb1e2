-- ===== src/Ctl/Stopped.antt =====
-- What `stop` leaves, over the firewall, the shaping and the offload settings together.
use nfqttl.Base.{
  ◌≡◌, refl, Bool, true, false, if◌then◌else◌, Bool-cases, inl, inr, List, Option, none, some,
  Result, ok, err, panic, stuck, Error,
}
use nfqttl.Base.Runs
use nfqttl.Base.Text.{Text, codes, text_eq, some_of, Signed}
use nfqttl.Firewall.{
  Tool, Command, forward, old_jumps4, chains4, old_jumps6, chains6, cleanup_chains, cleanup,
}
use nfqttl.Firewall.Cleanup.{is_among}
use nfqttl.Firewall.Run.{Ends, Ends-andalso, Ends-map}
use nfqttl.Firewall.Laws.{Iptables}
use nfqttl.Qos.Message.{Qdisc}
use nfqttl.Qos.Reconcile.{Shaper}
use nfqttl.Qos.Reconcile
use nfqttl.Qos.Reconcile.Kernel.{Kernel, IsCovered}
use nfqttl.Qos.Reconcile.Kept.{KeptByShaper, cleanup-kept}
use nfqttl.Qos.Reconcile.Synced.{IsClean, cleanup-IsClean}
use nfqttl.Offload.{restore}
use nfqttl.Offload
use nfqttl.Offload.Kept.{KeptByDevice, restore-kept}
use nfqttl.Util.{Processes, owned_pid}
use nfqttl.Ctl.Control.{
  Site, Done, stop, stop_ensured, paused, halted, waited, removed, cleaned, finished, shaped,
  stop_orphans, wait_gone, daemon_of,
}
use nfqttl.Ctl.Kept.{KeptBySite, NoJumps, stop_each-kept, wait_gone-kept, cleanup_chains-NoJumps}

-- What is relied on: a call of one of the parts leaves the others alone.
module _ {S : Type 0} (site : Site S) (p : Processes S) (t4 t6 : Tool S) (b : Shaper S)
    (d : Offload.Device S) (w4 : Iptables t4) (w6 : Iptables t6) (view : S → List Qdisc)
    (file : Text → S → Option Text) (law : Kernel b view file) where
  abbrev pub Jumpless4 : S → Type 0
  Jumpless4 = NoJumps w4.rules old_jumps4

  abbrev pub Jumpless6 : S → Type 0
  Jumpless6 = NoJumps w6.rules old_jumps6

  -- Of the rules, by whether iptables was found, and ip6tables besides.
  abbrev pub Jumpless : Bool → Bool → S → Type 0
  Jumpless false has6 s = Unit {0}
  Jumpless true false s = Jumpless4 s
  Jumpless true true s = Jumpless4 s × Jumpless6 s

  abbrev pub tool6_of : Bool → Option (Tool S)
  tool6_of false = none
  tool6_of true = some t6

  abbrev pub Covered : S → Type 0
  Covered = IsCovered view file

  abbrev pub Clean : S → Type 0
  Clean = IsClean b view file law

  pub record Apart : Type 0 where
    pub site4 : KeptBySite site Jumpless4
    pub site6 : KeptBySite site Jumpless6
    pub site_covered : KeptBySite site Covered
    pub site_clean : KeptBySite site Clean
    pub tool6 : (c : Command) (s : S) → Jumpless4 s → Jumpless4 (t6.run c s).1
    pub covered4 : (c : Command) (s : S) → Covered s → Covered (t4.run c s).1
    pub covered6 : (c : Command) (s : S) → Covered s → Covered (t6.run c s).1
    pub shaper4 : KeptByShaper b Jumpless4
    pub shaper6 : KeptByShaper b Jumpless6
    pub device4 : KeptByDevice d Jumpless4
    pub device6 : KeptByDevice d Jumpless6
    pub device_clean : KeptByDevice d Clean
    pub device_covered : KeptByDevice d Covered

  -- The rules of the tools that were found and the qdiscs of the program are gone, or every own qdisc
  -- is still in a journal.
  abbrev pub IsStopped : Bool → Bool → Done S → Type 0
  IsStopped found has6 (ok u, s) = Jumpless found has6 s × Clean s
  IsStopped found has6 (r, s) = Covered s

  forward_apart : (is_among chains4 forward ≡ false) × (is_among chains6 forward ≡ false)
  unfolding some_of text_eq
  forward_apart = (refl, refl)

  module _ (apart : Apart) where
    -- What keeps the rules of each tool keeps those of the tools that were found.
    Jumpless-kept :
        (s t : S) (found has6 : Bool)
        → (Jumpless4 s → Jumpless4 t)
        → (Jumpless6 s → Jumpless6 t)
        → Jumpless found has6 s
        → Jumpless found has6 t
    Jumpless-kept s t false has6 k4 k6 h = tt
    Jumpless-kept s t true false k4 k6 h = k4 h
    Jumpless-kept s t true true k4 k6 (n4, n6) = (k4 n4, k6 n6)

    cleanup-Ends :
        (has6 : Bool) (s : S)
        → Covered s
        → Ends (λ u. Jumpless true has6 u × Covered u) Covered (cleanup t4 (tool6_of has6) s)
    unfolding cleanup
    cleanup-Ends false s h =
        Ends-andalso (λ u. Jumpless4 u × Covered u) Covered (λ u. Jumpless true false u × Covered u)
          Covered (cleanup_chains t4 old_jumps4 chains4 s) (λ u. (true, u))
          (cleanup_chains-NoJumps t4 w4 Covered apart.covered4 old_jumps4 chains4 s forward_apart.0
            h)
          (λ u h. h) (λ u c. c)
    cleanup-Ends true s h =
        Ends-andalso (λ u. Jumpless4 u × Covered u) Covered (λ u. Jumpless true true u × Covered u)
          Covered (cleanup_chains t4 old_jumps4 chains4 s) (cleanup_chains t6 old_jumps6 chains6)
          (cleanup_chains-NoJumps t4 w4 Covered apart.covered4 old_jumps4 chains4 s forward_apart.0
            h)
          (λ u (n4, c).
            Ends-map (λ v. Jumpless6 v × (Jumpless4 v × Covered v)) (λ v. Jumpless4 v × Covered v)
              (λ u. Jumpless true true u × Covered u) Covered
              (cleanup_chains t6 old_jumps6 chains6 u)
              (cleanup_chains-NoJumps t6 w6 (λ v. Jumpless4 v × Covered v)
                (λ x v (k4, kc). (apart.tool6 x v k4, apart.covered6 x v kc)) old_jumps6 chains6 u
                forward_apart.1 (n4, c))
              (λ v (n6, (k4, kc)). ((k4, n6), kc)) (λ v (k4, kc). kc))
          (λ u c. c)

    orphans-Jumpless :
        (found has6 : Bool) (s : S)
        → Jumpless found has6 s
        → Jumpless found has6 (stop_orphans site p s)
    orphans-Jumpless found has6 s =
        Jumpless-kept s (stop_orphans site p s) found has6
          (λ h. stop_each-kept site p Jumpless4 apart.site4 (site.state_names s) s h)
          (λ h. stop_each-kept site p Jumpless6 apart.site6 (site.state_names s) s h)

    shaped-IsStopped :
        (found has6 : Bool) (m : Result Error (Unit {0}) × S)
        → Jumpless found has6 m.1
        → Runs.Ends (λ _ t. Clean t) Covered m
        → IsStopped found has6 (shaped site p t4 (tool6_of has6) b d m)
    shaped-IsStopped found has6 (ok u, s) n c = (
      Jumpless-kept s _ found has6
          (λ h. apart.site4.written _ _ _ (restore-kept d Jumpless4 apart.device4 s h))
          (λ h. apart.site6.written _ _ _ (restore-kept d Jumpless6 apart.device6 s h)) n,
      apart.site_clean.written _ _ _ (restore-kept d Clean apart.device_clean s c),
    )
    shaped-IsStopped found has6 (err e, s) n c = restore-kept d Covered apart.device_covered s c
    shaped-IsStopped found has6 (panic, s) n c = c
    shaped-IsStopped found has6 (stuck, s) n c = c

    finished-IsStopped :
        (found has6 : Bool) (s : S)
        → Jumpless found has6 s
        → Covered s
        → IsStopped found has6 (finished site p t4 (tool6_of has6) b d s)
    finished-IsStopped found has6 s n c =
        let u = stop_orphans site p s in
        shaped-IsStopped found has6 (Reconcile.cleanup b u)
          (Jumpless-kept u _ found has6 (λ h. cleanup-kept b Jumpless4 apart.shaper4 u h)
            (λ h. cleanup-kept b Jumpless6 apart.shaper6 u h) (orphans-Jumpless found has6 s n))
          (cleanup-IsClean b view file law u
            (stop_each-kept site p Covered apart.site_covered (site.state_names s) s c))

    cleaned-IsStopped :
        (has6 : Bool) (m : Bool × S)
        → Ends (λ u. Jumpless true has6 u × Covered u) Covered m
        → IsStopped true has6 (cleaned site p t4 (tool6_of has6) b d m)
    cleaned-IsStopped has6 (true, s) (n, c) = finished-IsStopped true has6 s n c
    cleaned-IsStopped has6 (false, s) h = h

    -- Without iptables no rule is removed, and the stop goes on.
    found-IsStopped :
        (found has6 : Bool) (s : S)
        → Covered s
        → IsStopped found has6 (
            if found
            then cleaned site p t4 (tool6_of has6) b d (cleanup t4 (tool6_of has6) s)
            else finished site p t4 (tool6_of has6) b d s)
    found-IsStopped true has6 s h = cleaned-IsStopped has6 _ (cleanup-Ends has6 s h)
    found-IsStopped false has6 s h = finished-IsStopped false has6 s tt h

  module _ (apart : Apart) (found has6 : Bool) (usable : (s : S) → site.usable s ≡ found) where
    removed-IsStopped :
        (s : S) → Covered s → IsStopped found has6 (removed site p t4 (tool6_of has6) b d s)
    removed-IsStopped s h = rw (usable s) (found-IsStopped apart found has6 s h)

    halted-IsStopped :
        (o : Option Signed) (s : S)
        → Covered s
        → IsStopped found has6 (halted site p t4 (tool6_of has6) b d o s)
    halted-IsStopped none s h = removed-IsStopped s h
    halted-IsStopped (some pid) s h = at (wait_gone site p 450 pid (site.terminate pid s)) (
        wait_gone-kept site p Covered apart.site_covered 450 pid _
          (apart.site_covered.terminated pid s h))
      where
        at : (u : S) → Covered u → IsStopped found has6 (waited site p t4 (tool6_of has6) b d pid u)
        at u k = elim (Bool-cases (owned_pid p pid (codes "daemon") u)) [
          | inl e ↦ rw e k
          | inr e ↦ rw e (removed-IsStopped u k)
        ]

    paused-IsStopped :
        (m : Bool × S) → Covered m.1 → IsStopped found has6 (paused site p t4 (tool6_of has6) b d m)
    paused-IsStopped (true, s) h = halted-IsStopped (daemon_of site p s) s h
    paused-IsStopped (false, s) h = h

    ensured-IsStopped :
        (m : Bool × S)
        → Covered m.1
        → IsStopped found has6 (stop_ensured site p t4 (tool6_of has6) b d m)
    ensured-IsStopped (true, s) h =
        paused-IsStopped (site.write_paused s) (apart.site_covered.paused s h)
    ensured-IsStopped (false, s) h = h

    -- For iptables, found or not at every look, and ip6tables besides or not, that behave as their
    -- manual says and carry out their checks, parts that leave each other's state alone, and a kernel
    -- in which every own qdisc is in a journal: where `stop` succeeds, no jump from `FORWARD` to a chain
    -- of the program is left for IPv4 if iptables was found, and for IPv6 if ip6tables was found besides
    -- (where iptables was not found no rule is removed), the kernel has no own qdisc and there is no
    -- journal; where it fails, every own qdisc is still in a journal.
    pub stop-IsStopped :
        (s : S) → Covered s → IsStopped found has6 (stop site p t4 (tool6_of has6) b d s)
    unfolding stop
    stop-IsStopped s h = ensured-IsStopped (site.ensure_state s) (apart.site_covered.ensured s h)
