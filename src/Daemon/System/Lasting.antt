-- ===== src/Daemon/System/Lasting.antt =====
-- What the daemon does to the phone outside of the firewall, through all rounds of its main loop: the
-- qdiscs that it puts into the kernel, and the offload settings that it changes.
use nfqttl.Base.{ℕ, ◌≡◌, Bool, true, false, List, [], Option, none, some, inl}
use nfqttl.Base.Text.{Text}
use nfqttl.Config.{Config}
use nfqttl.Firewall.{Command, Tool, Ipv6Plan}
use nfqttl.Qos.Message.{Qdisc}
use nfqttl.Qos.Desired.{desired}
use nfqttl.Qos.Reconcile.{Shaper, sync}
use nfqttl.Qos.Reconcile.Kernel.{Kernel, IsCovered}
use nfqttl.Qos.Reconcile.Kept.{KeptByShaper, sync-kept}
use nfqttl.Qos.Reconcile.Synced.{sync-IsSynced, IsSynced-Covered}
use nfqttl.Offload.{Key, owned_file, restore}
use nfqttl.Offload
use nfqttl.Offload.Kept.{KeptByDevice, apply-kept, restore-kept}
use nfqttl.Offload.Store.{Store}
use nfqttl.Offload.Journal.{IsSafe}
use nfqttl.Offload.Restored.{apply-IsSafe, restore-IsSafe, Works, cleared, restore-none}
use nfqttl.Daemon.{EffectiveBackend}
use nfqttl.Daemon.Workers.{Settings, Processes}
use nfqttl.Daemon.Workers.Kept.{KeptByProcesses, stop-kept, start-kept}
use nfqttl.Daemon.Loop.{World, Loop, begin_loop, stopped, finish}
use nfqttl.Daemon.Loop.Keeps.{KeptByWorld, Course, Course-Keeps, begin_loop-Keeps, finish-Keeps}
use nfqttl.Daemon.System.{State, system}
use nfqttl.Daemon.System.Kept.{KeptByParts, system-kept}

module _ {S : Type 0} (t4 t6 : Tool S) (p : Processes S) (x : Settings) (b : Shaper S)
    (d : Offload.Device S) (ifindex : S → Text → Option Text) where
  abbrev pub world : World (State S)
  world = system t4 (some t6) p x b d ifindex

  -- Between the rounds the system may change in any way that keeps it.
  abbrev pub Keeping : (S → Type 0) → State S → State S → Type 0
  Keeping P (ws, s) (vs, t) = P s → P t

  abbrev pub InState : (S → Type 0) → State S → Type 0
  InState P (ws, s) = P s

  module _ (P : S → Type 0) (parts : KeptByParts t4 t6 b d P)
      (processes : KeptByProcesses p P) where
    world-kept : KeptByWorld world (InState P)
    world-kept =
        system-kept t4 t6 p x b d ifindex (λ ws. P) (λ ws. parts)
          (λ ws s h. stop-kept p x P processes ws s h)
          (λ n ws s h. start-kept p x P processes n ws s h)

  -- What keeps every own qdisc in a journal, besides `sync`.
  module _ (view : S → List Qdisc) (file : Text → S → Option Text) (law : Kernel b view file) where
    abbrev pub Covered : S → Type 0
    Covered = IsCovered view file

    pub record CoveredByOthers : Type 0 where
      pub tool4 : (c : Command) (s : S) → Covered s → Covered (t4.run c s).1
      pub tool6 : (c : Command) (s : S) → Covered s → Covered (t6.run c s).1
      pub device : KeptByDevice d Covered
      pub processes : KeptByProcesses p Covered

    module _ (others : CoveredByOthers) where
      parts_covered : KeptByParts t4 t6 b d Covered
      parts_covered = record {
        tool4 = others.tool4;
        tool6 = others.tool6;
        synced = λ index c links s h.
            IsSynced-Covered b view file law (desired index c links) (sync b index c links s)
              (sync-IsSynced b view file law index c links s h);
        applied = λ on s h. apply-kept d Covered others.device on s h;
        restored = λ s h. restore-kept d Covered others.device s h;
      }

      world-Covered : KeptByWorld world (InState Covered)
      world-Covered = world-kept Covered parts_covered others.processes

      -- For a kernel as `reconcile` relies on it, and other parts that leave the qdiscs and their
      -- journals alone: if every own qdisc in the kernel is in a journal at the start, then this is
      -- so after any rounds of the main loop on any inputs, between which the system may change in
      -- any way that keeps it so, and after `finish`.
      pub Course-IsCovered :
          (c : Config) (backend : EffectiveBackend) (v6 : Ipv6Plan) (s : S) (workers now : ℕ)
          (m : Loop (State S))
          → Covered s
          → Course world
              (Keeping Covered)
              c
              backend
              v6
              (begin_loop world c backend v6 ([], s) workers now)
              m
          → Covered m.world.1 × Covered (finish world c backend v6 m).1.1
      Course-IsCovered c backend v6 s workers now m h r =
          let lasting : InState Covered m.world =
            Course-Keeps world (Keeping Covered) c backend v6 (InState Covered) world-Covered
              (λ (ws, s) (vs, t) keep k. keep k) r
              (begin_loop-Keeps world (InState Covered) world-Covered c backend v6 ([], s) workers
                now h) in
          (lasting, finish-Keeps world (InState Covered) world-Covered c backend v6 m lasting)

  module _ (Value : Key → S → Text) (store : Store d Value) (k : Key) (orig : Text) where
    abbrev pub Safe : S → Type 0
    Safe = IsSafe d Value store k orig

    -- What keeps the value of a setting, besides `apply` and `restore`.
    pub record SafeByOthers : Type 0 where
      pub tool4 : (c : Command) (s : S) → Safe s → Safe (t4.run c s).1
      pub tool6 : (c : Command) (s : S) → Safe s → Safe (t6.run c s).1
      pub shaper : KeptByShaper b Safe
      pub processes : KeptByProcesses p Safe

    module _ (others : SafeByOthers) (works : Works d Value store k orig) where
      parts_safe : KeptByParts t4 t6 b d Safe
      parts_safe = record {
        tool4 = others.tool4;
        tool6 = others.tool6;
        synced = λ index c links s h. sync-kept b Safe others.shaper index c links s h;
        applied = λ on s h. apply-IsSafe d Value store k orig on s h;
        restored = λ s h. restore-IsSafe d Value store k orig s h;
      }

      world-Safe : KeptByWorld world (InState Safe)
      world-Safe = world-kept Safe parts_safe others.processes

      restored_value : (s : S) → Safe s → Value k (restore d s) ≡ orig
      restored_value s h =
          cleared d Value store k orig (restore d s) (restore-IsSafe d Value store k orig s h)
            (restore-none d Value store k orig works s h)

      finish-Value :
          (c : Config) (backend : EffectiveBackend) (v6 : Ipv6Plan) (m : Loop (State S))
          → InState Safe m.world
          → Value k (finish world c backend v6 m).1.1 ≡ orig
      unfolding finish
      finish-Value c backend v6 m h = at (world.clean m.world) (world-Safe.clean m.world h)
        where
          at :
              (n : Bool × State S)
              → InState Safe n.1
              → Value k (stopped world c backend v6 n).1.1 ≡ orig
          at (true, u) safe = restored_value (world.stop u).1 (world-Safe.stop u safe)
          at (false, u) safe = restored_value (world.stop u).1 (world-Safe.stop u safe)

      -- For commands that work for a setting, files that can be removed, and other parts that leave
      -- the setting and its journal alone: if at the start the setting has no journal, then through any rounds of the main loop on any
      -- inputs, between which the system may change in any way that keeps its value at the start in
      -- the setting or in the journal, that value is kept so, and after `finish` the setting has it.
      pub Course-restores :
          (c : Config) (backend : EffectiveBackend) (v6 : Ipv6Plan) (s : S) (workers now : ℕ)
          (m : Loop (State S))
          → d.file (owned_file k) s ≡ none
          → Value k s ≡ orig
          → Course world
              (Keeping Safe)
              c
              backend
              v6
              (begin_loop world c backend v6 ([], s) workers now)
              m
          → Safe m.world.1 × (Value k (finish world c backend v6 m).1.1 ≡ orig)
      Course-restores c backend v6 s workers now m o v r =
          let lasting : InState Safe m.world =
            Course-Keeps world (Keeping Safe) c backend v6 (InState Safe) world-Safe
              (λ (ws, s) (vs, t) keep h. keep h) r
              (begin_loop-Keeps world (InState Safe) world-Safe c backend v6 ([], s) workers now
                (inl (o, v))) in
          (lasting, finish-Value c backend v6 m lasting)
