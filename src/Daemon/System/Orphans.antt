-- ===== src/Daemon/System/Orphans.antt =====
-- No worker runs that the daemon does not know of, through all rounds of its main loop.
use nfqttl.Base.{ℕ, ◌≡◌, subst, Bool, true, false, List, [], Option, some}
use nfqttl.Base.Text.{Text, some_of}
use nfqttl.Config.{Config}
use nfqttl.Firewall.{Command, Tool, Ipv6Plan}
use nfqttl.Qos.{Options}
use nfqttl.Qos.Reconcile.{Shaper}
use nfqttl.Qos.Reconcile.Kept.{KeptByShaper, sync-kept}
use nfqttl.Offload.Kept.{KeptByDevice, apply-kept, restore-kept}
use nfqttl.Offload
use nfqttl.Daemon.{EffectiveBackend}
use nfqttl.Daemon.Workers.{Worker, Settings, Processes}
use nfqttl.Daemon.Workers.Orphans.{has_pid, Children, Covers, stop-Covers, start-IsCovered}
use nfqttl.Daemon.Loop.{World, Loop, begin_loop, stopped, finish}
use nfqttl.Daemon.Loop.Keeps.{KeptByWorld, Course, Course-Keeps, begin_loop-Keeps}
use nfqttl.Daemon.System.{State, system}
use nfqttl.Daemon.System.Kept.{KeptByParts, system-kept}

-- The calls of the firewall, the shaping and the offload settings let no child start to live.
pub record StartsNone {S : Type 0} (t4 t6 : Tool S) (b : Shaper S) (d : Offload.Device S)
    (Lives : ℕ → S → Type 0) : Type 0 where
  pub tool4 : (c : Command) (q : ℕ) (s : S) → Lives q (t4.run c s).1 → Lives q s
  pub tool6 : (c : Command) (q : ℕ) (s : S) → Lives q (t6.run c s).1 → Lives q s
  pub roots : (q : ℕ) (s : S) → Lives q (b.roots s).1 → Lives q s
  pub add : (i : ℕ) (o : Options) (q : ℕ) (s : S) → Lives q (b.add i o s).1 → Lives q s
  pub delete : (i q : ℕ) (s : S) → Lives q (b.delete i s).1 → Lives q s
  pub listing : (q : ℕ) (s : S) → Lives q (b.listing s).1 → Lives q s
  pub replace_file : (f t : Text) (q : ℕ) (s : S) → Lives q (b.replace_file f t s).1 → Lives q s
  pub remove_file : (f : Text) (q : ℕ) (s : S) → Lives q (b.remove_file f s).1 → Lives q s
  pub run : (words : List Text) (q : ℕ) (s : S) → Lives q (d.run words s).1 → Lives q s
  pub write_value : (f t : Text) (q : ℕ) (s : S) → Lives q (d.write_file f t s).1 → Lives q s
  pub remove_value : (f : Text) (q : ℕ) (s : S) → Lives q (d.remove_file f s).1 → Lives q s

module _ {S : Type 0} (t4 t6 : Tool S) (p : Processes S) (x : Settings) (b : Shaper S)
    (d : Offload.Device S) (ifindex : S → Text → Option Text) (Lives : ℕ → S → Type 0)
    (law : Children p Lives) (none_starts : StartsNone t4 t6 b d Lives) where
  abbrev pub world : World (State S)
  world = system t4 (some t6) p x b d ifindex

  -- Every child that lives is in the table.
  abbrev Table : List Worker → S → Type 0
  Table ws s = Covers p x Lives law ws s

  abbrev Known : State S → Type 0
  Known (ws, s) = Table ws s

  Table-shaper : (ws : List Worker) → KeptByShaper b (Table ws)
  Table-shaper ws = record {
    roots = λ s h q l. h q (none_starts.roots q s l);
    add = λ i o s h q l. h q (none_starts.add i o q s l);
    delete = λ i s h q l. h q (none_starts.delete i q s l);
    listing = λ s h q l. h q (none_starts.listing q s l);
    replace_file = λ f t s h q l. h q (none_starts.replace_file f t q s l);
    remove_file = λ f s h q l. h q (none_starts.remove_file f q s l);
  }

  Table-device : (ws : List Worker) → KeptByDevice d (Table ws)
  Table-device ws = record {
    run = λ words s h q l. h q (none_starts.run words q s l);
    write_file = λ f t s h q l. h q (none_starts.write_value f t q s l);
    remove_file = λ f s h q l. h q (none_starts.remove_value f q s l);
  }

  Table-kept : (ws : List Worker) → KeptByParts t4 t6 b d (Table ws)
  Table-kept ws = record {
    tool4 = λ c s h q l. h q (none_starts.tool4 c q s l);
    tool6 = λ c s h q l. h q (none_starts.tool6 c q s l);
    synced = λ ifindex c links s h. sync-kept b (Table ws) (Table-shaper ws) ifindex c links s h;
    applied = λ on s h. apply-kept d (Table ws) (Table-device ws) on s h;
    restored = λ s h. restore-kept d (Table ws) (Table-device ws) s h;
  }

  world-Known : KeptByWorld world Known
  world-Known =
      system-kept t4 t6 p x b d ifindex Table Table-kept
        (λ ws s h. stop-Covers p x Lives law ws s h)
        (λ n ws s h. (start-IsCovered p x Lives law n ws s h).0)

  -- The system may lose children between the rounds, but gets no new ones.
  abbrev pub Allowed : State S → State S → Type 0
  Allowed (ws, s) (vs, t) = (ws ≡ vs) × ((q : ℕ) → Lives q t → Lives q s)

  Allowed-Known : (m n : State S) → Allowed m n → Known m → Known n
  Allowed-Known (ws, s) (vs, t) (e, less) h q l =
      subst (λ us. has_pid us q ≡ true) e (h q (less q l))

  module _ (c : Config) (backend : EffectiveBackend) (v6 : Ipv6Plan) where
    -- The table is empty after `finish`.
    none_left :
        (l : Loop (State S)) → Known l.world → (q : ℕ) → ¬ Lives q (finish world c backend v6 l).1.1
    unfolding finish some_of
    none_left l h = at (world.clean l.world) (world-Known.clean l.world h)
      where
        no : false ≡ true → ⊥
        no e = cc

        at :
            (m : Bool × State S)
            → Known m.1
            → (q : ℕ) → ¬ Lives q (stopped world c backend v6 m).1.1
        at (true, u) k q l =
            absurd (no (world-Known.restore_offload (world.stop u) (world-Known.stop u k) q l))
        at (false, u) k q l =
            absurd (no (world-Known.restore_offload (world.stop u) (world-Known.stop u k) q l))

    -- For children that live only from their spawning until they are waited for, and other parts that
    -- start none: if none lives at the start, then after any rounds of the main loop on any inputs,
    -- between which the system may change in any way that starts none, every child that lives is in
    -- the table of workers, and none lives after `finish`.
    pub Course-begin_loop :
        (s : S) (workers now : ℕ) (m : Loop (State S))
        → ((q : ℕ) → ¬ Lives q s)
        → Course world Allowed c backend v6 (begin_loop world c backend v6 ([], s) workers now) m
        → ((q : ℕ) → Lives q m.world.1 → has_pid m.world.0 q ≡ true)
          × ((q : ℕ) → ¬ Lives q (finish world c backend v6 m).1.1)
    Course-begin_loop s workers now m none_yet r =
        let known : Known m.world =
          Course-Keeps world Allowed c backend v6 Known world-Known Allowed-Known r (
            begin_loop-Keeps world Known world-Known c backend v6 ([], s) workers now
              (λ q l. absurd (none_yet q l))) in
        (known, none_left m known)
