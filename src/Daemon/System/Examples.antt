-- ===== src/Daemon/System/Examples.antt =====
-- Rounds of the daemon on phones of which one part each does something.
use nfqttl.Base.{ℕ, ◌≡◌, refl, true, false, List, [], ◌∷◌, none, some, ok, err, other}
use nfqttl.Base.Text.{codes, some_of}
use nfqttl.Config.{Config, default}
use nfqttl.Firewall.{Tool, Ipv6Plan}
use nfqttl.Qos.Reconcile.{Shaper}
use nfqttl.Qos.Reconcile.Examples.{
  Phone, shaper, view, file, law, shaped_up, seventh, synced, synced-IsCovered,
}
use nfqttl.Qos.Reconcile.Kernel.{IsCovered}
use nfqttl.Offload
use nfqttl.Offload.{hw, Device}
use nfqttl.Offload.Examples.{phone, value_of, phone_store, phone_works, fresh}
use nfqttl.Offload.Journal.{IsSafe}
use nfqttl.Daemon.{Action, EffectiveBackend}
use nfqttl.Daemon.Workers.{Processes}
use nfqttl.Daemon.Workers.Kept.{KeptByProcesses}
use nfqttl.Daemon.Workers.Orphans.{has_pid}
use nfqttl.Daemon.Workers.Examples.{children, Lives, children_law, settings}
use nfqttl.Daemon.Loop.{
  World, Inputs, Loop, start_loop, begin_loop, finish, rescan, resync, look, looked, round,
}
use nfqttl.Daemon.Loop.Logged.{logged}
use nfqttl.Daemon.Loop.Keeps.{here, turn, outside}
use nfqttl.Daemon.System.{State, system}
use nfqttl.Daemon.System.Orphans.{Course-begin_loop}
use nfqttl.Daemon.System.Lasting.{Course-IsCovered, Course-restores}

abbrev calm : {S : Type 0} → Tool S
calm = record { run = λ c s. (true, s); listed = λ c s. [] }

abbrev no_qdiscs : {S : Type 0} → Shaper S
no_qdiscs = record {
  roots = λ s. (ok [], s);
  add = λ i o s. (err (other "no qdiscs"), s);
  delete = λ i s. (ok tt, s);
  listing = λ s. (ok [], s);
  replace_file = λ f t s. (err (other "read-only"), s);
  remove_file = λ f s. (ok tt, s);
}

abbrev no_settings : {S : Type 0} → Device S
no_settings = record {
  output = λ words s. none;
  run = λ words s. (false, s);
  file = λ f s. none;
  write_file = λ f t s. (false, s);
  remove_file = λ f s. (true, s);
}

abbrev no_children : {S : Type 0} → Processes S
no_children = record {
  queues = λ s. none;
  has_exited = λ pid s. true;
  log_text = λ q s. none;
  is_stopping = λ s. false;
  terminate = λ pid s. s;
  kill = λ pid s. s;
  wait = λ pid s. s;
  pause = λ s. s;
  open_log = λ q s. (true, s);
  spawn = λ exe args s. (none, s);
  write_state = λ name value s. s;
  remove_state = λ name s. s;
}

no_children-kept : {S : Type 0} → (P : S → Type 0) → KeptByProcesses no_children P
no_children-kept P = record {
  terminate = λ pid s h. h;
  kill = λ pid s h. h;
  wait = λ pid s h. h;
  pause = λ s h. h;
  open_log = λ q s h. h;
  spawn = λ exe args s h. h;
  write_state = λ name value s h. h;
  remove_state = λ name s h. h;
}

abbrev inputs : Inputs
inputs = record {
  stopping = false;
  disabled = false;
  now = 30005;
  found = record { down = codes "wlan1" ∷ []; up = codes "rmnet0" ∷ [] };
  stats = none;
  notified = false;
}

abbrev one_round : {S : Type 0} → World S → Config → EffectiveBackend → Loop S → Loop S
one_round w c e l =
    looked w c e Ipv6Plan.pass inputs
      (look w c e Ipv6Plan.pass inputs (resync w c e Ipv6Plan.pass inputs (rescan c inputs l)))

first_round :
    {S : Type 0} (w : World S) (c : Config) (e : EffectiveBackend) (l : Loop S)
    → round w c e Ipv6Plan.pass inputs l ≡ some (one_round w c e l)
unfolding round
first_round w c e l = refl

-- Children that are kept in a list.
abbrev family : World (State (List ℕ))
family = system calm (some calm) children settings no_qdiscs no_settings (λ s name. none)

abbrev family_logged : World (List Action × State (List ℕ))
family_logged = logged family

abbrev grown : Loop (List Action × State (List ℕ))
grown = one_round family_logged default EffectiveBackend.nfqueue (start_loop ([], ([], [])) 1 0)

-- The same from before the loop.
abbrev family_begun : Loop (State (List ℕ))
family_begun = begin_loop family default EffectiveBackend.nfqueue Ipv6Plan.pass ([], []) 1 0

abbrev family_grown : Loop (State (List ℕ))
family_grown = one_round family default EffectiveBackend.nfqueue family_begun

-- A worker that dies by itself between two rounds.
abbrev bereft : Loop (State (List ℕ))
bereft = record family_grown { world = (family_grown.world.0, []) }

Course-begin_loop_example :
    ((q : ℕ) → Lives q bereft.world.1 → has_pid bereft.world.0 q ≡ true)
    × ((q : ℕ)
        → ¬ Lives q (finish family default EffectiveBackend.nfqueue Ipv6Plan.pass bereft).1.1)
unfolding some_of
Course-begin_loop_example =
    Course-begin_loop calm calm children settings no_qdiscs no_settings (λ s name. none) Lives
      children_law
      (record {
        tool4 = λ c q s l. l;
        tool6 = λ c q s l. l;
        roots = λ q s l. l;
        add = λ i o q s l. l;
        delete = λ i q s l. l;
        listing = λ q s l. l;
        replace_file = λ f t q s l. l;
        remove_file = λ f q s l. l;
        run = λ words q s l. l;
        write_value = λ f t q s l. l;
        remove_value = λ f q s l. l;
      })
      default EffectiveBackend.nfqueue Ipv6Plan.pass [] 1 0 bereft (λ q l. nobody l)
      (outside (turn here inputs (first_round family default EffectiveBackend.nfqueue family_begun))
        (family_grown.world.0, []) (refl, λ q l. absurd (nobody l)))
  where
    nobody : false ≡ true → ⊥
    nobody e = cc

-- A phone with a shaped link.
abbrev shaping : World (State Phone)
shaping = system calm (some calm) no_children settings shaper no_settings (λ s. seventh)

abbrev shaped_begun : Loop (State Phone)
shaped_begun = begin_loop shaping shaped_up EffectiveBackend.kernel Ipv6Plan.pass ([], synced) 1 0

abbrev shaped_again : Loop (State Phone)
shaped_again = one_round shaping shaped_up EffectiveBackend.kernel shaped_begun

Course-IsCovered_example :
    IsCovered view file shaped_again.world.1
    × IsCovered view file
        (finish shaping shaped_up EffectiveBackend.kernel Ipv6Plan.pass shaped_again).1.1
Course-IsCovered_example =
    Course-IsCovered calm calm no_children settings shaper no_settings (λ s. seventh) view file law
      (record {
        tool4 = λ c s h. h;
        tool6 = λ c s h. h;
        device = record {
          run = λ words s h. h;
          write_file = λ f t s h. h;
          remove_file = λ f s h. h;
        };
        processes = no_children-kept (IsCovered view file);
      })
      shaped_up EffectiveBackend.kernel Ipv6Plan.pass synced 1 0 shaped_again synced-IsCovered
      (turn here inputs (first_round shaping shaped_up EffectiveBackend.kernel shaped_begun))

-- A phone whose settings are changed.
abbrev changing : World (State Offload.Examples.Phone)
changing = system calm (some calm) no_children settings no_qdiscs phone (λ s name. none)

abbrev fresh_begun : Loop (State Offload.Examples.Phone)
fresh_begun = begin_loop changing default EffectiveBackend.kernel Ipv6Plan.pass ([], fresh) 1 0

-- Half a minute later, when the settings are applied.
abbrev changed : Loop (State Offload.Examples.Phone)
changed = one_round changing default EffectiveBackend.kernel fresh_begun

Course-restores_example :
    IsSafe phone value_of phone_store hw (codes "0") changed.world.1
    × (value_of hw (finish changing default EffectiveBackend.kernel Ipv6Plan.pass changed).1.1
        ≡ codes "0")
unfolding value_of
Course-restores_example =
    Course-restores calm calm no_children settings no_qdiscs phone (λ s name. none) value_of
      phone_store hw (codes "0")
      (record {
        tool4 = λ c s h. h;
        tool6 = λ c s h. h;
        shaper = record {
          roots = λ s h. h;
          add = λ i o s h. h;
          delete = λ i s h. h;
          listing = λ s h. h;
          replace_file = λ f t s h. h;
          remove_file = λ f s h. h;
        };
        processes = no_children-kept (IsSafe phone value_of phone_store hw (codes "0"));
      })
      (phone_works hw (codes "0")) default EffectiveBackend.kernel Ipv6Plan.pass fresh 1 0 changed
      refl refl
      (turn here inputs (first_round changing default EffectiveBackend.kernel fresh_begun))
