-- ===== src/Ctl/Examples.antt =====
-- One setting that is replaced and one that is added, in two files that are kept in memory.
use nfqttl.Base.{
  ◌≡◌, refl, arith, Bool, true, false, if◌then◌else◌, List, [], ◌∷◌, ◌++◌, Option, none, some, ok,
  Post,
}
use nfqttl.Base.Text.{Text, codes}
use nfqttl.Ctl.{Host, parse_settings, edit_lines, configure}
use nfqttl.Ctl.Edited.{parse_settings-edit_lines}
use nfqttl.Ctl.Keys.{value_in, or_else}
use nfqttl.Base.Text.{some_of, keep_if, text_eq}
use nfqttl.Firewall.{Command, Tool, append, insert, replace, check, delete, delete_second}
use nfqttl.Firewall.Laws.{Iptables}
use nfqttl.Offload
use nfqttl.Qos.Reconcile.Examples.{Phone, shaper, view, file, law, synced, synced-IsCovered}
use nfqttl.Util.{Processes}
use nfqttl.Ctl.Control.{Site, stop}
use nfqttl.Offload.Kept.{KeptByDevice}
use nfqttl.Qos.Reconcile.Kept.{KeptByShaper}
use nfqttl.Ctl.Kept.{KeptBySite}
use nfqttl.Ctl.Stopped.{Apart, IsStopped, stop-IsStopped}
use nfqttl.Ctl.Saved.{Files, IsOutcome, configure-IsOutcome}

abbrev arguments : List Text
arguments = codes "TTL=65" ∷ codes "GSO=1" ∷ []

abbrev old_lines : List Text
old_lines = codes "# hotspot" ∷ codes " TTL = 64" ∷ codes "WORKERS=2" ∷ []

parse_settings-edit_lines_example :
    Post
      (λ es.
        value_in (codes "TTL") (edit_lines es old_lines)
        ≡ or_else (value_in (codes "TTL") arguments) (value_in (codes "TTL") old_lines))
      (parse_settings arguments)
parse_settings-edit_lines_example = parse_settings-edit_lines (codes "TTL") arguments old_lines

record Disk : Type 0 where
  config : Option Text
  temp : Option Text

abbrev disk : Host Disk
disk = record {
  config_text = λ s. s.config;
  temp_text = λ s. s.temp;
  write_temp = λ t s. (true, record s { temp = some t });
  protect_temp = λ s. (true, s);
  remove_temp = λ s. record s { temp = none };
  is_running = λ s. true;
  stop = λ s. (ok tt, s);
  start = λ s. (ok tt, s);
  write_backup = λ t s. (true, s);
  rename_temp = λ s. (true, record { config = s.temp; temp = none });
}

not_false : true ≡ false → ⊥
not_false h = ground arith

disk_files : Files disk
disk_files = record {
  temp_written = λ t s h. refl;
  temp_config = λ t s. refl;
  protect_temp_text = λ s. refl;
  protect_config = λ s. refl;
  remove_config = λ s. refl;
  stop_temp = λ s. refl;
  stop_config = λ s. refl;
  start_config = λ s. refl;
  backup_temp = λ t s. refl;
  backup_config = λ t s. refl;
  renamed_config = λ s h. refl;
  kept_config = λ s h. absurd (not_false h);
}

abbrev at_first : Disk
at_first = record { config = some (codes "TTL=64"); temp = none }

configure-IsOutcome_example :
    IsOutcome disk disk_files arguments at_first.config (configure disk arguments at_first)
configure-IsOutcome_example = configure-IsOutcome disk disk_files arguments at_first

-- A phone without rules in its tables, and with a worker that is left over.
abbrev answer : Command → Bool
answer (append c r) = false
answer (insert c r) = false
answer (replace c r) = false
answer (check c r) = false
answer (delete c r) = false
answer (delete_second c) = false
answer _ = true

abbrev no_rules : Tool Phone
no_rules = record { run = λ c s. (answer c, s); listed = λ c s. [] }

no_rules_law : Iptables no_rules
unfolding some_of keep_if
no_rules_law = record {
  rules = λ c s. [];
  new_law = λ c s d. refl;
  flush_law = λ c s. record { here = refl; elsewhere = λ d ne. refl };
  delete_chain_law = λ c s d. refl;
  append_law = λ c r s d. refl;
  insert_law = λ c r s d. refl;
  replace_law = λ c r s d. refl;
  check_law = λ c r s d. refl;
  check_answered = λ c r s h. refl;
  delete_law = λ c r s d. refl;
  delete_second_law = λ c s d. refl;
  listing_answered = λ c s. refl;
}

abbrev site : Site Phone
site = record {
  ensure_state = λ s. (true, s);
  write_paused = λ s. (true, s);
  remove_paused = λ s. s;
  state_names = λ s. codes "worker.6464.pid" ∷ codes "phase" ∷ [];
  state_file = λ name s. if text_eq name (codes "lock/pid") then none else some (codes "4321");
  write_state = λ name value s. s;
  remove_state = λ name s. s;
  terminate = λ pid s. s;
  pause = λ s. s;
  usable = λ s. true;
  has_module_file = λ name s. false;
  config_text = λ s. some [];
  spawn_daemon = λ exe s. (true, s);
}

abbrev processes : Processes Phone
processes = record {
  answers = λ pid s. true;
  own_exe = λ s. some (codes "/data/nfqttl");
  exe_of = λ pid s. some (codes "/data/nfqttl");
  cmdline = λ pid s. some (codes "nfqttl" ++ (0 ∷ codes "worker"));
}

abbrev settings : Offload.Device Phone
settings = record {
  output = λ words s. none;
  run = λ words s. (true, s);
  file = λ name s. none;
  write_file = λ name value s. (true, s);
  remove_file = λ name s. (true, s);
}

site_keeps : (P : Phone → Type 0) → KeptBySite site P
site_keeps P = record {
  ensured = λ s h. h;
  paused = λ s h. h;
  written = λ name value s h. h;
  terminated = λ pid s h. h;
  slept = λ s h. h;
}

settings_keep : (P : Phone → Type 0) → KeptByDevice settings P
settings_keep P = record {
  run = λ words s h. h;
  write_file = λ name value s h. h;
  remove_file = λ name s h. h;
}

shaper_keeps : (P : Type 0) → KeptByShaper shaper (λ s. P)
shaper_keeps P = record {
  roots = λ s h. h;
  add = λ index o s h. h;
  delete = λ index s h. h;
  listing = λ s h. h;
  replace_file = λ name text s h. h;
  remove_file = λ name s h. h;
}

apart :
    Apart site processes no_rules no_rules shaper settings no_rules_law no_rules_law view file law
unfolding no_rules_law
apart = record {
  site4 = site_keeps _;
  site6 = site_keeps _;
  site_covered = site_keeps _;
  site_clean = site_keeps _;
  tool6 = λ c s h. h;
  covered4 = λ c s h. h;
  covered6 = λ c s h. h;
  shaper4 = shaper_keeps _;
  shaper6 = shaper_keeps _;
  device4 = settings_keep _;
  device6 = settings_keep _;
  device_clean = settings_keep _;
  device_covered = settings_keep _;
}

stop-IsStopped_example :
    IsStopped site processes no_rules no_rules shaper settings no_rules_law no_rules_law view file
      law true true
      (stop site processes no_rules (some no_rules) shaper settings synced)
stop-IsStopped_example =
    stop-IsStopped site processes no_rules no_rules shaper settings no_rules_law no_rules_law view
      file law apart true true (λ s. refl) synced synced-IsCovered
