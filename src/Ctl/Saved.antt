-- ===== src/Ctl/Saved.antt =====
-- The configuration file is replaced as a whole by a file that is valid, or it stays.
use nfqttl.Base.{
  ◌≡◌, refl, sym, ap, ◌∙◌, ◌⊎◌, inl, inr, Bool, true, false, if◌then◌else◌, List, Option, none,
  some, Result, ok, err, panic, stuck, Error,
}
use nfqttl.Base.Text.{Text}
use nfqttl.Config.Validate.{ConfigError, validate}
use nfqttl.Ctl.{
  Entries, parse_settings, edit, Host, started, renamed, backed, stopped, validated, protected,
  written, parsed, configure_from, configure, Saved,
}

-- A file that was written without an error has its text, a file that is renamed takes the place of
-- the other, and a call that fails, or is about another file, leaves a file as it was.
pub record Files {S : Type 0} (h : Host S) : Type 0 where
  pub temp_written :
      (t : Text) (s : S) → (h.write_temp t s).0 ≡ true → h.temp_text (h.write_temp t s).1 ≡ some t
  pub temp_config : (t : Text) (s : S) → h.config_text (h.write_temp t s).1 ≡ h.config_text s
  pub protect_temp_text : (s : S) → h.temp_text (h.protect_temp s).1 ≡ h.temp_text s
  pub protect_config : (s : S) → h.config_text (h.protect_temp s).1 ≡ h.config_text s
  pub remove_config : (s : S) → h.config_text (h.remove_temp s) ≡ h.config_text s
  pub stop_temp : (s : S) → h.temp_text (h.stop s).1 ≡ h.temp_text s
  pub stop_config : (s : S) → h.config_text (h.stop s).1 ≡ h.config_text s
  pub start_config : (s : S) → h.config_text (h.start s).1 ≡ h.config_text s
  pub backup_temp : (t : Text) (s : S) → h.temp_text (h.write_backup t s).1 ≡ h.temp_text s
  pub backup_config : (t : Text) (s : S) → h.config_text (h.write_backup t s).1 ≡ h.config_text s
  pub renamed_config :
      (s : S) → (h.rename_temp s).0 ≡ true → h.config_text (h.rename_temp s).1 ≡ h.temp_text s
  pub kept_config :
      (s : S) → (h.rename_temp s).0 ≡ false → h.config_text (h.rename_temp s).1 ≡ h.config_text s

module _ {S : Type 0} (h : Host S) (law : Files h) (settings : List Text) where
  -- The file has the edited text, which is valid.
  abbrev pub IsEdited : Option Text → S → Type 0
  IsEdited before s =
      (old : Text) × (es : Entries) × (before ≡ some old)
      × (parse_settings settings ≡ ok es)
      × (h.config_text s ≡ some (edit es old))
      × (validate (h.config_text s) ≡ ok tt)

  abbrev pub IsOutcome : Option Text → Saved h → Type 0
  IsOutcome before (ok u, s) = IsEdited before s
  IsOutcome before (r, s) = (h.config_text s ≡ before) ⊎ IsEdited before s

  module _ (before : Option Text) (old text : Text)
      (edited : (s : S) → h.config_text s ≡ some text → IsEdited before s) where
    started-IsOutcome :
        (m : Result Error (Unit {0}) × S)
        → h.config_text m.1 ≡ some text
        → IsOutcome before (started h m)
    started-IsOutcome (ok u, s) e = edited s e
    started-IsOutcome (err x, s) e = inr (edited s e)
    started-IsOutcome (panic, s) e = inr (edited s e)
    started-IsOutcome (stuck, s) e = inr (edited s e)

    renamed-IsOutcome :
        (running : Bool) (m : Bool × S)
        → (m.0 ≡ true → h.config_text m.1 ≡ some text)
        → (m.0 ≡ false → h.config_text m.1 ≡ before)
        → IsOutcome before (renamed h running m)
    renamed-IsOutcome running (false, s) y n = inl (n refl)
    renamed-IsOutcome true (true, s) y n =
        started-IsOutcome (h.start s) (law.start_config s ∙ y refl)
    renamed-IsOutcome false (true, s) y n = edited s (y refl)

    backed-IsOutcome :
        (running : Bool) (m : Bool × S)
        → h.temp_text m.1 ≡ some text
        → h.config_text m.1 ≡ before
        → IsOutcome before (backed h running m)
    backed-IsOutcome running (false, s) t c = inl c
    backed-IsOutcome running (true, s) t c =
        renamed-IsOutcome running (h.rename_temp s) (λ e. law.renamed_config s e ∙ t)
          (λ e. law.kept_config s e ∙ c)

    backup-IsOutcome :
        (running : Bool) (s : S)
        → h.temp_text s ≡ some text
        → h.config_text s ≡ before
        → IsOutcome before (backed h running (h.write_backup old s))
    backup-IsOutcome running s t c =
        backed-IsOutcome running (h.write_backup old s) (law.backup_temp old s ∙ t)
          (law.backup_config old s ∙ c)

    stopped-IsOutcome :
        (m : Result Error (Unit {0}) × S)
        → h.temp_text m.1 ≡ some text
        → h.config_text m.1 ≡ before
        → IsOutcome before (stopped h old m)
    stopped-IsOutcome (ok u, s) t c = backup-IsOutcome true s t c
    stopped-IsOutcome (err x, s) t c = inl c
    stopped-IsOutcome (panic, s) t c = inl c
    stopped-IsOutcome (stuck, s) t c = inl c

  validated-IsOutcome :
      (before : Option Text) (old : Text) (es : Entries) (s : S)
      → before ≡ some old
      → parse_settings settings ≡ ok es
      → h.temp_text s ≡ some (edit es old)
      → h.config_text s ≡ before
      → (r : Result ConfigError (Unit {0})) → validate (some (edit es old)) ≡ r
      → IsOutcome before (validated h old r s)
  validated-IsOutcome before old es s b p t c (ok tt) v = at (h.is_running s)
    where
      edited : (u : S) → h.config_text u ≡ some (edit es old) → IsEdited before u
      edited u e = (old, es, b, p, e, ap validate e ∙ v)

      at :
          (r : Bool)
          → IsOutcome before
              (if r then stopped h old (h.stop s) else backed h false (h.write_backup old s))
      at true =
          stopped-IsOutcome before old (edit es old) edited (h.stop s) (law.stop_temp s ∙ t)
            (law.stop_config s ∙ c)
      at false = backup-IsOutcome before old (edit es old) edited false s t c
  validated-IsOutcome before old es s b p t c (err e) v = inl (law.remove_config s ∙ c)
  validated-IsOutcome before old es s b p t c panic v = inl c
  validated-IsOutcome before old es s b p t c stuck v = inl c

  protected-IsOutcome :
      (before : Option Text) (old : Text) (es : Entries) (m : Bool × S)
      → before ≡ some old
      → parse_settings settings ≡ ok es
      → h.temp_text m.1 ≡ some (edit es old)
      → h.config_text m.1 ≡ before
      → IsOutcome before (protected h old m)
  protected-IsOutcome before old es (false, s) b p t c = inl c
  protected-IsOutcome before old es (true, s) b p t c =
      validated-IsOutcome before old es s b p t c (validate (h.temp_text s)) (ap validate (sym t))

  written-IsOutcome :
      (before : Option Text) (old : Text) (es : Entries) (m : Bool × S)
      → before ≡ some old
      → parse_settings settings ≡ ok es
      → (m.0 ≡ true → h.temp_text m.1 ≡ some (edit es old))
      → h.config_text m.1 ≡ before
      → IsOutcome before (written h old m)
  written-IsOutcome before old es (false, s) b p t c = inl c
  written-IsOutcome before old es (true, s) b p t c =
      protected-IsOutcome before old es (h.protect_temp s) b p (law.protect_temp_text s ∙ t refl)
        (law.protect_config s ∙ c)

  parsed-IsOutcome :
      (before : Option Text) (old : Text) (s : S)
      → before ≡ some old
      → h.config_text s ≡ before
      → (r : Result Error Entries) → parse_settings settings ≡ r
      → IsOutcome before (parsed h old r s)
  parsed-IsOutcome before old s b c (ok es) p =
      written-IsOutcome before old es (h.write_temp (edit es old) s) b p
        (law.temp_written (edit es old) s) (law.temp_config (edit es old) s ∙ c)
  parsed-IsOutcome before old s b c (err e) p = inl c
  parsed-IsOutcome before old s b c panic p = inl c
  parsed-IsOutcome before old s b c stuck p = inl c

  -- For files that are kept: where `configure` succeeds, the configuration file has the edited text of
  -- the file before, for the arguments, and `validate` accepts it; where it fails, the file is as it
  -- was, or that holds too.
  pub configure-IsOutcome : (s : S) → IsOutcome (h.config_text s) (configure h settings s)
  unfolding configure
  configure-IsOutcome s = at (h.config_text s) refl
    where
      at : (o : Option Text) → h.config_text s ≡ o → IsOutcome o (configure_from h settings o s)
      at none e = inl e
      at (some old) e = parsed-IsOutcome (some old) old s refl e (parse_settings settings) refl
