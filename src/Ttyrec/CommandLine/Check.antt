-- ===== src/Ttyrec/CommandLine/Check.antt =====
-- The checks of `main` behind the options, and the command that is run.
use ovh_ttyrec.Base.{
  Bool, List, Option, [], false, if◌then◌else◌, ltb_ℤ, none, not, pos, some, true, ℕ, ℤ, ◌&&◌, ◌==◌,
  ◌||◌, ◌∷◌,
}
use ovh_ttyrec.Ttyrec.Process.{nonzero}
use ovh_ttyrec.Ttyrec.CommandLine.{
  Text, Opt, Settings, Exit, exit_failure, failed, Parsed, goes_on, stops, text_i, text_dot,
  shell_name,
}
use ovh_ttyrec.Ttyrec.CommandLine.Parse.{parse_options}

abbrev pub stop_if : Bool → Exit → Parsed → Parsed
stop_if true e rest = stops e
stop_if false e rest = rest

abbrev pub is_given : Option Text → Bool
is_given none = false
is_given (some t) = true

-- The checks of the timeouts.
unfoldable pub check_timeouts : Settings → Parsed
check_timeouts s =
    stop_if
      (ltb_ℤ (pos 0) s.timeout_lock
        && ltb_ℤ (pos 0) s.timeout_kill
        && ltb_ℤ s.timeout_kill s.timeout_lock)
      exit_failure
      (stop_if (ltb_ℤ (pos 0) s.warn_before_lock_seconds && not (nonzero s.timeout_lock))
        exit_failure
        (stop_if (ltb_ℤ s.timeout_lock s.warn_before_lock_seconds) exit_failure (
          stop_if (ltb_ℤ (pos 0) s.warn_before_kill_seconds && not (nonzero s.timeout_kill))
            exit_failure
            (stop_if (ltb_ℤ s.timeout_kill s.warn_before_kill_seconds) exit_failure (goes_on s)))))

-- `pid` is the process's number as a text.
unfoldable pub check_settings : Text → Settings → Parsed
check_settings pid s =
    stop_if (is_given s.namefmt && (is_given s.dname || is_given s.uuid)) failed
      (check_timeouts (if is_given s.uuid then s else record s { uuid = some pid }))

-- "ttyrecord"
abbrev pub text_ttyrecord : Text
text_ttyrecord = 116 ∷ 116 ∷ 121 ∷ 114 ∷ 101 ∷ 99 ∷ 111 ∷ 114 ∷ 100 ∷ []

-- With `-e` the first argument is the name of the file; otherwise the arguments are the command.
unfoldable pub choose_command : Text → List Text → Settings → Settings
choose_command shell argv s =
    if s.legacy
    then elim argv [
      | [] ↦ record s { fname = some text_ttyrecord }
      | file ∷ rest ↦ record s { fname = some file }
    ]
    else elim argv [
      | [] ↦ record s { command = some shell; params = shell_name shell ∷ text_i ∷ [] }
      | cmd ∷ rest ↦ record s { command = some cmd; params = cmd ∷ rest }
    ]

unfoldable pub default_dir : Settings → Settings
default_dir s =
    if is_given s.dname || is_given s.fname then s else record s { dname = some text_dot }

-- All of it: the options, then the checks, then the command and the directory.
module _ (strtol : Text → Option ℤ) (have_zstd have_openpty : Bool) (shell pid : Text) where
  unfoldable pub settings_of : List Opt → List Text → Settings → Parsed
  settings_of opts argv s = elim (parse_options strtol have_zstd have_openpty shell opts s) [
    | stops e ↦ stops e
    | goes_on s1 ↦ elim (check_settings pid s1) [
      | stops e ↦ stops e
      | goes_on s2 ↦ goes_on (default_dir (choose_command shell argv s2))
    ]
  ]

-- `use_tty`, from `-T` and whether stdin is a terminal.
unfoldable pub use_tty_of : ℕ → Bool → Bool
use_tty_of opt_want_tty parent_stdin_isatty =
    if opt_want_tty == 2 then true else if opt_want_tty == 0 then false else parent_stdin_isatty
