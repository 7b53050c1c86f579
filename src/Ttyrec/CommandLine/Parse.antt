-- ===== src/Ttyrec/CommandLine/Parse.antt =====
-- The loop of `main` over the options.
use ovh_ttyrec.Base.{
  Bool, List, Option, [], false, if◌then◌else◌, leb_ℤ, ltb_ℤ, none, pos, some, true, ℤ, ◌+◌, ◌||◌,
  ◌∷◌,
}
use ovh_ttyrec.Compress.{compress_zstd, set_compress_mode}
use ovh_ttyrec.Ttyrec.CommandLine.{
  Text, starts_with, Opt, zstd, stealth_stdout, stealth_stderr, unknown_long, max_flush_time,
  warn_before_lock, warn_before_kill, opt_big_z, opt_v, opt_a, opt_big_c, opt_c, opt_u, opt_p,
  opt_n, opt_big_v, other, opt_l, opt_e, opt_d, opt_f, opt_z, opt_big_f, opt_t, opt_k, opt_s,
  opt_big_t, Settings, exit_failure, failed, exit_success, Parsed, goes_on, stops, text_never,
  text_auto, text_always, text_c, shell_name,
}

-- `strtol` gives `none` where it sets `errno`; the two flags are HAVE_zstd and HAVE_openpty.
module _ (strtol : Text → Option ℤ) (have_zstd have_openpty : Bool) (shell : Text) where
  -- "expected a strictly positive integer"
  unfoldable pub positive : Text → (ℤ → Settings) → Parsed
  positive arg set = elim (strtol arg) [
    | none ↦ stops exit_failure
    | some n ↦ if leb_ℤ n (pos 0) then stops exit_failure else goes_on (set n)
  ]

  -- `set_compress_mode(COMPRESS_ZSTD)`, with what is done where it fails.
  unfoldable pub use_zstd : Parsed → Settings → Parsed
  use_zstd fails s =
      let (done, wrappers) = set_compress_mode have_zstd compress_zstd s.wrappers in
      if done then goes_on (record s { wrappers = wrappers; opt_zstd = s.opt_zstd + 1 }) else fails

  unfoldable pub level : Text → Settings → Parsed
  level arg s = elim (strtol arg) [
    | none ↦ stops exit_failure
    | some n ↦
        if ltb_ℤ n (pos 1) || ltb_ℤ (pos 19) n
        then stops exit_failure
        else goes_on (record s { opt_compress_level = n; compress_level = n })
  ]

  unfoldable pub want_tty : Text → Settings → Parsed
  want_tty arg s =
      if starts_with text_never arg
      then goes_on (record s { opt_want_tty = 0 })
      else if starts_with text_auto arg
      then goes_on (record s { opt_want_tty = 1 })
      else if starts_with text_always arg
      then goes_on (record s { opt_want_tty = 2 })
      else stops exit_failure

  -- The command of `-e`, which can be given once.
  unfoldable pub shell_command : Text → Settings → Parsed
  shell_command arg s =
      if s.legacy
      then stops exit_failure
      else goes_on (record s {
        legacy = true;
        command = some shell;
        params = shell_name shell ∷ text_c ∷ arg ∷ [];
      })

  unfoldable pub parse_option : Opt → Settings → Parsed
  parse_option zstd s = use_zstd (stops failed) s
  parse_option (max_flush_time arg) s =
      if have_zstd then positive arg (λ n. record s { zstd_max_flush_seconds = n }) else goes_on s
  parse_option (warn_before_lock arg) s =
      positive arg (λ n. record s { warn_before_lock_seconds = n })
  parse_option (warn_before_kill arg) s =
      positive arg (λ n. record s { warn_before_kill_seconds = n })
  parse_option stealth_stdout s = goes_on (record s { opt_stealth_stdout = true })
  parse_option stealth_stderr s = goes_on (record s { opt_stealth_stderr = true })
  parse_option unknown_long s = stops failed
  parse_option opt_big_z s = use_zstd (goes_on s) s
  parse_option (opt_l arg) s = level arg s
  parse_option opt_v s = goes_on (record s { opt_debug = s.opt_debug + 1 })
  parse_option opt_a s = goes_on (record s { opt_append = s.opt_append + 1 })
  parse_option opt_big_c s = goes_on (record s { opt_cheatcodes = false })
  parse_option opt_c s = goes_on (record s { opt_cheatcodes = true })
  parse_option opt_u s = goes_on s
  parse_option (opt_e arg) s = shell_command arg s
  parse_option (opt_d arg) s = goes_on (record s { dname = some arg })
  parse_option (opt_f arg) s = goes_on (record s { fname = some arg })
  parse_option (opt_z arg) s = goes_on (record s { uuid = some arg })
  parse_option (opt_big_f arg) s = goes_on (record s { namefmt = some arg })
  parse_option opt_p s =
      if have_openpty
      then goes_on (record s { openpty_disable = s.openpty_disable + 1 })
      else goes_on s
  parse_option (opt_t arg) s = positive arg (λ n. record s { timeout_lock = n })
  parse_option (opt_k arg) s = positive arg (λ n. record s { timeout_kill = n })
  parse_option (opt_s arg) s = goes_on (record s { opt_custom_message = some arg })
  parse_option opt_n s = goes_on (record s { opt_count_bytes = s.opt_count_bytes + 1 })
  parse_option (opt_big_t arg) s = want_tty arg s
  parse_option opt_big_v s = stops exit_success
  parse_option other s = stops exit_failure

  unfoldable pub parse_options : List Opt → Settings → Parsed
  parse_options [] s = goes_on s
  parse_options (opt ∷ opts) s = elim (parse_option opt s) [
    | goes_on s' ↦ parse_options opts s'
    | stops e ↦ stops e
  ]
