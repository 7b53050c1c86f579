-- ===== src/Ttyrec/CommandLine.antt =====
-- `main` of ttyrec.c, up to where it opens the file: the options, their checks, and what they mean.
pub mod Parse
pub mod Check
pub mod Accepted
pub mod Complete
use ovh_ttyrec.Base.{
  Bool, List, Option, [], false, if◌then◌else◌, negsuc, none, pos, some, true, ℕ, ℤ, ◌&&◌, ◌==◌,
  ◌∷◌,
}
use ovh_ttyrec.Compress.{CompressMode, compress_none, compress_zstd, set_compress_mode}

-- A text is its bytes.
abbrev pub Text : Type 0
Text = List ℕ

abbrev pub starts_with : Text → Text → Bool
starts_with [] t = true
starts_with (c ∷ cs) [] = false
starts_with (c ∷ cs) (d ∷ ds) = c == d && starts_with cs ds

-- What `getopt_long` finds. `other` is 'h' and everything that it does not know.
pub data Opt : Type 0 where
  zstd stealth_stdout stealth_stderr unknown_long : Opt
  max_flush_time warn_before_lock warn_before_kill : Text → Opt
  opt_big_z opt_v opt_a opt_big_c opt_c opt_u opt_p opt_n opt_big_v other : Opt
  opt_l opt_e opt_d opt_f opt_z opt_big_f opt_t opt_k opt_s opt_big_t : Text → Opt

-- The variables that the options set.
pub record Settings : Type 0 where
  pub wrappers : CompressMode
  pub opt_zstd : ℕ
  pub zstd_max_flush_seconds : ℤ
  pub warn_before_lock_seconds : ℤ
  pub warn_before_kill_seconds : ℤ
  pub opt_stealth_stdout : Bool
  pub opt_stealth_stderr : Bool
  pub opt_compress_level : ℤ
  pub compress_level : ℤ
  pub opt_debug : ℕ
  pub opt_append : ℕ
  pub opt_cheatcodes : Bool
  pub legacy : Bool
  pub command : Option Text
  pub params : List Text
  pub dname : Option Text
  pub fname : Option Text
  pub uuid : Option Text
  pub namefmt : Option Text
  pub openpty_disable : ℕ
  pub timeout_lock : ℤ
  pub timeout_kill : ℤ
  pub opt_custom_message : Option Text
  pub opt_count_bytes : ℕ
  pub opt_want_tty : ℕ

-- How the program ends early: `exit(EXIT_FAILURE)`, `fail()`, or `exit(0)` behind the version.
pub data Exit : Type 0 where
  exit_failure failed exit_success : Exit

pub data Parsed : Type 0 where
  goes_on : Settings → Parsed
  stops : Exit → Parsed

-- "never", "auto" and "always"; "-c" and "-i"; ".".
abbrev pub text_never : Text
text_never = 110 ∷ 101 ∷ 118 ∷ 101 ∷ 114 ∷ []

abbrev pub text_auto : Text
text_auto = 97 ∷ 117 ∷ 116 ∷ 111 ∷ []

abbrev pub text_always : Text
text_always = 97 ∷ 108 ∷ 119 ∷ 97 ∷ 121 ∷ 115 ∷ []

abbrev pub text_c : Text
text_c = 45 ∷ 99 ∷ []

abbrev pub text_i : Text
text_i = 45 ∷ 105 ∷ []

abbrev pub text_dot : Text
text_dot = 46 ∷ []

-- `strrchr(shell, '/')`, one character on; `none` is NULL.
unfoldable pub behind_last_slash : Text → Option Text
behind_last_slash [] = none
behind_last_slash (c ∷ cs) = elim (behind_last_slash cs) [
  | some t ↦ some t
  | none ↦ if c == 47 then some cs else none
]

unfoldable pub shell_name : Text → Text
shell_name shell = elim (behind_last_slash shell) [ some t ↦ t | none ↦ shell ]

-- The static variables as they are initialised.
abbrev pub defaults : Settings
defaults = record {
  wrappers = compress_none;
  opt_zstd = 0;
  zstd_max_flush_seconds = pos 15;
  warn_before_lock_seconds = pos 0;
  warn_before_kill_seconds = pos 0;
  opt_stealth_stdout = false;
  opt_stealth_stderr = false;
  opt_compress_level = pos 0;
  compress_level = negsuc 0;
  opt_debug = 0;
  opt_append = 0;
  opt_cheatcodes = false;
  legacy = false;
  command = none;
  params = [];
  dname = none;
  fname = none;
  uuid = none;
  namefmt = none;
  openpty_disable = 0;
  timeout_lock = pos 0;
  timeout_kill = pos 0;
  opt_custom_message = none;
  opt_count_bytes = 0;
  opt_want_tty = 1;
}
