-- ===== src/Ttyrec/CommandLine/Accepted.antt =====
-- The settings behind the loop of `main` over the options.
use ovh_ttyrec.Base.{
  Bool, Bool-cases, List, Option, Option-cases, [], arith, inl, inr, leb_ℤ, ltb_ℤ, pos, refl, true,
  ℤ, ◌<ℤ◌, ◌||◌, ◌∷◌, ◌≡◌, ◌≤ℤ◌, ◌≤◌,
}
use ovh_ttyrec.Compress.{set_compress_mode}
use ovh_ttyrec.Ttyrec.CommandLine.{
  Text, Opt, zstd, stealth_stdout, stealth_stderr, unknown_long, max_flush_time, warn_before_lock,
  warn_before_kill, opt_big_z, opt_v, opt_a, opt_big_c, opt_c, opt_u, opt_p, opt_n, opt_big_v,
  other, opt_l, opt_e, opt_d, opt_f, opt_z, opt_big_f, opt_t, opt_k, opt_s, opt_big_t, Settings,
  failed, Parsed, goes_on, stops,
}
use ovh_ttyrec.Ttyrec.CommandLine.Parse.{
  positive, use_zstd, level, want_tty, shell_command, parse_option, parse_options,
}
use ovh_ttyrec.Ttyrec.CommandLine.Check.{is_given}

-- A property of the settings, where there are any.
abbrev pub HoldsOf : (Settings → Type 0) → Parsed → Type 0
HoldsOf P (goes_on s) = P s
HoldsOf P (stops e) = Unit

-- What the loop over the options guarantees.
pub record AreParsed (s : Settings) : Type 0 where
  pub lock_positive : pos 0 ≤ℤ s.timeout_lock
  pub kill_positive : pos 0 ≤ℤ s.timeout_kill
  pub level_in_range : (pos 0 ≤ℤ s.opt_compress_level) × (s.opt_compress_level ≤ℤ pos 19)
  pub tty_in_range : s.opt_want_tty ≤ 2
  pub legacy_command : s.legacy ≡ true → is_given s.command ≡ true

module _ (strtol : Text → Option ℤ) (have_zstd have_openpty : Bool) (shell : Text) where
  positive-HoldsOf :
      (P : Settings → Type 0) (arg : Text) (set : ℤ → Settings)
      → ((n : ℤ) → pos 0 <ℤ n → P (set n))
      → HoldsOf P (positive strtol have_zstd have_openpty shell arg set)
  unfolding positive
  positive-HoldsOf P arg set h = elim (Option-cases (strtol arg)) [
    | inl e ↦ rw (e, positive) tt
    | inr (n, e) ↦
        rw (e, positive)
          (elim (Bool-cases (leb_ℤ n (pos 0))) [
            | inl bad ↦ rw bad tt
            | inr good ↦ rw good (h n (ground (arith, good)))
          ])
  ]

  level-AreParsed :
      (arg : Text) (s : Settings)
      → AreParsed s
      → HoldsOf AreParsed (level strtol have_zstd have_openpty shell arg s)
  unfolding level
  level-AreParsed arg s h = elim (Option-cases (strtol arg)) [
    | inl e ↦ rw (e, level) tt
    | inr (n, e) ↦
        rw (e, level)
          (elim (Bool-cases (ltb_ℤ n (pos 1) || ltb_ℤ (pos 19) n)) [
            | inl bad ↦ rw bad tt
            | inr good ↦ rw good (ground (arith, good, h))
          ])
  ]

  zstd-AreParsed :
      (fails : Parsed) (s : Settings)
      → AreParsed s
      → HoldsOf AreParsed fails
      → HoldsOf AreParsed (use_zstd strtol have_zstd have_openpty shell fails s)
  unfolding use_zstd set_compress_mode
  zstd-AreParsed fails s h k = elim (Bool-cases have_zstd) [
    | inl e ↦ rw e (ground (arith, h))
    | inr e ↦ rw e k
  ]

  tty-AreParsed :
      (arg : Text) (s : Settings)
      → AreParsed s
      → HoldsOf AreParsed (want_tty strtol have_zstd have_openpty shell arg s)
  unfolding want_tty
  tty-AreParsed arg s h = ground (arith, h)

  command-AreParsed :
      (arg : Text) (s : Settings)
      → AreParsed s
      → HoldsOf AreParsed (shell_command strtol have_zstd have_openpty shell arg s)
  unfolding shell_command
  command-AreParsed arg s h = ground (arith, h)

  flush-AreParsed :
      (arg : Text) (s : Settings)
      → AreParsed s
      → HoldsOf AreParsed (parse_option strtol have_zstd have_openpty shell (max_flush_time arg) s)
  unfolding parse_option positive
  flush-AreParsed arg s h = elim (Bool-cases have_zstd) [
    | inl e ↦ rw e (
        positive-HoldsOf AreParsed arg (λ n. record s { zstd_max_flush_seconds = n })
          (λ n p. ground (arith, h)))
    | inr e ↦ rw e h
  ]

  -- Every option keeps what the loop guarantees.
  parse_option-AreParsed :
      (opt : Opt) (s : Settings)
      → AreParsed s
      → HoldsOf AreParsed (parse_option strtol have_zstd have_openpty shell opt s)
  unfolding parse_option
  parse_option-AreParsed zstd s h = zstd-AreParsed (stops failed) s h tt
  parse_option-AreParsed stealth_stdout s h = ground (arith, h)
  parse_option-AreParsed stealth_stderr s h = ground (arith, h)
  parse_option-AreParsed unknown_long s h = tt
  parse_option-AreParsed opt_big_z s h = zstd-AreParsed (goes_on s) s h h
  parse_option-AreParsed opt_v s h = ground (arith, h)
  parse_option-AreParsed opt_a s h = ground (arith, h)
  parse_option-AreParsed opt_big_c s h = ground (arith, h)
  parse_option-AreParsed opt_c s h = ground (arith, h)
  parse_option-AreParsed opt_u s h = h
  parse_option-AreParsed opt_p s h = ground (arith, h)
  parse_option-AreParsed opt_n s h = ground (arith, h)
  parse_option-AreParsed opt_big_v s h = tt
  parse_option-AreParsed other s h = tt
  parse_option-AreParsed (opt_e arg) s h = command-AreParsed arg s h
  parse_option-AreParsed (opt_d arg) s h = ground (arith, h)
  parse_option-AreParsed (opt_f arg) s h = ground (arith, h)
  parse_option-AreParsed (opt_z arg) s h = ground (arith, h)
  parse_option-AreParsed (opt_big_f arg) s h = ground (arith, h)
  parse_option-AreParsed (opt_s arg) s h = ground (arith, h)
  parse_option-AreParsed (max_flush_time arg) s h = flush-AreParsed arg s h
  parse_option-AreParsed (warn_before_lock arg) s h =
      positive-HoldsOf AreParsed arg (λ n. record s { warn_before_lock_seconds = n })
        (λ n p. ground (arith, h, p))
  parse_option-AreParsed (warn_before_kill arg) s h =
      positive-HoldsOf AreParsed arg (λ n. record s { warn_before_kill_seconds = n })
        (λ n p. ground (arith, h, p))
  parse_option-AreParsed (opt_t arg) s h =
      positive-HoldsOf AreParsed arg (λ n. record s { timeout_lock = n })
        (λ n p. ground (arith, h, p))
  parse_option-AreParsed (opt_k arg) s h =
      positive-HoldsOf AreParsed arg (λ n. record s { timeout_kill = n })
        (λ n p. ground (arith, h, p))
  parse_option-AreParsed (opt_l arg) s h = level-AreParsed arg s h
  parse_option-AreParsed (opt_big_t arg) s h = tty-AreParsed arg s h

  pub parse_options-AreParsed :
      (opts : List Opt) (s : Settings)
      → AreParsed s
      → HoldsOf AreParsed (parse_options strtol have_zstd have_openpty shell opts s)
  unfolding parse_options
  parse_options-AreParsed [] s h = h
  parse_options-AreParsed (opt ∷ opts) s h =
      by_option (parse_option strtol have_zstd have_openpty shell opt s) refl
        (parse_option-AreParsed opt s h) (λ s'. parse_options-AreParsed opts s')
    where
      by_option :
          (next : Parsed)
          → parse_option strtol have_zstd have_openpty shell opt s ≡ next
          → HoldsOf AreParsed next
          → ((s' : Settings)
              → AreParsed s'
              → HoldsOf AreParsed (parse_options strtol have_zstd have_openpty shell opts s'))
          → HoldsOf AreParsed (parse_options strtol have_zstd have_openpty shell (opt ∷ opts) s)
      by_option (goes_on s') e g later = rw (e, parse_options) (later s' g)
      by_option (stops x) e g later = rw (e, parse_options) tt
