-- ===== src/Ttyrec/CommandLine/Complete.antt =====
-- The settings behind the checks of `main`.
use ovh_ttyrec.Base.{
  Bool, Bool-cases, List, Option, [], arith, inl, inr, pos, refl, some, true, ℤ, ◌&&◌, ◌<ℤ◌, ◌||◌,
  ◌∷◌, ◌≡◌, ◌≤ℤ◌,
}
use ovh_ttyrec.Ttyrec.CommandLine.{Text, Opt, Settings, Parsed, goes_on, stops, defaults}
use ovh_ttyrec.Ttyrec.CommandLine.Parse.{parse_options}
use ovh_ttyrec.Ttyrec.CommandLine.Check.{
  is_given, check_timeouts, check_settings, choose_command, default_dir, settings_of,
}
use ovh_ttyrec.Ttyrec.CommandLine.Accepted.{HoldsOf, AreParsed, parse_options-AreParsed}

-- What the watcher and the rest of the program can rely on.
pub record AreAccepted (s : Settings) : Type 0 where
  pub parsed : AreParsed s
  pub kill_after_lock : pos 0 <ℤ s.timeout_kill → s.timeout_lock ≤ℤ s.timeout_kill
  pub warn_before_lock_fits : s.warn_before_lock_seconds ≤ℤ s.timeout_lock
  pub warn_before_kill_fits : s.warn_before_kill_seconds ≤ℤ s.timeout_kill

check_timeouts-AreAccepted : (s : Settings) → AreParsed s → HoldsOf AreAccepted (check_timeouts s)
unfolding check_timeouts
check_timeouts-AreAccepted s h = ground (arith, h)

check_settings-AreAccepted :
    (pid : Text) (s : Settings) → AreParsed s → HoldsOf AreAccepted (check_settings pid s)
unfolding check_settings
check_settings-AreAccepted pid s h =
    elim (Bool-cases (is_given s.namefmt && (is_given s.dname || is_given s.uuid))) [
      | inl bad ↦ rw bad tt
      | inr good ↦ rw good (elim (Bool-cases (is_given s.uuid)) [
        | inl e ↦ rw e (check_timeouts-AreAccepted s h)
        | inr e ↦
            rw e (check_timeouts-AreAccepted (record s { uuid = some pid }) (ground (arith, h)))
      ])
    ]

-- The settings that the program goes on with.
pub record AreComplete (s : Settings) : Type 0 where
  pub accepted : AreAccepted s
  pub has_command : is_given s.command ≡ true
  pub has_place : is_given s.dname || is_given s.fname ≡ true

default_dir-AreComplete :
    (s : Settings) → AreAccepted s → is_given s.command ≡ true → AreComplete (default_dir s)
unfolding default_dir
default_dir-AreComplete s h c = elim (Bool-cases (is_given s.dname || is_given s.fname)) [
  | inl e ↦ rw e (record { accepted = h; has_command = c; has_place = e })
  | inr e ↦ rw e (record { accepted = ground (arith, h); has_command = c; has_place = refl })
]

choose_command-AreAccepted :
    (shell : Text) (argv : List Text) (s : Settings)
    → AreAccepted s
    → let t = choose_command shell argv s in AreAccepted t × (is_given t.command ≡ true)
unfolding choose_command
choose_command-AreAccepted shell [] s h = elim (Bool-cases s.legacy) [
  | inl e ↦ rw e (ground (arith, h), h.parsed.legacy_command e)
  | inr e ↦ rw e (ground (arith, h), refl)
]
choose_command-AreAccepted shell (a ∷ argv) s h = elim (Bool-cases s.legacy) [
  | inl e ↦ rw e (ground (arith, h), h.parsed.legacy_command e)
  | inr e ↦ rw e (ground (arith, h), refl)
]

-- For all options and arguments, the settings that the program goes on with are in range and fit each
-- other, and there are a command and a place for the recording.
pub settings_of-AreComplete :
    (strtol : Text → Option ℤ) (have_zstd have_openpty : Bool) (shell pid : Text) (opts : List Opt)
    (argv : List Text)
    → HoldsOf AreComplete (settings_of strtol have_zstd have_openpty shell pid opts argv defaults)
unfolding settings_of
settings_of-AreComplete strtol have_zstd have_openpty shell pid opts argv =
    after_parse (parse_options strtol have_zstd have_openpty shell opts defaults)
      (parse_options-AreParsed strtol have_zstd have_openpty shell opts defaults (ground arith))
  where
    after_check :
        (p : Parsed)
        → HoldsOf AreAccepted p
        → HoldsOf AreComplete (elim p [
          | stops e ↦ stops e
          | goes_on s ↦ goes_on (default_dir (choose_command shell argv s))
        ])
    after_check (stops e) h = tt
    after_check (goes_on s) h =
        let chosen = choose_command-AreAccepted shell argv s h in
        default_dir-AreComplete (choose_command shell argv s) chosen.0 chosen.1

    after_parse :
        (p : Parsed)
        → HoldsOf AreParsed p
        → HoldsOf AreComplete (elim p [
          | stops e ↦ stops e
          | goes_on s1 ↦ elim (check_settings pid s1) [
            | stops e ↦ stops e
            | goes_on s2 ↦ goes_on (default_dir (choose_command shell argv s2))
          ]
        ])
    after_parse (stops e) h = tt
    after_parse (goes_on s) h =
        after_check (check_settings pid s) (check_settings-AreAccepted pid s h)
