-- ===== src/Ttyrec/Session.antt =====
-- `lock_session`, `unlock_session` and `do_lock`: the handlers of SIGURG and SIGUSR2.
pub mod Laws
pub mod Storm
use Prim.Native.String.{String}
use ovh_ttyrec.Base.{
  List, Option, [], get_or, if◌then◌else◌, length, ltb, none, not, pos, some, ℕ, ℤ, ◌%◌, ◌*◌, ◌+◌,
  ◌-◌, ◌/◌, ◌==◌, ◌^◌, ◌∷◌,
}
use ovh_ttyrec.Ttyrec.Process.{
  Signal, sigurg, sigusr2, sigwinch, Winsize, Effect, kill, usleep, set_winsize, fputs, print_lock,
  puts, Activity, locked, touch, Process,
}

-- The control codes.
abbrev pub ansi_clear : String
ansi_clear = "\u{1b}[2J"

abbrev pub ansi_home : String
ansi_home = "\u{1b}[H"

abbrev pub ansi_hidecursor : String
ansi_hidecursor = "\u{1b}[?25l"

abbrev pub ansi_showcursor : String
ansi_showcursor = "\u{1b}[?25h"

abbrev pub ansi_save : String
ansi_save = "\u{1b}[?47h"

abbrev pub ansi_restore : String
ansi_restore = "\u{1b}[?47l"

abbrev pub ansi_savecursor : String
ansi_savecursor = "\u{1b}7"

abbrev pub ansi_restorecursor : String
ansi_restorecursor = "\u{1b}8"

-- The other process: the parent for the child, which has a `subchild`, and the child for the parent.
unfoldable pub peer : Process → ℕ
peer p = if ltb 0 p.subchild then p.ppid else p.child

-- `unsigned short` additions of the fields of `struct winsize`.
abbrev pub add16 : ℕ → ℕ → ℕ
add16 a b = (a + b) % 2 ^ 16

abbrev pub sub16 : ℕ → ℕ → ℕ
sub16 a b = (a + 2 ^ 16 - b % 2 ^ 16) % 2 ^ 16

-- The pixels of one row; 0 where the size is unknown.
unfoldable pub pixels_per_row : Winsize → ℕ
pixels_per_row w = if ltb 0 w.ws_row then w.ws_ypixel / w.ws_row else 0

-- One row more, and one row less again.
unfoldable pub one_row_more : Winsize → Winsize
one_row_more w = record {
  ws_row = add16 w.ws_row 1;
  ws_ypixel = add16 w.ws_ypixel (pixels_per_row w);
}

unfoldable pub one_row_less : ℕ → Winsize → Winsize
one_row_less pixels w = record { ws_row = sub16 w.ws_row 1; ws_ypixel = sub16 w.ws_ypixel pixels }

-- What the parent does to make the programs on the terminal draw again; `w` is what TIOCGWINSZ
-- gives, or zeros.
unfoldable pub redraw : ℕ → Winsize → List Effect
redraw child w =
    let bigger = one_row_more w in
    usleep (1000 * 300)
    ∷ set_winsize bigger
    ∷ kill child sigwinch
    ∷ usleep (1000 * 300)
    ∷ set_winsize (one_row_less (pixels_per_row w) bigger)
    ∷ kill child sigwinch
    ∷ []

abbrev pub leave_lock_screen : List Effect
leave_lock_screen = fputs ansi_restore ∷ fputs ansi_restorecursor ∷ fputs ansi_showcursor ∷ []

unfoldable pub unlock_session : ℤ → Winsize → Signal → Process → Process × List Effect
unlock_session now w signal p =
    let touched = touch now p.activity in
    if not (locked p.activity) then (record p { activity = touched }, []) else (
      record p { activity = record touched { locked_since = pos 0 } },
      kill (peer p) signal ∷ (if p.subchild == 0 then redraw p.child w else leave_lock_screen),
    )

abbrev pub salute : List String
salute =
    "Kind regards" ∷ "Your dearest friend" ∷ "Love" ∷ "xoxoxo" ∷ "XoXoXo" ∷ "Respectfully yours"
    ∷ "Best" ∷ "Sincerely yours" ∷ "Take care" ∷ "Cheers" ∷ "With deepest sympathy" ∷ []

-- What the child draws. `rand` is the number that `rand()` gives, and an index out of the table
-- would read the empty text.
unfoldable pub lock_screen : ℤ → ℕ → String → Option String → List Effect
lock_screen now rand hostname custom_message =
    fputs ansi_savecursor
    ∷ fputs ansi_save
    ∷ fputs ansi_clear
    ∷ fputs ansi_home
    ∷ fputs ansi_hidecursor
    ∷ print_lock now (get_or salute (rand % length salute) "") hostname
    ∷ elim custom_message [ none ↦ [] | some text ↦ fputs "\r\n" ∷ puts text ∷ [] ]

unfoldable pub lock_session :
    ℤ → ℕ → String → Option String → Signal → Process → Process × List Effect
lock_session now rand hostname custom_message signal p = if locked p.activity then (p, []) else (
  record p { activity = record p.activity { locked_since = now } },
  kill (peer p) signal
      ∷ (if p.subchild == 0 then [] else lock_screen now rand hostname custom_message),
)

-- Called in the parent.
unfoldable pub do_lock : ℤ → Process → Process × List Effect
do_lock now p =
    (record p { activity = record p.activity { locked_since = now } }, kill p.child sigurg ∷ [])
