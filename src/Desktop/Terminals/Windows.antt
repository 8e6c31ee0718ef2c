-- ===== src/Desktop/Terminals/Windows.antt =====
-- Opening and closing keep the desktop valid, and set the widths of the consoles.
use crab_os.Prelude.{
  ℕ, zero, suc, min, ◌<◌, ◌≡◌, refl, Bool, true, false, not, ◌||◌, Option, none, some, arith,
  if◌then◌else◌,
}
use crab_os.Vga.Console.{Writer, set_columns}
use crab_os.Desktop.Pairs.{Two, at, put}
use crab_os.Desktop.{Desktop, Screen, Window}
use crab_os.Desktop.Layout.{Fits, layout-Layout, columns_for, IsValid}
use crab_os.Desktop.Terminals.{sync_terminal_widths, close_terminal}

-- The consoles hold the same lines: only their widths may differ.
pub record SameLines (t u : Two Writer) : Type 0 where
  pub zeroth : t.zeroth.lines ≡ u.zeroth.lines
  pub first : t.first.lines ≡ u.first.lines

-- Each console is as wide as its window inside, or 76 columns without one.
pub record Synced (s : Screen) : Type 0 where
  pub zeroth :
      s.terminals.zeroth.columns ≡ columns_for s.desktop.is_open.zeroth s.desktop.is_open.first
  pub first :
      s.terminals.first.columns ≡ columns_for s.desktop.is_open.first s.desktop.is_open.zeroth

set_columns_for :
    (w : Writer) (a b : Bool) (n : ℕ)
    → n ≡ columns_for a b
    → set_columns w n ≡ some (record w { columns = columns_for a b })
unfolding set_columns
set_columns_for w false b n e = rw e refl
set_columns_for w true false n e = rw e refl
set_columns_for w true true n e = rw e refl

sync-Synced :
    (s : Screen)
    → Fits s.desktop.windows.zeroth
    → Fits s.desktop.windows.first
    → (t : Two Writer) × (sync_terminal_widths s ≡ some (record s { terminals = t }))
      × Synced (record s { terminals = t })
      × SameLines t s.terminals
unfolding sync_terminal_widths
sync-Synced s f g =
    let l = layout-Layout s.desktop f g in
    let a = s.desktop.is_open.zeroth in
    let b = s.desktop.is_open.first in
    (
      record {
        zeroth = record (s.terminals.zeroth) { columns = columns_for a b };
        first = record (s.terminals.first) { columns = columns_for b a };
      },
      rw l.returns (
          rw (set_columns_for s.terminals.zeroth a b _ l.columns_zeroth)
            (rw (set_columns_for s.terminals.first b a _ l.columns_first) refl)),
      record { zeroth = refl; first = refl },
      record { zeroth = refl; first = refl },
    )

-- What holds after a terminal is opened or closed.
pub record Arranged (s : Screen) : Type 0 where
  pub valid : IsValid s.desktop
  pub synced : Synced s
  pub no_drag : s.desktop.drag ≡ none
  pub output : s.active_terminal ≡ s.desktop.active

-- Another choice of open terminals, with an active one among them, and windows that fit.
pub rearranged :
    (s : Screen) (is_open : Two Bool) (windows : Two Window) (active : ℕ)
    → IsValid s.desktop
    → Fits windows.zeroth
    → Fits windows.first
    → active < 2
    → ((is_open.zeroth || is_open.first) ≡ true → at is_open active ≡ some true)
    → (t : Two Writer) × (sync_terminal_widths (record s {
      desktop = record (s.desktop) {
        windows = windows;
        drag = none;
        is_open = is_open;
        active = active;
      };
    })
        ≡ some (record s {
          desktop = record (s.desktop) {
            windows = windows;
            drag = none;
            is_open = is_open;
            active = active;
          };
          terminals = t;
        }))
      × Arranged (record s {
        desktop = record (s.desktop) {
          windows = windows;
          drag = none;
          is_open = is_open;
          active = active;
        };
        terminals = t;
        active_terminal = min active 1;
      })
      × SameLines t s.terminals
rearranged s is_open windows active v f g h o =
    let d : Desktop = record (s.desktop) {
      windows = windows;
      drag = none;
      is_open = is_open;
      active = active;
    } in
    let (t, r, w, lines) = sync-Synced (record s { desktop = d }) f g in
    (
      t,
      r,
      record {
        valid = record {
          sound = record {
            zeroth = f;
            first = g;
            pointer_x = v.sound.pointer_x;
            pointer_y = v.sound.pointer_y;
            motion_x = v.sound.motion_x;
            motion_y = v.sound.motion_y;
            size = v.sound.size;
            active = h;
            active_open = o;
            drag = tt;
          };
          packet_len = v.packet_len;
        };
        synced = record { zeroth = w.zeroth; first = w.first };
        no_drag = refl;
        output = omega arith;
      },
      lines,
    )

pub record Closes (s : Screen) (index : ℕ) (result : Option Screen) : Type 0 where
  pub after : Screen
  pub returns : result ≡ some after
  pub closed : put s.desktop.is_open (min index 1) false ≡ some after.desktop.is_open
  pub arranged : Arranged after
  pub same_windows : after.desktop.windows ≡ s.desktop.windows
  pub same_lines : SameLines after.terminals s.terminals

close_of :
    (s : Screen) (index c : ℕ)
    → IsValid s.desktop
    → min index 1 ≡ c
    → Closes s index (close_terminal s index)
unfolding close_terminal
close_of s index zero v e =
    let d = s.desktop in
    let opens : Two Bool = record (d.is_open) { zeroth = false } in
    let active = if not d.is_open.first then 0 else 1 in
    let (t, r, a, lines) =
      rearranged s opens d.windows active v v.sound.zeroth v.sound.first (ground arith)
        (λ h. ground arith) in
    record {
      after = record s {
        desktop = record d { drag = none; is_open = opens; active = active };
        terminals = t;
        active_terminal = min active 1;
      };
      returns = rw e (rw r refl);
      closed = rw e refl;
      arranged = a;
      same_windows = refl;
      same_lines = lines;
    }
close_of s index (suc zero) v e =
    let d = s.desktop in
    let opens : Two Bool = record (d.is_open) { first = false } in
    let active = if not d.is_open.zeroth then 1 else 0 in
    let (t, r, a, lines) =
      rearranged s opens d.windows active v v.sound.zeroth v.sound.first (ground arith)
        (λ h. ground arith) in
    record {
      after = record s {
        desktop = record d { drag = none; is_open = opens; active = active };
        terminals = t;
        active_terminal = min active 1;
      };
      returns = rw e (rw r refl);
      closed = rw e refl;
      arranged = a;
      same_windows = refl;
      same_lines = lines;
    }
close_of s index (suc (suc c)) v e = absurd (omega arith)

-- Closing a terminal of a valid desktop never panics: it is closed, the other one is as it was, and the windows keep
-- their places. The active terminal, which takes the output, is open if one is left; each console gets
-- the width of its window; the desktop stays valid.
pub close_terminal-Closes :
    (s : Screen) (index : ℕ) → IsValid s.desktop → Closes s index (close_terminal s index)
close_terminal-Closes s index v = close_of s index (min index 1) v refl
