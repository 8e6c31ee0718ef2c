-- ===== src/Desktop/Terminals/Opening.antt =====
-- `open_terminal` opens the first terminal that is closed, and closing undoes it.
use crab_os.Prelude.{
  ℕ, zero, suc, min, ◌<◌, ◌≡◌, refl, sym, ◌∙◌, ap, Bool, true, false, not, ◌&&◌, ◌||◌, Bool-cases,
  Option, none, some, inl, inr, ◌⊎◌, arith,
}
use crab_os.Desktop.Pairs.{Two, at, put, position}
use crab_os.Desktop.{Desktop, Screen, Window, window}
use crab_os.Desktop.Layout.{Fits, IsValid}
use crab_os.Desktop.Terminals.{close_terminal, open_terminal, open_at, placed}
use crab_os.Desktop.Terminals.Windows.{Arranged, SameLines, rearranged, close_terminal-Closes}

-- A terminal that was closed has been opened, and is the active one.
pub record Opened (s : Screen) (index : ℕ) (result : Option Screen) : Type 0 where
  pub after : Screen
  pub returns : result ≡ some after
  pub opened : put s.desktop.is_open index true ≡ some after.desktop.is_open
  pub active : after.desktop.active ≡ index
  pub arranged : Arranged after
  pub same_lines : SameLines after.terminals s.terminals

placed-Fits :
    (d : Desktop) (i : ℕ)
    → i < 2
    → Fits d.windows.zeroth
    → Fits d.windows.first
    → (t : Two Window) × (placed d i ≡ some t) × Fits t.zeroth × Fits t.first
placed-Fits d zero h f g = elim (Bool-cases (d.is_open.zeroth || d.is_open.first)) [
  | inl e ↦
      (record { zeroth = window 1 4; first = window 41 4 }, rw e refl, omega arith, omega arith)
  | inr e ↦ (record (d.windows) { zeroth = window 3 4 }, rw e refl, omega arith, g)
]
placed-Fits d (suc zero) h f g = elim (Bool-cases (d.is_open.zeroth || d.is_open.first)) [
  | inl e ↦
      (record { zeroth = window 1 4; first = window 41 4 }, rw e refl, omega arith, omega arith)
  | inr e ↦ (record (d.windows) { first = window 3 4 }, rw e refl, f, omega arith)
]
placed-Fits d (suc (suc i)) h f g = absurd (omega arith)

put-open :
    (t : Two Bool) (i : ℕ)
    → i < 2
    → (t' : Two Bool) × (put t i true ≡ some t') × (at t' i ≡ some true)
put-open t zero h = (record t { zeroth = true }, refl, refl)
put-open t (suc zero) h = (record t { first = true }, refl, refl)
put-open t (suc (suc i)) h = absurd (omega arith)

open_at-Opened : (s : Screen) (i : ℕ) → IsValid s.desktop → i < 2 → Opened s i (open_at s i)
unfolding open_at
open_at-Opened s i v h =
    let d = s.desktop in
    let (windows, p, f, g) = placed-Fits d i h v.sound.zeroth v.sound.first in
    let (opens, q, o) = put-open d.is_open i h in
    let (t, r, a, lines) = rearranged s opens windows i v f g h (λ _. o) in
    record {
      after = record s {
        desktop = record d { windows = windows; drag = none; is_open = opens; active = i };
        terminals = t;
        active_terminal = min i 1;
      };
      returns = rw p (rw q (rw r refl));
      opened = q;
      active = refl;
      arranged = a;
      same_lines = lines;
    }

-- Where both are open nothing changes. Otherwise the first one that is closed is opened.
pub record Opens (s : Screen) (index : ℕ) : Type 0 where
  pub below_two : index < 2
  pub was_closed : at s.desktop.is_open index ≡ some false
  pub is_first : index ≡ 1 → s.desktop.is_open.zeroth ≡ true
  pub after : Screen
  pub returns : open_terminal s ≡ some (after, some index)
  pub opened : put s.desktop.is_open index true ≡ some after.desktop.is_open
  pub active : after.desktop.active ≡ index
  pub arranged : Arranged after
  pub same_lines : SameLines after.terminals s.terminals

-- `open_terminal` never panics on a valid desktop. Where both terminals are open it returns `None` and changes nothing.
-- Otherwise it opens the first one that is closed, and returns its index: the other one stays as it
-- was, the new one is active and takes the output, each console gets the width of its window, and
-- the desktop stays valid.
pub open_terminal-cases :
    (s : Screen)
    → IsValid s.desktop
    → (((s.desktop.is_open.zeroth && s.desktop.is_open.first) ≡ true)
        × (open_terminal s ≡ some (s, none)))
      ⊎ ((index : ℕ) × Opens s index)
unfolding open_terminal
open_terminal-cases s v = elim (Bool-cases s.desktop.is_open.zeroth) [
  | inr ea ↦
      let p : position not s.desktop.is_open ≡ some 0 = rw ea refl in
      let r = open_at-Opened s 0 v (omega arith) in
      inr (
        0,
        record {
          below_two = omega arith;
          was_closed = ap some ea;
          is_first = λ e. absurd (omega arith);
          after = r.after;
          returns = rw (open_terminal, p) (rw r.returns refl);
          opened = r.opened;
          active = r.active;
          arranged = r.arranged;
          same_lines = r.same_lines;
        },
      )
  | inl ea ↦ elim (Bool-cases s.desktop.is_open.first) [
    | inr eb ↦
        let p : position not s.desktop.is_open ≡ some 1 = rw (ea, eb) refl in
        let r = open_at-Opened s 1 v (omega arith) in
        inr (
          1,
          record {
            below_two = omega arith;
            was_closed = ap some eb;
            is_first = λ _. ea;
            after = r.after;
            returns = rw (open_terminal, p) (rw r.returns refl);
            opened = r.opened;
            active = r.active;
            arranged = r.arranged;
            same_lines = r.same_lines;
          },
        )
    | inl eb ↦
        let p : position not s.desktop.is_open ≡ none = rw (ea, eb) refl in
        inl (rw (ea, eb) refl, rw (open_terminal, p) refl)
  ]
]

put_back :
    (t t' t'' : Two Bool) (i : ℕ)
    → i < 2
    → at t i ≡ some false
    → put t i true ≡ some t'
    → put t' (min i 1) false ≡ some t''
    → t'' ≡ t
put_back t t' t'' zero h e p q =
    let a : record t { zeroth = true } ≡ t' = cc in
    let b : record t' { zeroth = false } ≡ t'' = cc in
    let z : t.zeroth ≡ false = cc in
    sym b
    ∙ ap (λ (u : Two Bool). record u { zeroth = false }) (sym a)
    ∙ ap (λ (z : Bool). record t { zeroth = z }) (sym z)
put_back t t' t'' (suc zero) h e p q =
    let a : record t { first = true } ≡ t' = cc in
    let b : record t' { first = false } ≡ t'' = cc in
    let z : t.first ≡ false = cc in
    sym b
    ∙ ap (λ (u : Two Bool). record u { first = false }) (sym a)
    ∙ ap (λ (z : Bool). record t { first = z }) (sym z)
put_back t t' t'' (suc (suc i)) h e p q = absurd (omega arith)

-- Closing the terminal that `open_terminal` has just opened leaves the same terminals open as before.
close_terminal-Opens :
    (s : Screen) (index : ℕ) (o : Opens s index)
    → (s' : Screen) × (close_terminal o.after index ≡ some s')
      × (s'.desktop.is_open ≡ s.desktop.is_open)
close_terminal-Opens s index o =
    let c = close_terminal-Closes o.after index o.arranged.valid in
    (c.after, c.returns, put_back _ _ _ index o.below_two o.was_closed o.opened c.closed)
