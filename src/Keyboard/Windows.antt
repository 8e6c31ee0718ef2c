-- ===== src/Keyboard/Windows.antt =====
-- Opening and closing a terminal keep the kernel valid: a shell is made or kept, and the shells that
-- are seen get a fresh prompt at their new width.
use crab_os.Prelude.{
  ℕ, zero, suc, min, ◌≤◌, ◌≡◌, refl, sym, subst, Bool, true, false, Option, some, none, [], arith,
  inl, inr,
}
use crab_os.Vga.Console.{Writer, buffer_width}
use crab_os.Vga.Console.Bounds.{Grid}
use crab_os.Vga.Console.Redraw.{min_columns}
use crab_os.Desktop.Pairs.{Two, put}
use crab_os.Desktop.Layout.{columns_for}
use crab_os.Desktop.Terminals.Windows.{close_terminal-Closes}
use crab_os.Desktop.Terminals.Opening.{Opens, open_terminal-cases}
use crab_os.Shell.Commands.{Machine}
use crab_os.Shell.Session.{Shell}
use crab_os.Shell.Loop.Start.{Sized, new-Leaves}
use crab_os.Keyboard.{Kernel, close_at, close_active, start_shell, opened_at, open_another}
use crab_os.Keyboard.Valid.{Serves, Terminal, KernelValid, Keeps, Serves-Terminal}
use crab_os.Keyboard.Resize.{Pending, with_zeroth, with_first, resize-Keeps}
use crab_os.Keyboard.Events.{if_open-Keeps}

-- A console with its lines, and the width that the desktop gives it.
columns_for_range :
    (a b : Bool) → (min_columns ≤ columns_for a b) × (columns_for a b ≤ buffer_width)
columns_for_range false b = omega arith
columns_for_range true false = omega arith
columns_for_range true true = omega arith

resized-Sized :
    (old new : Writer) (a b : Bool)
    → Sized old
    → new.lines ≡ old.lines
    → new.columns ≡ columns_for a b
    → Sized new
resized-Sized old new a b z lines columns = record {
  grid = subst Grid (sym lines) z.grid;
  columns = let r = columns_for_range a b in omega arith;
}

-- A terminal that is still open after a change was open before, and has its shell.
still-Pending :
    {before after : Bool} {shell : Option Shell} {old new : Writer}
    → Terminal before shell old
    → (after ≡ true → before ≡ true)
    → Sized new
    → Pending false after shell new
still-Pending t still sized = record {
  sized = sized;
  remembers = t.remembers;
  there = λ o. let s = t.serves (still o) in (s.is, s.there);
  serves = λ e. cc;
}

-- What `put` of a closed terminal leaves open was open.
put_closed :
    (t u : Two Bool) (index : ℕ)
    → put t index false ≡ some u
    → (u.zeroth ≡ true → t.zeroth ≡ true) × (u.first ≡ true → t.first ≡ true)
put_closed t u zero e = let e' : record t { zeroth = false } ≡ u = cc in (λ h. cc, λ h. cc)
put_closed t u (suc zero) e = let e' : record t { first = false } ≡ u = cc in (λ h. cc, λ h. cc)
put_closed t u (suc (suc index)) e = cc

module _ {Decoder : Type 0} where
  pub close_at-Keeps : (index : ℕ) (k : Kernel Decoder) → KernelValid k → Keeps (close_at index k)
  unfolding close_at
  close_at-Keeps index k v =
      let c = close_terminal-Closes k.screen index v.desktop in
      let still =
        put_closed k.screen.desktop.is_open c.after.desktop.is_open (min index 1) c.closed in
      let k1 = record k { screen = c.after } in
      let a = c.arranged in
      let r =
        resize-Keeps none k1 a.valid
          (still-Pending v.zeroth still.0 (
            resized-Sized k.screen.terminals.zeroth c.after.terminals.zeroth
              c.after.desktop.is_open.zeroth c.after.desktop.is_open.first v.zeroth.sized
              c.same_lines.zeroth a.synced.zeroth))
          (still-Pending v.first still.1 (
            resized-Sized k.screen.terminals.first c.after.terminals.first
              c.after.desktop.is_open.first c.after.desktop.is_open.zeroth v.first.sized
              c.same_lines.first a.synced.first)) in
      record { after = r.after; returns = rw c.returns r.returns; valid = r.valid }

  pub close_active-Keeps : (k : Kernel Decoder) → KernelValid k → Keeps (close_active k)
  unfolding close_active
  close_active-Keeps k v =
      let active = k.screen.desktop.active in
      if_open-Keeps active k (close_at active k) v.desktop.sound.active v
        (λ o. close_at-Keeps active k v)

  -- Both consoles after the desktop has opened a terminal.
  opened-Sized :
      (index : ℕ) (k : Kernel Decoder) (o : Opens k.screen index)
      → KernelValid k
      → Sized o.after.terminals.zeroth × Sized o.after.terminals.first
  opened-Sized index k o v = (
    resized-Sized k.screen.terminals.zeroth o.after.terminals.zeroth o.after.desktop.is_open.zeroth
        o.after.desktop.is_open.first v.zeroth.sized o.same_lines.zeroth o.arranged.synced.zeroth,
    resized-Sized k.screen.terminals.first o.after.terminals.first o.after.desktop.is_open.first
        o.after.desktop.is_open.zeroth v.first.sized o.same_lines.first o.arranged.synced.first,
  )

  open_zeroth :
      (m : Machine) (k : Kernel Decoder) (o : Opens k.screen 0) (found : Option Shell)
      → KernelValid k
      → k.shells.zeroth ≡ found
      → Keeps (start_shell m 0 found (record k { screen = o.after }))
  open_zeroth m k o (some is) v there =
      let (sized, other) = opened-Sized 0 k o v in
      let still : o.after.desktop.is_open.first ≡ true → k.screen.desktop.is_open.first ≡ true =
        λ h.
          let e : record (k.screen.desktop.is_open) { zeroth = true } ≡ o.after.desktop.is_open =
            let p = o.opened in cc in
          cc in
      resize-Keeps none (record k { screen = o.after }) o.arranged.valid
        (record {
          sized = sized;
          remembers = v.zeroth.remembers;
          there = λ _. (is, there);
          serves = λ e. cc;
        })
        (still-Pending v.first still other)
  open_zeroth m k o none v there =
      let (sized, other) = opened-Sized 0 k o v in
      let still : o.after.desktop.is_open.first ≡ true → k.screen.desktop.is_open.first ≡ true =
        λ h.
          let e : record (k.screen.desktop.is_open) { zeroth = true } ≡ o.after.desktop.is_open =
            let p = o.opened in cc in
          cc in
      let q = new-Leaves m o.after.terminals.zeroth sized in
      let serves : Serves (some q.after.shell) q.after.console = record {
        is = q.after.shell;
        there = refl;
        text = _;
        entries = [];
        ready = q.ready;
      } in
      let t = Serves-Terminal {is_open = true} serves in
      let k2 = with_zeroth (record k { screen = o.after }) 0 q.after in
      let r =
        resize-Keeps (some 0) k2 o.arranged.valid
          (record {
            sized = t.sized;
            remembers = t.remembers;
            there = λ _. (q.after.shell, refl);
            serves = λ _. serves;
          })
          (still-Pending v.first still other) in
      record { after = r.after; returns = rw q.returns r.returns; valid = r.valid }

  open_first :
      (m : Machine) (k : Kernel Decoder) (o : Opens k.screen 1) (found : Option Shell)
      → KernelValid k
      → k.shells.first ≡ found
      → Keeps (start_shell m 1 found (record k { screen = o.after }))
  open_first m k o (some is) v there =
      let (other, sized) = opened-Sized 1 k o v in
      let still : o.after.desktop.is_open.zeroth ≡ true → k.screen.desktop.is_open.zeroth ≡ true =
        λ h.
          let e : record (k.screen.desktop.is_open) { first = true } ≡ o.after.desktop.is_open =
            let p = o.opened in cc in
          cc in
      resize-Keeps none (record k { screen = o.after }) o.arranged.valid
        (still-Pending v.zeroth still other)
        (record {
          sized = sized;
          remembers = v.first.remembers;
          there = λ _. (is, there);
          serves = λ e. cc;
        })
  open_first m k o none v there =
      let (other, sized) = opened-Sized 1 k o v in
      let still : o.after.desktop.is_open.zeroth ≡ true → k.screen.desktop.is_open.zeroth ≡ true =
        λ h.
          let e : record (k.screen.desktop.is_open) { first = true } ≡ o.after.desktop.is_open =
            let p = o.opened in cc in
          cc in
      let q = new-Leaves m o.after.terminals.first sized in
      let serves : Serves (some q.after.shell) q.after.console = record {
        is = q.after.shell;
        there = refl;
        text = _;
        entries = [];
        ready = q.ready;
      } in
      let t = Serves-Terminal {is_open = true} serves in
      let k2 = with_first (record k { screen = o.after }) 1 q.after in
      let r =
        resize-Keeps (some 1) k2 o.arranged.valid (still-Pending v.zeroth still other) (record {
          sized = t.sized;
          remembers = t.remembers;
          there = λ _. (q.after.shell, refl);
          serves = λ _. serves;
        }) in
      record { after = r.after; returns = rw q.returns r.returns; valid = r.valid }

  opened_at-Keeps :
      (m : Machine) (index : ℕ) (k : Kernel Decoder) (o : Opens k.screen index)
      → KernelValid k
      → Keeps (opened_at m (some index) (record k { screen = o.after }))
  opened_at-Keeps m zero k o v = open_zeroth m k o k.shells.zeroth v refl
  opened_at-Keeps m (suc zero) k o v = open_first m k o k.shells.first v refl
  opened_at-Keeps m (suc (suc index)) k o v = absurd (let b = o.below_two in omega arith)

  pub open_another-Keeps :
      (m : Machine) (k : Kernel Decoder) → KernelValid k → Keeps (open_another m k)
  unfolding open_another
  open_another-Keeps m k v = elim (open_terminal-cases k.screen v.desktop) [
    | inl (both, e) ↦ record { after = k; returns = rw e refl; valid = v }
    | inr (index, o) ↦
        let r = opened_at-Keeps m index k o v in
        record { after = r.after; returns = rw o.returns r.returns; valid = r.valid }
  ]
