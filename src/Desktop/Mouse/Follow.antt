-- ===== src/Desktop/Mouse/Follow.antt =====
-- A window that is dragged follows the pointer, and stays on the screen.
use crab_os.Prelude.{
  ℕ, zero, suc, ◌≡◌, refl, ap, Bool, true, Option, some, arith, int_laws, pos, ◌-ℤ◌, InRange, clamp,
  clamp-InRange,
}
use crab_os.Desktop.Pairs.{Two, at, put}
use crab_os.Desktop.{Desktop, Window, Drag, Rect, layout, screen_w, screen_h, window_w, window_h}
use crab_os.Desktop.Layout.{Fits, OnScreen, Layout, layout-Layout, Held}
use crab_os.Desktop.Mouse.{follow}

-- The windows after a step of a drag: the held window, as `layout` draws it, goes where the pointer holds
-- it, cut so that its whole width stays on the screen.
pub record Follows (d : Desktop) (g : Drag) (result : Option Desktop) : Type 0 where
  pub rects : Two (Option Rect)
  pub drawn : layout d ≡ some rects
  pub rect : Rect
  pub held : at rects g.index ≡ some (some rect)
  pub to : Window
  pub placed : Two Window
  pub returns : result ≡ some (record d { windows = placed })
  pub wide : InRange (pos 38) window_w rect.width
  pub clamp_x : clamp (d.pointer_x -ℤ g.offset_x) (pos 0) (screen_w -ℤ rect.width) ≡ some to.x
  pub clamp_y : clamp (d.pointer_y -ℤ g.offset_y) (pos 1) (pos 4) ≡ some to.y
  pub put_to : put d.windows g.index to ≡ some placed
  pub zeroth : Fits placed.zeroth
  pub first : Fits placed.first

-- The rectangle of an open terminal.
rect_of :
    (d : Desktop) (l : Layout d (layout d)) (i : ℕ)
    → at d.is_open i ≡ some true
    → (r : Rect) × (at l.rects i ≡ some (some r)) × OnScreen r
rect_of d l zero e = let (r, f, o) = l.zeroth.shown cc in (r, ap some f, o)
rect_of d l (suc zero) e = let (r, f, o) = l.first.shown cc in (r, ap some f, o)
rect_of d l (suc (suc i)) e = absurd cc

put-Fits :
    (t : Two Window) (i : ℕ) (is_open : Two Bool) (w : Window)
    → at is_open i ≡ some true
    → Fits t.zeroth
    → Fits t.first
    → Fits w
    → (t' : Two Window) × (put t i w ≡ some t') × Fits t'.zeroth × Fits t'.first
put-Fits t zero is_open w e f g h = (record t { zeroth = w }, refl, h, g)
put-Fits t (suc zero) is_open w e f g h = (record t { first = w }, refl, f, h)
put-Fits t (suc (suc i)) is_open w e f g h = absurd cc

lowest : screen_h -ℤ window_h -ℤ pos 1 ≡ pos 4
unfolding ◌-ℤ◌
lowest = refl

-- A step of a drag of a held window panics nowhere. The window goes to where the pointer holds it, cut so
-- that the window as `layout` draws it, with its width there, stays on the screen.
pub follow-Follows :
    (d : Desktop) (g : Drag)
    → Fits d.windows.zeroth
    → Fits d.windows.first
    → Held d.is_open g
    → Follows d g (follow d (some g))
unfolding follow
follow-Follows d g f0 f1 h =
    let l = layout-Layout d f0 f1 in
    let (r, e, o) = rect_of d l g.index h.held_open in
    let w = o.wide in
    let (x, cx, ix) =
      clamp-InRange (d.pointer_x -ℤ g.offset_x) (pos 0) (screen_w -ℤ r.width) (omega int_laws) in
    let (y, cy, iy) = clamp-InRange (d.pointer_y -ℤ g.offset_y) (pos 1) (pos 4) (omega arith) in
    let fits : Fits (record { x = x; y = y }) = (omega int_laws, iy) in
    let (t, p, g0, g1) = put-Fits d.windows g.index d.is_open _ h.held_open f0 f1 fits in
    record {
      rects = l.rects;
      drawn = l.returns;
      rect = r;
      held = e;
      to = record { x = x; y = y };
      placed = t;
      returns = rw l.returns (rw e (rw cx (rw lowest (rw cy (rw p refl)))));
      wide = o.wide;
      clamp_x = cx;
      clamp_y = cy;
      put_to = p;
      zeroth = g0;
      first = g1;
    }
