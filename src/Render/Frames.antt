-- ===== src/Render/Frames.antt =====
-- `render_desktop_inner` draws the whole frame in range, on a valid desktop.
use crab_os.Prelude.{
  ℕ, zero, suc, ◌+◌, ◌-◌, ◌*◌, ◌≤◌, ◌<◌, ◌≡◌, refl, min, Bool, true, false, ◌&&◌, Option, some,
  none, [], ◌∷◌, arith, int_laws, leb, ltb, pos, pos_part, neg_part, negsuc, ℤ, subst, ◌≤ℤ◌,
  length-replicate,
}
use crab_os.Vga.Console.{
  Writer, white, light_blue, blue, buffer_width, buffer_height, terminal_rows,
}
use crab_os.Vga.Console.Bounds.{Grid}
use crab_os.Desktop.Pairs.{at}
use crab_os.Desktop.{Screen, Rect, layout}
use crab_os.Desktop.Layout.{IsValid, Shown, OnScreen, Layout, layout-Layout}
use crab_os.Render.{Frame, screen_cells, cell, draw_terminal, draw_cursor, filled, draw_frame}
use crab_os.Render.Cells.{
  Draws, Whole, bind-Draws, same-Draws, if-Draws, draw_cell-Draws, draw_window-Draws,
  copy_rows-Draws, color_cell-Draws, background-Draws,
}

-- A window of the layout lies on the screen, as the renderer counts.
pub record Inside (r : Rect) : Type 0 where
  pub low : pos_part r.y + 19 < buffer_height
  pub right : pos_part r.x + pos_part r.width ≤ buffer_width
  pub wide : 38 ≤ pos_part r.width

neg_part_zero : (a : ℤ) → pos 0 ≤ℤ a → neg_part a ≡ 0
neg_part_zero (pos n) h = refl
neg_part_zero (negsuc n) h = absurd (omega arith)

OnScreen-Inside : (r : Rect) → OnScreen r → Inside r
OnScreen-Inside r o =
    let x = neg_part_zero r.x o.left in
    let y = neg_part_zero r.y (omega (int_laws, o.top)) in
    let w = neg_part_zero r.width (omega (int_laws, o.wide.0)) in
    record {
      low = let a = o.bottom in omega int_laws;
      right = let a = o.right in let c = o.wide in omega int_laws;
      wide = let c = o.wide in omega int_laws;
    }

-- The screen can be drawn: a valid desktop, and consoles with their grids.
pub record Drawable (s : Screen) : Type 0 where
  pub desktop : IsValid s.desktop
  pub zeroth : Grid s.terminals.zeroth.lines
  pub first : Grid s.terminals.first.lines

terminal_at :
    (s : Screen) (index : ℕ)
    → Drawable s
    → index < 2
    → (w : Writer) × (at s.terminals index ≡ some w) × Grid w.lines
terminal_at s zero v h = (s.terminals.zeroth, refl, v.zeroth)
terminal_at s (suc zero) v h = (s.terminals.first, refl, v.first)
terminal_at s (suc (suc index)) v h = absurd (omega arith)

-- What the layout gives a terminal, if anything, lies on the screen.
pub InsideIf : Option Rect → Type 0
InsideIf none = Unit
InsideIf (some r) = Inside r

shown_inside : (b : Bool) (rect : Option Rect) → Shown b rect → InsideIf rect
unfolding InsideIf
shown_inside b none h = tt
shown_inside true (some r) h =
    let (r', e, o) = h.shown refl in
    let same : r' ≡ r = cc in subst Inside same (OnScreen-Inside r' o)
shown_inside false (some r) h = let e = h.hidden refl in cc

rect_at :
    (s : Screen) (l : Layout s.desktop (layout s.desktop)) (index : ℕ)
    → index < 2
    → (rect : Option Rect) × (at l.rects index ≡ some rect) × InsideIf rect
rect_at s l zero h = (l.rects.zeroth, refl, shown_inside _ _ l.zeroth)
rect_at s l (suc zero) h = (l.rects.first, refl, shown_inside _ _ l.first)
rect_at s l (suc (suc index)) h = absurd (omega arith)

module _ (s : Screen) (v : Drawable s) (index : ℕ) (h : index < 2) where
  terminal-Draws :
      (rect : Option Rect) (frame : Frame)
      → InsideIf rect
      → Whole frame
      → Draws (draw_terminal s index rect frame)
  unfolding draw_terminal InsideIf
  terminal-Draws none frame inside whole = same-Draws frame whole
  terminal-Draws (some r) frame inside whole =
      let (w, e, grid) = terminal_at s index v h in
      bind-Draws _ _
        (draw_window-Draws (pos_part r.x) (pos_part r.y) (pos_part r.width) s.desktop.active index
          frame inside.low whole)
        λ f1 w1.
          let d =
            copy_rows-Draws (pos_part r.x) (pos_part r.y) (pos_part r.width) w grid f1 inside.low
              inside.right w1 in
          record { frame = d.frame; returns = rw e d.returns; size = d.size }

  cursor-Draws :
      (rect : Option Rect) (frame : Frame)
      → InsideIf rect
      → Whole frame
      → Draws (draw_cursor s index rect frame)
  unfolding draw_cursor InsideIf
  cursor-Draws none frame inside whole = same-Draws frame whole
  cursor-Draws (some r) frame inside whole =
      let (w, e, grid) = terminal_at s index v h in
      let row = w.cursor.line - w.view_top in
      let d =
        if-Draws (leb w.view_top w.cursor.line && ltb row terminal_rows) _ _
          (λ seen.
            color_cell-Draws frame
              ((pos_part r.y + 2 + row) * buffer_width
                + pos_part r.x
                + 1
                + min w.cursor.column (pos_part r.width - 3))
              whole
              (let low = inside.low in
                let right = inside.right in
                let wide = inside.wide in
                let seen' : row < terminal_rows = ground arith in omega arith))
          (λ hidden. same-Draws frame whole) in
      record { frame = d.frame; returns = rw e d.returns; size = d.size }

filled-Whole : Whole filled
unfolding filled
filled-Whole = length-replicate screen_cells (cell b' ' light_blue blue)

-- On a valid desktop, with consoles of 128 lines of 80 cells, the renderer panics nowhere: every store
-- of a cell, of the background, the windows, the text, the cursor and the pointer, lies in the frame.
pub draw_frame-Draws : (s : Screen) → Drawable s → Draws (draw_frame s)
unfolding draw_frame
draw_frame-Draws s v =
    let l = layout-Layout s.desktop v.desktop.sound.zeroth v.desktop.sound.first in
    let active = s.desktop.active in
    let below_two = v.desktop.sound.active in
    let (below, e1, inside1) = rect_at s l (1 - active) (omega arith) in
    let (above, e2, inside2) = rect_at s l active below_two in
    let f1 = background-Draws filled filled-Whole in
    let f2 = terminal-Draws s v (1 - active) (omega arith) below f1.frame inside1 f1.size in
    let f3 = terminal-Draws s v active below_two above f2.frame inside2 f2.size in
    let f4 = cursor-Draws s v active below_two above f3.frame inside2 f3.size in
    let f5 =
      draw_cell-Draws (b'+' ∷ []) f4.frame (pos_part s.desktop.pointer_y)
        (pos_part s.desktop.pointer_x) white blue f4.size
        (let y = v.desktop.sound.pointer_y in
          let z = neg_part_zero s.desktop.pointer_y y.0 in omega (arith, y.1)) in
    record {
      frame = f5.frame;
      returns =
          rw f1.returns (
            rw l.returns
              (rw e1 (rw e2 (rw f2.returns (rw f3.returns (rw f4.returns f5.returns))))));
      size = f5.size;
    }
