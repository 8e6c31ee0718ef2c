-- ===== src/Render/Cells.antt =====
-- Drawing stays in the frame: every store of a cell is in range, and the frame keeps its size.
use crab_os.Prelude.{
  ℕ, zero, suc, ◌+◌, ◌-◌, ◌*◌, ◌%◌, ◌≤◌, ◌<◌, ◌≡◌, refl, ◌∙◌, Bool, true, false, Option, some, List,
  [], ◌∷◌, arith, length, set, store-eq_some, length-set, leb, if◌then◌else◌, ◌==◌, get_elem?_of_lt,
  store, ◌>>=◌,
}
use crab_os.Vga.Console.{
  black, light_gray, color_code, Color, Writer, ScreenChar, buffer_width, buffer_height,
  terminal_rows,
}
use crab_os.Vga.Console.Bounds.{Grid, row_of}
use crab_os.Render.{
  Frame, screen_cells, cell, draw_cell, for_range, draw_row, draw_bars, draw_window, copy_cell,
  copy_row, copy_rows, color_cell, draw_dot, draw_edges, draw_background,
}

-- A frame of the screen's size.
pub record Draws (result : Option Frame) : Type 0 where
  pub frame : Frame
  pub returns : result ≡ some frame
  pub size : length frame ≡ screen_cells

abbrev pub Whole : Frame → Type 0
Whole frame = length frame ≡ screen_cells

pub bind-Draws :
    (m : Option Frame) (k : Frame → Option Frame)
    → Draws m
    → ((frame : Frame) → Whole frame → Draws (k frame))
    → Draws (m >>= k)
bind-Draws m k d next =
    let n = next d.frame d.size in
    record { frame = n.frame; returns = rw d.returns n.returns; size = n.size }

pub same-Draws : (frame : Frame) → Whole frame → Draws (some frame)
same-Draws frame w = record { frame = frame; returns = refl; size = w }

pub if-Draws :
    (b : Bool) (x y : Option Frame)
    → (b ≡ true → Draws x)
    → (b ≡ false → Draws y)
    → Draws (if b then x else y)
if-Draws true x y h k = h refl
if-Draws false x y h k = k refl

store-Draws :
    (frame : Frame) (index : ℕ) (c : ScreenChar)
    → Whole frame
    → index < screen_cells
    → Draws (store frame index c)
store-Draws frame index c w h = record {
  frame = set frame index c;
  returns = store-eq_some frame index c (omega arith);
  size = length-set frame index c ∙ w;
}

-- A text drawn in a row of the screen is cut at the edge.
pub draw_cell-Draws :
    (text : List ℕ) (frame : Frame) (row col : ℕ) (fg bg : Color)
    → Whole frame
    → row < buffer_height
    → Draws (draw_cell frame row col text fg bg)
unfolding draw_cell
draw_cell-Draws [] frame row col fg bg w h = same-Draws frame w
draw_cell-Draws (byte ∷ text) frame row col fg bg w h =
    if-Draws (leb buffer_width col) _ _ (λ e. same-Draws frame w)
      λ e.
        bind-Draws _ _
          (store-Draws frame (row * buffer_width + col) (cell byte fg bg) w (ground arith))
          (λ f w'. draw_cell-Draws text f row (col + 1) fg bg w' h)

-- A loop of which every round draws in the frame.
for_range-Draws :
    (count from : ℕ) (body : ℕ → Frame → Option Frame) (frame : Frame)
    → ((index : ℕ) (f : Frame)
        → from ≤ index
        → index < from + count
        → Whole f
        → Draws (body index f))
    → Whole frame
    → Draws (for_range count from body frame)
unfolding for_range
for_range-Draws zero from body frame h w = same-Draws frame w
for_range-Draws (suc count) from body frame h w =
    bind-Draws _ _ (h from frame (omega arith) (omega arith) w) λ f w'.
      for_range-Draws count (from + 1) body f
        (λ index g lo hi. h index g (omega arith) (omega arith)) w'

module _ (x y width : ℕ) where
  row-Draws :
      (row : ℕ) (frame : Frame)
      → y + row < buffer_height
      → Whole frame
      → Draws (draw_row x y width row frame)
  unfolding draw_row
  row-Draws row frame h w = bind-Draws _ _ (draw_cell-Draws _ frame (y + row) x _ _ w h) λ f1 w1.
      bind-Draws _ _ (draw_cell-Draws _ f1 (y + row) (x + width - 1) _ _ w1 h) λ f2 w2.
        for_range-Draws (width - 1 - 1) 1 _ f2
          (λ col f lo hi w3. draw_cell-Draws _ f (y + row) (x + col) _ _ w3 h) w2

  bars-Draws :
      (bg : Color) (col : ℕ) (frame : Frame)
      → y + 19 < buffer_height
      → Whole frame
      → Draws (draw_bars x y bg col frame)
  unfolding draw_bars
  bars-Draws bg col frame h w =
      bind-Draws _ _ (draw_cell-Draws _ frame y (x + col) _ _ w (omega arith))
        λ f1 w1. draw_cell-Draws _ f1 (y + 19) (x + col) _ _ w1 h

  -- A window of twenty rows that ends on the screen.
  pub draw_window-Draws :
      (active index : ℕ) (frame : Frame)
      → y + 19 < buffer_height
      → Whole frame
      → Draws (draw_window active x y width index frame)
  unfolding draw_window
  draw_window-Draws active index frame h w =
      bind-Draws _ _ (for_range-Draws width 0 _ frame (λ col f lo hi w1. bars-Draws _ col f h w1) w)
        λ f1 w1.
          bind-Draws _ _
            (for_range-Draws 18 1 _ f1 (λ row f lo hi w2. row-Draws row f (omega arith) w2) w1)
            λ f2 w2. bind-Draws _ _ (draw_cell-Draws _ f2 y (x + 1) _ _ w2 (omega arith)) λ f3 w3.
              bind-Draws _ _ (draw_cell-Draws _ f3 y (x + width - 4) _ _ w3 (omega arith))
                λ f4 w4. draw_cell-Draws _ f4 (y + 19) (x + 2) _ _ w4 h

  module _ (w : Writer) (grid : Grid w.lines) where
    cell-Draws :
        (row col : ℕ) (frame : Frame)
        → row < terminal_rows
        → y + 19 < buffer_height
        → x + width ≤ buffer_width
        → col < width - 2
        → Whole frame
        → Draws (copy_cell w x y row col frame)
    unfolding copy_cell
    cell-Draws row col frame r low right inside whole =
        let (line, at, full, bound) = row_of w.lines (w.view_top + row) grid in
        let (c, e) = get_elem?_of_lt line col (omega arith) in
        let d =
          store-Draws frame ((y + 2 + row) * buffer_width + x + 1 + col) c whole (omega arith) in
        record { frame = d.frame; returns = rw at (rw e d.returns); size = d.size }

    -- The console's rows are copied into the window.
    pub copy_rows-Draws :
        (frame : Frame)
        → y + 19 < buffer_height
        → x + width ≤ buffer_width
        → Whole frame
        → Draws (copy_rows w x y width frame)
    unfolding copy_row
    copy_rows-Draws frame low right whole =
        for_range-Draws terminal_rows 0 _ frame
          (λ row f lo hi w1.
            if-Draws (leb (w.view_top + row) w.last_line) _ _
              (λ e.
                for_range-Draws (width - 2) 0 _ f
                  (λ col g lo' hi' w2.
                    cell-Draws row col g (omega arith) low right (omega arith) w2)
                  w1)
              (λ e. same-Draws f w1))
          whole

pub color_cell-Draws :
    (frame : Frame) (offset : ℕ)
    → Whole frame
    → offset < screen_cells
    → Draws (color_cell frame offset)
color_cell-Draws frame offset w h =
    let (c, e) = get_elem?_of_lt frame offset (omega arith) in
    let d = store-Draws frame offset (record c { color_code = color_code black light_gray }) w h in
    record { frame = d.frame; returns = rw e d.returns; size = d.size }

pub background-Draws : (frame : Frame) → Whole frame → Draws (draw_background frame)
unfolding draw_background draw_dot draw_edges
background-Draws frame w = bind-Draws _ _ (dots frame w) λ f1 w1.
    bind-Draws _ _ (edges f1 w1) λ f2 w2.
      bind-Draws _ _ (draw_cell-Draws _ f2 0 2 _ _ w2 (omega arith)) λ f3 w3.
        bind-Draws _ _ (draw_cell-Draws _ f3 0 58 _ _ w3 (omega arith)) λ f4 w4.
          bind-Draws _ _ (draw_cell-Draws _ f4 1 4 _ _ w4 (omega arith)) λ f5 w5.
            bind-Draws _ _ (draw_cell-Draws _ f5 2 4 _ _ w5 (omega arith)) λ f6 w6.
              bind-Draws _ _ (draw_cell-Draws _ f6 3 3 _ _ w6 (omega arith)) λ f7 w7.
                bind-Draws _ _ (draw_cell-Draws _ f7 10 29 _ _ w7 (omega arith)) λ f8 w8.
                  bind-Draws _ _ (draw_cell-Draws _ f8 12 24 _ _ w8 (omega arith)) λ f9 w9.
                    bind-Draws _ _ (draw_cell-Draws _ f9 15 24 _ _ w9 (omega arith)) λ f10 w10.
                      bind-Draws _ _ (draw_cell-Draws _ f10 24 2 _ _ w10 (omega arith))
                        λ f11 w11. draw_cell-Draws _ f11 24 38 _ _ w11 (omega arith)
  where
    dots :
        (f : Frame)
        → Whole f
        → Draws (for_range 19 5 (λ row g. for_range buffer_width 0 (draw_dot row) g) f)
    dots f v =
        for_range-Draws 19 5 _ f
          (λ row g lo hi v1.
            for_range-Draws buffer_width 0 _ g
              (λ col g' lo' hi' v2.
                if-Draws ((row + col) % 12 == 0) _ _
                  (λ e. draw_cell-Draws _ g' row col _ _ v2 (omega arith)) (λ e. same-Draws g' v2))
              v1)
          v

    edges : (f : Frame) → Whole f → Draws (for_range buffer_width 0 draw_edges f)
    edges f v =
        for_range-Draws buffer_width 0 _ f
          (λ col g lo hi v1.
            bind-Draws _ _ (draw_cell-Draws _ g 0 col _ _ v1 (omega arith))
              λ g' v2. draw_cell-Draws _ g' 24 col _ _ v2 (omega arith))
          v
