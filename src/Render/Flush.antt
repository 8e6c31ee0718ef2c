-- ===== src/Render/Flush.antt =====
-- The frame cache: after a pass the VGA memory shows the frame, although only the cells that differ
-- are written.
use crab_os.Prelude.{
  ◌≡◌, refl, ap, ap₂, ◌∙◌, Bool, true, not, ◌||◌, Option, some, [], ◌∷◌, arith, length, Bool-cases,
  inl, inr,
}
use crab_os.Vga.Console.{ScreenChar}
use crab_os.Desktop.{Screen}
use crab_os.Render.{
  Frame, screen_cells, Cache, same_cell, Written, write_cells, draw_frame, render_desktop,
}
use crab_os.Render.Frames.{Drawable, draw_frame-Draws}

eq-same_cell : (a b : ScreenChar) → same_cell a b ≡ true → a ≡ b
eq-same_cell a b h = ground arith

-- The cache knows what is shown, once it is valid.
pub record Honest (c : Cache) : Type 0 where
  pub cells : length c.cells ≡ screen_cells
  pub vga : length c.vga ≡ screen_cells
  pub shows : c.valid ≡ true → c.vga ≡ c.cells

-- A pass over arrays of one length writes the frame, from a cache that knows what is shown.
writes :
    (valid : Bool) (cells frame vga : Frame)
    → length cells ≡ length frame
    → length vga ≡ length frame
    → (valid ≡ true → vga ≡ cells)
    → write_cells valid cells frame vga ≡ record { cells = frame; vga = frame }
unfolding write_cells
writes valid [] [] [] e1 e2 h = refl
writes valid (p ∷ cells) (new ∷ frame) (s ∷ vga) e1 e2 h =
    let rest = writes valid cells frame vga (omega arith) (omega arith) (λ k. let q = h k in cc) in
    elim (Bool-cases (not valid || not (same_cell p new))) [
      | inl e ↦ rw rest (rw e refl)
      | inr e ↦
          let on : valid ≡ true = ground arith in
          let same : p ≡ new = eq-same_cell p new (ground arith) in
          let shown : s ≡ p = let q = h on in cc in
          rw rest (
            rw e (
              ap₂ (λ (a b : ScreenChar). record { cells = a ∷ frame; vga = b ∷ frame }) same
                (shown ∙ same)))
    ]
writes valid [] (new ∷ frame) vga e1 e2 h = absurd (omega arith)
writes valid (p ∷ cells) [] vga e1 e2 h = absurd (omega arith)
writes valid cells [] (s ∷ vga) e1 e2 h = absurd (omega arith)
writes valid cells (new ∷ frame) [] e1 e2 h = absurd (omega arith)

-- What a pass leaves: the frame is on the screen and in the cache.
pub record Renders (s : Screen) (result : Option Cache) : Type 0 where
  pub frame : Frame
  pub drawn : draw_frame s ≡ some frame
  pub returns : result ≡ some (record { cells = frame; valid = true; vga = frame })
  pub honest : Honest (record { cells = frame; valid = true; vga = frame })

-- Drawing a valid desktop panics nowhere. Afterwards the VGA memory is the frame that was drawn, cell
-- by cell, whatever it was before, if the cache was not valid or held what was shown; and the cache
-- holds it too.
pub render_desktop-Renders :
    (s : Screen) (c : Cache) → Drawable s → Honest c → Renders s (render_desktop s c)
unfolding render_desktop
render_desktop-Renders s c v h =
    let d = draw_frame-Draws s v in
    let w =
      writes c.valid c.cells d.frame c.vga (let a = h.cells in let b = d.size in omega arith)
        (let a = h.vga in let b = d.size in omega arith) h.shows in
    record {
      frame = d.frame;
      drawn = d.returns;
      returns =
          rw d.returns
            (ap (λ (x : Written). some (record { cells = x.cells; valid = true; vga = x.vga })) w);
      honest = record { cells = d.size; vga = d.size; shows = λ _. refl };
    }
