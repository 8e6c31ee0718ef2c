-- ===== src/Desktop/Mouse/Pointer.antt =====
-- The movement of a packet: no count is lost, and the pointer stays on the screen.
use crab_os.Prelude.{
  ℕ, ◌<◌, ◌≡◌, refl, true, false, Option, some, arith, int_laws, has_bit, if◌then◌else◌, ℤ, pos,
  negsuc, ◌+ℤ◌, ◌-ℤ◌, quot, rem, scale, division_sum, rem_bound, division_law, InRange, clamp,
  clamp-InRange,
}
use crab_os.Desktop.Layout.{Sound}
use crab_os.Desktop.{Desktop, screen_w, screen_h}
use crab_os.Desktop.Mouse.{move_pointer}

-- A signed movement of nine bits: the byte, and the sign bit of the flags.
abbrev pub delta : ℕ → ℕ → ℕ → ℤ
delta sign flags byte = pos byte -ℤ (if has_bit sign flags then pos 256 else pos 0)

-- The pointer moves by whole cells and is held on the screen; counts that make no whole cell are kept.
pub record Moves (d : Desktop) (dx : ℤ) (dy : ℤ) (result : Option Desktop) : Type 0 where
  pub cells_x : ℤ
  pub cells_y : ℤ
  pub rest_x : ℤ
  pub rest_y : ℤ
  pub to_x : ℤ
  pub to_y : ℤ
  pub returns :
      result
      ≡ some (record d { motion_x = rest_x; motion_y = rest_y; pointer_x = to_x; pointer_y = to_y })
  pub total_x : scale 8 cells_x +ℤ rest_x ≡ d.motion_x +ℤ dx
  pub total_y : scale 16 cells_y +ℤ rest_y ≡ d.motion_y +ℤ dy
  pub small_x : InRange (negsuc 6) (pos 7) rest_x
  pub small_y : InRange (negsuc 14) (pos 15) rest_y
  pub clamp_x : clamp (d.pointer_x +ℤ cells_x) (pos 0) (pos 79) ≡ some to_x
  pub clamp_y : clamp (d.pointer_y -ℤ cells_y) (pos 0) (pos 24) ≡ some to_y
  pub inside_x : InRange (pos 0) (pos 79) to_x
  pub inside_y : InRange (pos 0) (pos 24) to_y

last_column : screen_w -ℤ pos 1 ≡ pos 79
unfolding ◌-ℤ◌
last_column = refl

last_row : screen_h -ℤ pos 1 ≡ pos 24
unfolding ◌-ℤ◌
last_row = refl

-- A packet's movement panics nowhere. Eight counts move the pointer by one column, and sixteen by one
-- row; the rest, less than a cell, is carried to the next packet.
pub move_pointer-Moves :
    (d : Desktop) (flags byte_x byte_y : ℕ)
    → Moves d (delta 4 flags byte_x) (delta 5 flags byte_y) (move_pointer d flags byte_x byte_y)
unfolding move_pointer
move_pointer-Moves d flags byte_x byte_y =
    let mx = d.motion_x +ℤ delta 4 flags byte_x in
    let my = d.motion_y +ℤ delta 5 flags byte_y in
    let (x, cx, ix) = clamp-InRange (d.pointer_x +ℤ quot mx 8) (pos 0) (pos 79) (omega arith) in
    let (y, cy, iy) = clamp-InRange (d.pointer_y -ℤ quot my 16) (pos 0) (pos 24) (omega arith) in
    let bx = rem_bound mx 8 (omega arith) in
    let by = rem_bound my 16 (omega arith) in
    record {
      cells_x = quot mx 8;
      cells_y = quot my 16;
      rest_x = rem mx 8;
      rest_y = rem my 16;
      to_x = x;
      to_y = y;
      returns = rw (last_column, last_row) (rw cx (rw cy refl));
      total_x = division_sum mx 8;
      total_y = division_sum my 16;
      small_x = omega arith;
      small_y = omega arith;
      clamp_x = cx;
      clamp_y = cy;
      inside_x = ix;
      inside_y = iy;
    }

abbrev pub FitsI16 : ℤ → Type 0
FitsI16 a = InRange (negsuc 32767) (pos 32767) a

delta-small :
    (sign flags byte : ℕ) → byte < 256 → InRange (negsuc 255) (pos 255) (delta sign flags byte)
unfolding ◌-ℤ◌
delta-small sign flags byte h = elim (has_bit sign flags) [
  | true ↦ ground arith
  | false ↦ ground arith
]

-- On a valid desktop no sum of `move_pointer` leaves the range of an `i16`, whatever the packet.
move_pointer-FitsI16 :
    (d : Desktop) (flags byte_x byte_y : ℕ)
    → Sound d
    → byte_x < 256
    → byte_y < 256
    → FitsI16 (d.motion_x +ℤ delta 4 flags byte_x)
      × FitsI16 (d.motion_y +ℤ delta 5 flags byte_y)
      × FitsI16 (d.pointer_x +ℤ quot (d.motion_x +ℤ delta 4 flags byte_x) 8)
      × FitsI16 (d.pointer_y -ℤ quot (d.motion_y +ℤ delta 5 flags byte_y) 16)
move_pointer-FitsI16 d flags byte_x byte_y v hx hy =
    let mx = d.motion_x +ℤ delta 4 flags byte_x in
    let my = d.motion_y +ℤ delta 5 flags byte_y in
    let dx = delta-small 4 flags byte_x hx in
    let dy = delta-small 5 flags byte_y hy in
    let vx = v.motion_x in
    let vy = v.motion_y in
    let qx = division_law mx 8 in
    let qy = division_law my 16 in
    let bx = rem_bound mx 8 (omega arith) in
    let by = rem_bound my 16 (omega arith) in
    let px = v.pointer_x in
    let py = v.pointer_y in (omega int_laws, omega int_laws, omega int_laws, omega int_laws)
