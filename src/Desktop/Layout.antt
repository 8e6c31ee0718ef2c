-- ===== src/Desktop/Layout.antt =====
-- `layout`: every open terminal has a window, and the windows lie on the screen.
use crab_os.Prelude.{
  ℕ, pos_part, ◌<◌, ◌≡◌, refl, Bool, true, false, ◌||◌, Option, none, some, arith, int_laws, length,
  ℤ, pos, negsuc, ◌+ℤ◌, ◌-ℤ◌, ◌≤ℤ◌, InRange, clamp-InRange,
}
use crab_os.Desktop.Pairs.{Two, at}
use crab_os.Desktop.{Desktop, Window, Drag, Rect, layout, columns_of, screen_w, window_w, window_h}

-- The places that a window can have, at either width.
abbrev pub Fits : Window → Type 0
Fits w = InRange (pos 0) (pos 42) w.x × InRange (pos 1) (pos 4) w.y

-- Between the bars in the first and the last row of the screen.
pub record OnScreen (r : Rect) : Type 0 where
  pub left : pos 0 ≤ℤ r.x
  pub right : r.x +ℤ r.width ≤ℤ screen_w
  pub top : pos 1 ≤ℤ r.y
  pub bottom : r.y +ℤ window_h ≤ℤ pos 24
  pub wide : InRange (pos 38) window_w r.width

pub record Shown (is_open : Bool) (rect : Option Rect) : Type 0 where
  pub hidden : is_open ≡ false → rect ≡ none
  pub shown : is_open ≡ true → (r : Rect) × (rect ≡ some r) × OnScreen r

-- The text columns of a terminal, by whether it is open, and whether the other one is.
abbrev pub columns_for : Bool → Bool → ℕ
columns_for false other = 76
columns_for true false = 72
columns_for true true = 36

-- What `layout` returns.
pub record Layout (d : Desktop) (result : Option (Two (Option Rect))) : Type 0 where
  pub rects : Two (Option Rect)
  pub returns : result ≡ some rects
  pub zeroth : Shown d.is_open.zeroth rects.zeroth
  pub first : Shown d.is_open.first rects.first
  pub columns_zeroth : columns_of rects.zeroth ≡ columns_for d.is_open.zeroth d.is_open.first
  pub columns_first : columns_of rects.first ≡ columns_for d.is_open.first d.is_open.zeroth

columns-narrow : pos_part (pos 38 -ℤ pos 2) ≡ 36
unfolding ◌-ℤ◌
columns-narrow = refl

columns-wide : pos_part (window_w -ℤ pos 2) ≡ 72
unfolding ◌-ℤ◌
columns-wide = refl

open_rect : (b : Bool) (r : Rect) → b ≡ true → OnScreen r → Shown b (some r)
open_rect b r e o = record { hidden = λ f. cc; shown = λ t. (r, refl, o) }

closed_rect : (b : Bool) → b ≡ false → Shown b none
closed_rect b e = record { hidden = λ f. refl; shown = λ t. cc }

abbrev narrow : Window → Rect
narrow w = record { x = w.x; y = w.y; width = pos 38 }

narrow-OnScreen : (w : Window) → Fits w → OnScreen (narrow w)
narrow-OnScreen w f = record {
  left = omega arith;
  right = omega int_laws;
  top = omega arith;
  bottom = omega int_laws;
  wide = omega arith;
}

wide-OnScreen :
    (w : Window) (x : ℤ)
    → Fits w
    → InRange (pos 0) (screen_w -ℤ window_w) x
    → OnScreen (record { x = x; y = w.y; width = window_w })
wide-OnScreen w x f i = record {
  left = omega arith;
  right = omega int_laws;
  top = omega arith;
  bottom = omega int_laws;
  wide = omega arith;
}

layout_of :
    (d : Desktop) (a b : Bool)
    → d.is_open.zeroth ≡ a
    → d.is_open.first ≡ b
    → Fits d.windows.zeroth
    → Fits d.windows.first
    → Layout d (layout d)
unfolding layout
layout_of d true true ea eb f g = record {
  rects = record { zeroth = some (narrow d.windows.zeroth); first = some (narrow d.windows.first) };
  returns = rw (ea, eb) refl;
  columns_zeroth = rw (ea, eb) columns-narrow;
  columns_first = rw (ea, eb) columns-narrow;
  zeroth = open_rect _ _ ea (narrow-OnScreen d.windows.zeroth f);
  first = open_rect _ _ eb (narrow-OnScreen d.windows.first g);
}
layout_of d true false ea eb f g =
    let (x, c, i) =
      clamp-InRange d.windows.zeroth.x (pos 0) (screen_w -ℤ window_w) (omega int_laws) in
    record {
      rects = record {
        zeroth = some (record { x = x; y = d.windows.zeroth.y; width = window_w });
        first = none;
      };
      returns = rw (ea, eb) (rw c refl);
      columns_zeroth = rw (ea, eb) columns-wide;
      columns_first = rw eb refl;
      zeroth = open_rect _ _ ea (wide-OnScreen d.windows.zeroth x f i);
      first = closed_rect _ eb;
    }
layout_of d false true ea eb f g =
    let (x, c, i) =
      clamp-InRange d.windows.first.x (pos 0) (screen_w -ℤ window_w) (omega int_laws) in
    record {
      rects = record {
        zeroth = none;
        first = some (record { x = x; y = d.windows.first.y; width = window_w });
      };
      returns = rw (ea, eb) (rw c refl);
      columns_zeroth = rw ea refl;
      columns_first = rw (ea, eb) columns-wide;
      zeroth = closed_rect _ ea;
      first = open_rect _ _ eb (wide-OnScreen d.windows.first x g i);
    }
layout_of d false false ea eb f g = record {
  rects = record { zeroth = none; first = none };
  returns = rw (ea, eb) refl;
  columns_zeroth = rw ea refl;
  columns_first = rw eb refl;
  zeroth = closed_rect _ ea;
  first = closed_rect _ eb;
}

-- `layout` does not panic where the windows' places fit. A window is shown exactly where its
-- terminal is open, lies on the screen, and is as wide as the number of open terminals says.
pub layout-Layout :
    (d : Desktop) → Fits d.windows.zeroth → Fits d.windows.first → Layout d (layout d)
layout-Layout d f g = layout_of d _ _ refl refl f g

-- The window that is dragged is open, and held in its title bar.
pub record Held (is_open : Two Bool) (g : Drag) : Type 0 where
  pub held_open : at is_open g.index ≡ some true
  pub offset_x : InRange (pos 0) (pos 73) g.offset_x
  pub offset_y : InRange (pos 0) (pos 0) g.offset_y

abbrev pub DragOk : Two Bool → Option Drag → Type 0
DragOk is_open none = Unit
DragOk is_open (some g) = Held is_open g

-- The desktop between two steps, whatever part of a packet has come.
pub record Sound (d : Desktop) : Type 0 where
  pub zeroth : Fits d.windows.zeroth
  pub first : Fits d.windows.first
  pub pointer_x : InRange (pos 0) (pos 79) d.pointer_x
  pub pointer_y : InRange (pos 0) (pos 24) d.pointer_y
  pub motion_x : InRange (negsuc 6) (pos 7) d.motion_x
  pub motion_y : InRange (negsuc 14) (pos 15) d.motion_y
  pub size : length d.packet ≡ 3
  pub active : d.active < 2
  pub active_open : (d.is_open.zeroth || d.is_open.first) ≡ true → at d.is_open d.active ≡ some true
  pub drag : DragOk d.is_open d.drag

pub record IsValid (d : Desktop) : Type 0 where
  pub sound : Sound d
  pub packet_len : d.packet_len < 3
