-- ===== src/Desktop/Mouse/Press.antt =====
-- A press of the left button: the window under the pointer becomes the active one.
use Prim.Native.Nat.{bit_xor}
use crab_os.Prelude.{
  ℕ, zero, suc, pos_part, neg_part, ◌+◌, ◌<◌, ◌≡◌, refl, ap, subst, Bool, true, false, ◌&&◌, ◌||◌,
  Bool-cases, Option, none, some, List, [], ◌∷◌, All, ◌⊎◌, inl, inr, arith, int_laws, ℤ, pos, ◌+ℤ◌,
  ◌-ℤ◌, ◌≤ℤ◌, leb_ℤ, ltb_ℤ, leb→le, ltb→lt, eqb_ℤ, InRange,
}
use crab_os.Desktop.Pairs.{Two, at}
use crab_os.Desktop.{
  Desktop, Drag, Rect, InputEvent, close_terminal_event, open_terminal_event, layout, window_h,
}
use crab_os.Desktop.Layout.{OnScreen, Shown, Layout, layout-Layout, Sound, DragOk}
use crab_os.Desktop.Mouse.{inside, hit, press, press_window, press_desktop}

-- A window of the list that is under a place on the screen.
pub record Under (rects : Two (Option Rect)) (x : ℤ) (y : ℤ) (i : ℕ) : Type 0 where
  pub rect : Rect
  pub below_two : i < 2
  pub found : at rects i ≡ some (some rect)
  pub within : inside (some rect) x y ≡ true

at_of_lt {ℓ} : {A : Type ℓ} (t : Two A) (i : ℕ) → i < 2 → (a : A) × (at t i ≡ some a)
at_of_lt t zero h = (t.zeroth, refl)
at_of_lt t (suc zero) h = (t.first, refl)
at_of_lt t (suc (suc i)) h = absurd (omega arith)

under :
    (rects : Two (Option Rect)) (x y : ℤ) (i : ℕ) (rect : Option Rect)
    → i < 2
    → at rects i ≡ some rect
    → inside rect x y ≡ true
    → Under rects x y i
unfolding inside
under rects x y i none h e t = absurd cc
under rects x y i (some r) h e t = record { rect = r; below_two = h; found = e; within = t }

hit-cases :
    (rects : Two (Option Rect)) (x y : ℤ) (indexes : List ℕ)
    → All (λ i. i < 2) indexes
    → (hit rects x y indexes ≡ some none)
      ⊎ ((i : ℕ) × (hit rects x y indexes ≡ some (some i)) × Under rects x y i)
unfolding hit
hit-cases rects x y [] h = inl refl
hit-cases rects x y (i ∷ rest) h =
    let (rect, e) = at_of_lt rects i h.0 in
    elim (Bool-cases (inside rect x y)) [
      | inl t ↦ inr (i, rw e (rw t refl), under rects x y i rect h.0 e t)
      | inr f ↦ elim (hit-cases rects x y rest h.1) [
        | inl n ↦ inl (rw e (rw f n))
        | inr (j, n, u) ↦ inr (j, rw e (rw f n), u)
      ]
    ]

-- A window that is shown is that of an open terminal, and on the screen.
visible-OnScreen :
    (b : Bool) (rect : Option Rect) (r : Rect)
    → Shown b rect
    → rect ≡ some r
    → (b ≡ true) × OnScreen r
visible-OnScreen true rect r s e =
    let (r', e', o) = s.shown refl in let same : r' ≡ r = cc in (refl, subst OnScreen same o)
visible-OnScreen false rect r s e = let h = s.hidden refl in absurd cc

covered-OnScreen :
    (d : Desktop) (l : Layout d (layout d)) (x y : ℤ) (i : ℕ) (u : Under l.rects x y i)
    → (at d.is_open i ≡ some true) × OnScreen u.rect
covered-OnScreen d l x y zero u =
    let (t, o) = visible-OnScreen _ _ u.rect l.zeroth cc in (ap some t, o)
covered-OnScreen d l x y (suc zero) u =
    let (t, o) = visible-OnScreen _ _ u.rect l.first cc in (ap some t, o)
covered-OnScreen d l x y (suc (suc i)) u = let h = u.below_two in absurd (omega arith)

-- A press changes the drag and the active terminal: that is an open one, and a window that is dragged
-- is open and held in its title bar.
pub record Presses (d : Desktop) (result : Option (Desktop × List InputEvent)) : Type 0 where
  pub held : Option Drag
  pub now_active : ℕ
  pub events : List InputEvent
  pub returns : result ≡ some (record d { drag = held; active = now_active }, events)
  pub below_two : now_active < 2
  pub active_open :
      (d.is_open.zeroth || d.is_open.first) ≡ true → at d.is_open now_active ≡ some true
  pub held_ok : DragOk d.is_open held

&&-both : (a b : Bool) → (a && b) ≡ true → (a ≡ true) × (b ≡ true)
&&-both a b h = ground arith

within_bounds :
    (r : Rect) (x y : ℤ)
    → OnScreen r
    → inside (some r) x y ≡ true
    → (r.x ≤ℤ x) × (x ≤ℤ r.x +ℤ pos 73)
unfolding inside
within_bounds r x y o h =
    let rows = leb_ℤ r.y y && ltb_ℤ y (r.y +ℤ window_h) in
    let (left, rest) = &&-both (leb_ℤ r.x x) (ltb_ℤ x (r.x +ℤ r.width) && rows) h in
    let (right, _) = &&-both (ltb_ℤ x (r.x +ℤ r.width)) rows rest in
    let a : r.x ≤ℤ x = leb→le _ _ left in
    let b =
      ltb→lt (pos_part x + neg_part (r.x +ℤ r.width)) (pos_part (r.x +ℤ r.width) + neg_part x)
        right in
    let w = o.wide in (a, omega int_laws)

same_row : (a b : ℤ) → eqb_ℤ a b ≡ true → (a ≤ℤ b) × (b ≤ℤ a)
same_row a b e = ground arith

-- A place in a window, from its left side and its top.
within-offset :
    (r : Rect) (x y : ℤ)
    → OnScreen r
    → inside (some r) x y ≡ true
    → eqb_ℤ y r.y ≡ true
    → InRange (pos 0) (pos 73) (x -ℤ r.x) × InRange (pos 0) (pos 0) (y -ℤ r.y)
unfolding inside
within-offset r x y o h e =
    let b = within_bounds r x y o h in let s = same_row y r.y e in (omega int_laws, omega int_laws)

press_window-Presses :
    (d : Desktop) (i : ℕ) (r : Rect)
    → i < 2
    → at d.is_open i ≡ some true
    → OnScreen r
    → inside (some r) d.pointer_x d.pointer_y ≡ true
    → Presses d (press_window (record d { drag = none }) i (some r))
unfolding press_window
press_window-Presses d i r h t o within =
    let x = d.pointer_x in
    let y = d.pointer_y in
    elim (Bool-cases
      (eqb_ℤ y r.y && (leb_ℤ (r.x +ℤ r.width -ℤ pos 4) x && ltb_ℤ x (r.x +ℤ r.width -ℤ pos 1)))) [
        | inl c ↦ record {
          held = none;
          now_active = i;
          events = close_terminal_event i ∷ [];
          returns = rw c refl;
          below_two = h;
          active_open = λ _. t;
          held_ok = tt;
        }
        | inr c ↦ elim (Bool-cases (eqb_ℤ y r.y)) [
          | inl e ↦
              let (ox, oy) = within-offset r x y o within e in
              record {
                held = some (record { index = i; offset_x = x -ℤ r.x; offset_y = y -ℤ r.y });
                now_active = i;
                events = [];
                returns = rw c (rw e refl);
                below_two = h;
                active_open = λ _. t;
                held_ok = record { held_open = t; offset_x = ox; offset_y = oy };
              }
          | inr e ↦ record {
            held = none;
            now_active = i;
            events = [];
            returns = rw c (rw e refl);
            below_two = h;
            active_open = λ _. t;
            held_ok = tt;
          }
        ]
      ]

-- Outside the windows a press ends a drag, and changes nothing else of the desktop.
press_desktop-Presses :
    (d : Desktop) → Sound d → Presses d (some (press_desktop (record d { drag = none })))
unfolding press_desktop
press_desktop-Presses d v =
    elim (Bool-cases (
      (leb_ℤ (pos 3) d.pointer_x && leb_ℤ d.pointer_x (pos 12))
      && (leb_ℤ (pos 1) d.pointer_y && leb_ℤ d.pointer_y (pos 3)))) [
        | inl c ↦ ended (open_terminal_event ∷ []) (rw c refl)
        | inr c ↦ ended [] (rw c refl)
      ]
  where
    ended :
        (events : List InputEvent)
        → some (press_desktop (record d { drag = none })) ≡ some (record d { drag = none }, events)
        → Presses d (some (press_desktop (record d { drag = none })))
    ended events e = record {
      held = none;
      now_active = d.active;
      events = events;
      returns = e;
      below_two = v.active;
      active_open = v.active_open;
      held_ok = tt;
    }

other-lt : (i : ℕ) → i < 2 → bit_xor i 1 < 2
other-lt zero h = omega arith
other-lt (suc zero) h = omega arith
other-lt (suc (suc i)) h = absurd (omega arith)

-- A press of the left button panics nowhere. It makes the terminal of the window under the pointer
-- the active one, which is open, and a drag that it starts is of an open window.
pub press-Presses : (d : Desktop) → Sound d → Presses d (press d)
unfolding press
press-Presses d v =
    let l = layout-Layout d v.zeroth v.first in
    let indexes = d.active ∷ bit_xor d.active 1 ∷ [] in
    elim (hit-cases l.rects d.pointer_x d.pointer_y indexes
      (v.active, (other-lt d.active v.active, tt))) [
        | inl n ↦ rw (l.returns, n) (press_desktop-Presses d v)
        | inr (i, n, u) ↦
            let (t, o) = covered-OnScreen d l d.pointer_x d.pointer_y i u in
            rw (l.returns, n)
              (rw u.found (press_window-Presses d i u.rect u.below_two t o u.within))
      ]
