-- ===== src/Keyboard/Runs.antt =====
-- The keyboard task and the two interrupts in any order, from the start of `run_shell` on.
use crab_os.Prelude.{
  ℕ, ◌≡◌, refl, sym, ap, ◌∙◌, subst, Bool, true, false, not, Option, some, none, List, [], ◌∷◌,
  length, ltb, arith, if◌then◌else◌, Bool-cases, inl, inr, ◌>>=◌, ◌==◌, All-replicate, replicate,
}
use crab_os.Vga.Console.{Writer, blank, buffer_width}
use crab_os.Vga.Console
use crab_os.Vga.Console.Bounds.{FullRow}
use crab_os.Desktop.Pairs.{Two}
use crab_os.Desktop.{Desktop, Screen, InputEvent, open_terminal_event, close_terminal_event}
use crab_os.Desktop
use crab_os.Desktop.Layout.{IsValid}
use crab_os.Desktop.Mouse.Packet.{mouse_byte-Reads}
use crab_os.Shell.Commands.{Machine}
use crab_os.Shell.Session.{Shell}
use crab_os.Shell.Loop.{DecodedKey, unicode}
use crab_os.Shell.Loop.Start.{Sized}
use crab_os.Keyboard.{
  Event, scancode, from_desktop, Kernel, push, add_scancode, desktop_action, send_all,
  add_mouse_byte, is_character, on_key, on_decoded, on_event, round, next_event, queue_size,
}
use crab_os.Keyboard.Valid.{KernelValid, Keeps, Terminal}
use crab_os.Keyboard.Resize.{same_terminal}
use crab_os.Keyboard.Events.{forward-Keeps, recover-Keeps}
use crab_os.Keyboard.Windows.{close_at-Keeps, close_active-Keeps, open_another-Keeps}

-- A round of the keyboard task, or one of the two interrupts. What the commands ask the rest of the
-- kernel for may be different at each round.
pub data Step : Type 0 where
  key_task : Machine → Step
  key_interrupt : ℕ → Step
  mouse_interrupt : ℕ → Step

-- The state in which `run_shell` begins its loop.
abbrev pub fresh_screen : Screen
fresh_screen = record {
  desktop = Desktop.initial;
  terminals = record { zeroth = Console.new; first = Console.new };
  active_terminal = 0;
  actions = [];
  redraw_pending = false;
}

module _ {Decoder : Type 0} where
  if-Keeps :
      (b : Bool) (x y : Option (Kernel Decoder)) → Keeps x → Keeps y → Keeps (if b then x else y)
  if-Keeps true x y h k = h
  if-Keeps false x y h k = k

  on_key-Keeps :
      (m : Machine) (key : DecodedKey) (k : Kernel Decoder) → KernelValid k → Keeps (on_key m key k)
  unfolding on_key
  on_key-Keeps m key k v =
      if-Keeps (is_character 3 key) _ _ (close_active-Keeps k v)
        (if-Keeps (is_character 0x11 key) _ _ (open_another-Keeps m k v) (forward-Keeps m key k v))

  on_decoded-Keeps :
      (m : Machine) (key : Option DecodedKey) (k : Kernel Decoder)
      → KernelValid k
      → Keeps (on_decoded m key k)
  on_decoded-Keeps m none k v = record { after = k; returns = refl; valid = v }
  on_decoded-Keeps m (some key) k v = on_key-Keeps m key k v

  -- The queue, the decoder and the counts do not matter.
  abbrev Same : Kernel Decoder → Kernel Decoder → Type 0
  Same k k' = (k'.screen ≡ k.screen) × (k'.shells ≡ k.shells)

  Same-KernelValid : (k k' : Kernel Decoder) → Same k k' → KernelValid k → KernelValid k'
  Same-KernelValid k k' (screen, shells) v = record {
    desktop = subst (λ (s : Screen). IsValid s.desktop) (sym screen) v.desktop;
    zeroth =
        same_terminal Terminal (ap (λ (s : Screen). s.desktop.is_open.zeroth) (sym screen))
          (ap (λ (s : Two (Option Shell)). s.zeroth) (sym shells))
          (ap (λ (s : Screen). s.terminals.zeroth) (sym screen)) v.zeroth;
    first =
        same_terminal Terminal (ap (λ (s : Screen). s.desktop.is_open.first) (sym screen))
          (ap (λ (s : Two (Option Shell)). s.first) (sym shells))
          (ap (λ (s : Screen). s.terminals.first) (sym screen)) v.first;
  }

  push-Same : (event : Event) (k : Kernel Decoder) → Same k (push event k).0
  push-Same event k = elim (Bool-cases (ltb (length k.queue) queue_size)) [
    | inl e ↦ rw e (refl, refl)
    | inr e ↦ rw e (refl, refl)
  ]

  add_scancode-Same : (code : ℕ) (k : Kernel Decoder) → Same k (add_scancode code k)
  unfolding add_scancode
  add_scancode-Same code k = elim (Bool-cases (ltb (length k.queue) queue_size)) [
    | inl e ↦ rw e (refl, refl)
    | inr e ↦ rw e (refl, refl)
  ]

  send_all-Same : (events : List InputEvent) (k : Kernel Decoder) → Same k (send_all events k)
  unfolding send_all desktop_action
  send_all-Same [] k = (refl, refl)
  send_all-Same (event ∷ events) k =
      let first = push-Same (from_desktop event) k in
      let rest = send_all-Same events (push (from_desktop event) k).0 in
      (rest.0 ∙ first.0, rest.1 ∙ first.1)

  add_mouse_byte-Keeps :
      (byte : ℕ) (k : Kernel Decoder) → KernelValid k → Keeps (add_mouse_byte byte k)
  unfolding add_mouse_byte
  add_mouse_byte-Keeps byte k v =
      let r = mouse_byte-Reads (record (k.screen) { actions = [] }) byte v.desktop in
      let k1 = record k { screen = record (r.after) { actions = [] } } in
      let v1 : KernelValid k1 = record {
        desktop = r.valid;
        zeroth =
            same_terminal Terminal (ap (λ (t : Two Bool). t.zeroth) (sym r.same_open)) refl
              (ap (λ (t : Two Writer). t.zeroth) (sym r.same_terminals)) v.zeroth;
        first =
            same_terminal Terminal (ap (λ (t : Two Bool). t.first) (sym r.same_open)) refl
              (ap (λ (t : Two Writer). t.first) (sym r.same_terminals)) v.first;
      } in
      record {
        after = send_all r.after.actions k1;
        returns = rw r.returns refl;
        valid = Same-KernelValid k1 _ (send_all-Same r.after.actions k1) v1;
      }

  module _ (decoder : Decoder) (decode : Decoder → ℕ → Decoder × Option DecodedKey) where
    on_event-Keeps :
        (m : Machine) (event : Event) (k : Kernel Decoder)
        → KernelValid k
        → Keeps (on_event decoder decode m event k)
    unfolding on_event
    on_event-Keeps m (from_desktop open_terminal_event) k v = on_key-Keeps m (unicode 0x11) k v
    on_event-Keeps m (from_desktop (close_terminal_event index)) k v = close_at-Keeps index k v
    on_event-Keeps m (scancode code) k v =
        let (keyboard, key) = decode k.keyboard code in
        let k1 = record k { keyboard = keyboard } in
        on_decoded-Keeps m key k1 (Same-KernelValid k k1 (refl, refl) v)

    next_event-Keeps :
        (m : Machine) (k : Kernel Decoder) → KernelValid k → Keeps (next_event decoder decode m k)
    unfolding next_event round
    next_event-Keeps m k v = at_queue k.queue
      where
        at_queue :
            (queue : List Event)
            → Keeps (elim queue [
              | [] ↦ some k
              | event ∷ rest ↦ round decoder decode m event (record k { queue = rest })
            ])
        at_queue [] = record { after = k; returns = refl; valid = v }
        at_queue (event ∷ rest) =
            let k1 = record k { queue = rest } in
            let v1 = Same-KernelValid k k1 (refl, refl) v in
            if-Keeps (not (k1.dropped == k1.seen)) _ _ (recover-Keeps decoder k1 v1)
              (on_event-Keeps m event k1 v1)

    abbrev pub step : Step → Kernel Decoder → Option (Kernel Decoder)
    step (key_task m) k = next_event decoder decode m k
    step (key_interrupt code) k = some (add_scancode code k)
    step (mouse_interrupt byte) k = add_mouse_byte byte k

    unfoldable pub run : List Step → Kernel Decoder → Option (Kernel Decoder)
    run [] k = some k
    run (s ∷ steps) k = step s k >>= run steps

    step-Keeps : (s : Step) (k : Kernel Decoder) → KernelValid k → Keeps (step s k)
    step-Keeps (key_task m) k v = next_event-Keeps m k v
    step-Keeps (key_interrupt code) k v = record {
      after = add_scancode code k;
      returns = refl;
      valid = Same-KernelValid k _ (add_scancode-Same code k) v;
    }
    step-Keeps (mouse_interrupt byte) k v = add_mouse_byte-Keeps byte k v

    run_from-Keeps : (steps : List Step) (k : Kernel Decoder) → KernelValid k → Keeps (run steps k)
    unfolding run
    run_from-Keeps [] k v = record { after = k; returns = refl; valid = v }
    run_from-Keeps (s ∷ steps) k v =
        let a = step-Keeps s k v in
        let b = run_from-Keeps steps a.after a.valid in
        record { after = b.after; returns = rw a.returns b.returns; valid = b.valid }

pub fresh_console-Sized : Sized Console.new
fresh_console-Sized = record {
  grid = record {
    size = refl;
    rows = All-replicate FullRow 128 (replicate buffer_width blank) refl;
  };
  columns = omega arith;
}

closed-Terminal : Terminal false none Console.new
closed-Terminal = record { sized = fresh_console-Sized; remembers = tt; serves = λ e. cc }

pub initial-IsValid : IsValid Desktop.initial
initial-IsValid = record {
  sound = record {
    zeroth = omega arith;
    first = omega arith;
    pointer_x = omega arith;
    pointer_y = omega arith;
    motion_x = omega arith;
    motion_y = omega arith;
    size = refl;
    active = omega arith;
    active_open = λ e. cc;
    drag = tt;
  };
  packet_len = omega arith;
}

module _ {Decoder : Type 0} (decoder : Decoder) where
  -- The kernel as `run_shell` begins its loop, after so many drops.
  abbrev pub start : ℕ → Kernel Decoder
  start drops = record {
    screen = fresh_screen;
    shells = record { zeroth = none; first = none };
    keyboard = decoder;
    seen = drops;
    queue = [];
    dropped = drops;
  }

  start-KernelValid : (drops : ℕ) → KernelValid (start drops)
  start-KernelValid drops = record {
    desktop = initial-IsValid;
    zeroth = closed-Terminal;
    first = closed-Terminal;
  }

  -- From the start of `run_shell`, rounds of the keyboard task and interrupts of the keyboard and the
  -- mouse in any order panic nowhere, whatever the decoder makes of the scancodes and whatever the
  -- commands read. The state that they leave is valid: the desktop is, and every open terminal has a
  -- shell that is ready on its console.
  pub run-Keeps :
      (decode : Decoder → ℕ → Decoder × Option DecodedKey) (drops : ℕ) (steps : List Step)
      → Keeps (run decoder decode steps (start drops))
  run-Keeps decode drops steps =
      run_from-Keeps decoder decode steps (start drops) (start-KernelValid drops)
