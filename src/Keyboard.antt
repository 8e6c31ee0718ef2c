-- ===== src/Keyboard.antt =====
-- The keyboard task of src/task/keyboard.rs: the queue of events, and the loop of `run_shell` over the
-- desktop and the two shells. The decoder of scancodes, the crate pc_keyboard, is a parameter; `none`
-- is a panic.
pub mod Valid
pub mod Resize
pub mod Events
pub mod Windows
pub mod Runs
pub mod Lost
mod Tests
use crab_os.Prelude.{
  ℕ, zero, suc, ◌+◌, ◌%◌, ◌^◌, min, Bool, true, false, not, ◌&&◌, Option, none, some, List, [], ◌∷◌,
  ◌++◌, length, ltb, ◌==◌, if◌then◌else◌, ◌>>=◌,
}
use crab_os.Desktop.Pairs.{Two, at, put}
use crab_os.Desktop.{
  Desktop, Screen, InputEvent, open_terminal_event, close_terminal_event, set_active_terminal,
}
use crab_os.Desktop.Mouse.{mouse_byte}
use crab_os.Desktop.Terminals.{open_terminal, close_terminal}
use crab_os.Shell.Commands.{Machine}
use crab_os.Shell.Session.{Shell, Session}
use crab_os.Shell.Loop.{DecodedKey, unicode, raw_key, handle_key, input_lost, reset_for_resize}
use crab_os.Shell.Loop

-- The three events of the queue; the desktop sends two of them.
pub data Event : Type 0 where
  scancode : ℕ → Event
  from_desktop : InputEvent → Event

-- The queue's capacity, in `ScancodeStream::new`.
abbrev pub queue_size : ℕ
queue_size = 100

-- The desktop, the shells and the decoder of `run_shell`, the count of drops that it has seen, and the
-- statics `SCANCODE_QUEUE` and `DROPPED_SCANCODES`.
pub record Kernel (Decoder : Type 0) : Type 0 where
  pub screen : Screen
  pub shells : Two (Option Shell)
  pub keyboard : Decoder
  pub seen : ℕ
  pub queue : List Event
  pub dropped : ℕ

-- `fresh == Some(index)`
abbrev pub is_fresh : Option ℕ → ℕ → Bool
is_fresh none index = false
is_fresh (some fresh) index = fresh == index

-- The key is this character.
abbrev pub is_character : ℕ → DecodedKey → Bool
is_character code (unicode c) = c == code
is_character code (raw_key key) = false

module _ {Decoder : Type 0} where
  -- `queue.push(event)`, and whether there was room.
  abbrev pub push : Event → Kernel Decoder → Kernel Decoder × Bool
  push event k =
      if ltb (length k.queue) queue_size
      then (record k { queue = k.queue ++ event ∷ [] }, true)
      else (k, false)

  -- An event that does not fit is counted, in a word that wraps.
  unfoldable pub add_scancode : ℕ → Kernel Decoder → Kernel Decoder
  add_scancode code k =
      let (k', fits) = push (scancode code) k in
      if fits then k' else record k' { dropped = (k'.dropped + 1) % 2 ^ 64 }

  unfoldable pub desktop_action : InputEvent → Kernel Decoder → Kernel Decoder
  desktop_action event k = (push (from_desktop event) k).0

  -- The events of the desktop, in their order.
  unfoldable pub send_all : List InputEvent → Kernel Decoder → Kernel Decoder
  send_all [] k = k
  send_all (event ∷ events) k = send_all events (desktop_action event k)

  -- `mouse_byte` in the mouse's interrupt.
  unfoldable pub add_mouse_byte : ℕ → Kernel Decoder → Option (Kernel Decoder)
  add_mouse_byte byte k = do
    screen ← mouse_byte (record (k.screen) { actions = [] }) byte
    some (send_all screen.actions (record k { screen = record screen { actions = [] } }))

  -- `desktop::is_open`
  abbrev pub is_open : ℕ → Kernel Decoder → Option Bool
  is_open index k = at k.screen.desktop.is_open (min index 1)

  -- `vga_buffer::set_active_terminal`
  abbrev pub to_terminal : ℕ → Kernel Decoder → Kernel Decoder
  to_terminal index k = record k { screen = set_active_terminal k.screen index }

  -- A shell's code, on the console that `with_writer` gives.
  unfoldable pub run_shell_at :
      (Session → Option Session) → ℕ → Shell → Kernel Decoder → Option (Kernel Decoder)
  run_shell_at code index shell k = do
    console ← at k.screen.terminals k.screen.active_terminal
    s ← code (record { shell = shell; console = console })
    terminals ← put k.screen.terminals k.screen.active_terminal s.console
    shells ← put k.shells index (some s.shell)
    some (record k { screen = record (k.screen) { terminals = terminals }; shells = shells })

  abbrev pub if_some :
      (Session → Option Session) → ℕ → Option Shell → Kernel Decoder → Option (Kernel Decoder)
  if_some code index none k = some k
  if_some code index (some shell) k = run_shell_at code index shell k

  -- `if let Some(shell) = shells[index].as_mut() { … }`
  abbrev pub with_shell : (Session → Option Session) → ℕ → Kernel Decoder → Option (Kernel Decoder)
  with_shell code index k = at k.shells index >>= λ found. if_some code index found k

  -- A round of the loop in `resize_open_shells`.
  unfoldable pub resize_at : Option ℕ → ℕ → Kernel Decoder → Option (Kernel Decoder)
  resize_at fresh index k = do
    opened ← is_open index k
    (if opened && not (is_fresh fresh index)
        then with_shell reset_for_resize index (to_terminal index k)
        else some k)

  unfoldable pub resize_open_shells : Option ℕ → Kernel Decoder → Option (Kernel Decoder)
  resize_open_shells fresh k = do
    k1 ← resize_at fresh 0 k
    k2 ← resize_at fresh 1 k1
    some (to_terminal k2.screen.desktop.active k2)

  unfoldable pub close_at : ℕ → Kernel Decoder → Option (Kernel Decoder)
  close_at index k = do
    screen ← close_terminal k.screen index
    resize_open_shells none (record k { screen = screen })

  -- Ctrl+C.
  unfoldable pub close_active : Kernel Decoder → Option (Kernel Decoder)
  close_active k = do
    let active = k.screen.desktop.active
    opened ← is_open active k
    (if opened then close_at active k else some k)

  -- A shell is made for a terminal that never had one.
  abbrev pub create_shell : Machine → ℕ → Kernel Decoder → Option (Kernel Decoder)
  create_shell m index k = do
    let k1 = to_terminal index k
    console ← at k1.screen.terminals k1.screen.active_terminal
    s ← Loop.new m console
    terminals ← put k1.screen.terminals k1.screen.active_terminal s.console
    shells ← put k1.shells index (some s.shell)
    some (record k1 { screen = record (k1.screen) { terminals = terminals }; shells = shells })

  abbrev pub start_shell : Machine → ℕ → Option Shell → Kernel Decoder → Option (Kernel Decoder)
  start_shell m index none k = create_shell m index k >>= resize_open_shells (some index)
  start_shell m index (some shell) k = resize_open_shells none k

  abbrev pub opened_at : Machine → Option ℕ → Kernel Decoder → Option (Kernel Decoder)
  opened_at m none k = some k
  opened_at m (some index) k = at k.shells index >>= λ found. start_shell m index found k

  -- Ctrl+Q.
  unfoldable pub open_another : Machine → Kernel Decoder → Option (Kernel Decoder)
  open_another m k = do
    (screen, index) ← open_terminal k.screen
    opened_at m index (record k { screen = screen })

  -- Any other key, for the active terminal if it is open.
  unfoldable pub forward : Machine → DecodedKey → Kernel Decoder → Option (Kernel Decoder)
  forward m key k = do
    let active = k.screen.desktop.active
    opened ← is_open active k
    (if opened then with_shell (handle_key m key) active (to_terminal active k) else some k)

  -- The `match` on the key.
  unfoldable pub on_key : Machine → DecodedKey → Kernel Decoder → Option (Kernel Decoder)
  on_key m key k =
      if is_character 3 key
      then close_active k
      else if is_character 0x11 key
      then open_another m k
      else forward m key k

  abbrev pub on_decoded : Machine → Option DecodedKey → Kernel Decoder → Option (Kernel Decoder)
  on_decoded m none k = some k
  on_decoded m (some key) k = on_key m key k

  -- The shell of the active terminal loses its line.
  abbrev pub lost_at : ℕ → Option Shell → Kernel Decoder → Option (Kernel Decoder)
  lost_at active none k = some k
  lost_at active (some shell) k = run_shell_at input_lost active shell (to_terminal active k)

  -- The branch for bytes that were lost.
  unfoldable pub recover : Decoder → Kernel Decoder → Option (Kernel Decoder)
  recover decoder k = do
    let k1 = record k { queue = []; keyboard = decoder; seen = k.dropped }
    let active = k1.screen.desktop.active
    opened ← is_open active k1
    (if opened then (at k1.shells active >>= λ found. lost_at active found k1) else some k1)

  module _ (decoder : Decoder) (decode : Decoder → ℕ → Decoder × Option DecodedKey) where
    -- The branch for an event.
    unfoldable pub on_event : Machine → Event → Kernel Decoder → Option (Kernel Decoder)
    on_event m (from_desktop open_terminal_event) k = on_key m (unicode 0x11) k
    on_event m (from_desktop (close_terminal_event index)) k = close_at index k
    on_event m (scancode code) k =
        let (keyboard, key) = decode k.keyboard code in
        on_decoded m key (record k { keyboard = keyboard })

    -- A round of the loop in `run_shell`, with the event that the stream gave.
    unfoldable pub round : Machine → Event → Kernel Decoder → Option (Kernel Decoder)
    round m event k = if not (k.dropped == k.seen) then recover decoder k else on_event m event k

    -- `poll_next` and the round: nothing happens where the queue is empty.
    unfoldable pub next_event : Machine → Kernel Decoder → Option (Kernel Decoder)
    next_event m k = elim k.queue [
      | [] ↦ some k
      | event ∷ rest ↦ round m event (record k { queue = rest })
    ]
