-- ===== src/Keyboard/Lost.antt =====
-- Scancodes that found no room: the next round of `run_shell` starts over.
use crab_os.Prelude.{
  ℕ, zero, suc, min, ◌<◌, ◌≡◌, ◌≢◌, refl, sym, ap, ◌∙◌, Bool, true, false, not, Option, some, List,
  [], ◌∷◌, arith, if◌then◌else◌, if-eq_true, if-eq_false, Bool-cases, inl, inr, ◌>>=◌, ◌==◌,
  ==-eq_false,
}
use crab_os.Vga.Console.{Writer}
use crab_os.Desktop.Pairs.{at}
use crab_os.Shell.Line.{Line}
use crab_os.Shell.Line.Text
use crab_os.Shell.Session.{Shell}
use crab_os.Shell.Session.Ready.{IsReady}
use crab_os.Shell.Loop.{DecodedKey}
use crab_os.Shell.Loop.Keys.{input_lost-Leaves}
use crab_os.Shell.Commands.{Machine}
use crab_os.Keyboard.{Event, Kernel, lost_at, recover, round, next_event}
use crab_os.Keyboard.Valid.{KernelValid, Serves-Terminal}
use crab_os.Keyboard.Resize.{with_zeroth, with_first, lose_zeroth, lose_first}

-- An open terminal has a shell that is ready with an empty line.
abbrev pub Emptied : Bool → Option Shell → Writer → Type 0
Emptied false shell console = Unit
Emptied true shell console =
    (is : Shell) × (shell ≡ some is)
    × (entries : List Line) × IsReady (record { shell = is; console = console }) Text.empty entries

module _ {Decoder : Type 0} where
  -- The same for the terminal of an index.
  abbrev pub EmptiedAt : ℕ → Kernel Decoder → Type 0
  EmptiedAt zero k =
      Emptied k.screen.desktop.is_open.zeroth k.shells.zeroth k.screen.terminals.zeroth
  EmptiedAt (suc index) k =
      Emptied k.screen.desktop.is_open.first k.shells.first k.screen.terminals.first

  -- The rest of the kernel is as before.
  record Loses (index : ℕ) (k : Kernel Decoder) (result : Option (Kernel Decoder)) : Type 0 where
    pub after : Kernel Decoder
    pub returns : result ≡ some after
    pub queue : after.queue ≡ k.queue
    pub keyboard : after.keyboard ≡ k.keyboard
    pub seen : after.seen ≡ k.seen
    pub dropped : after.dropped ≡ k.dropped
    pub desktop : after.screen.desktop ≡ k.screen.desktop
    pub valid : KernelValid after
    pub emptied : EmptiedAt index after

  loses :
      (index : ℕ) (k : Kernel Decoder)
      → index < 2
      → KernelValid k
      → Loses index k (
          at k.screen.desktop.is_open (min index 1) >>= λ opened.
          if opened then (at k.shells index >>= λ found. lost_at index found k) else some k)
  loses zero k h v = elim (Bool-cases k.screen.desktop.is_open.zeroth) [
    | inl e ↦
        let z = v.zeroth.serves e in
        let r =
          input_lost-Leaves (record { shell = z.is; console = k.screen.terminals.zeroth })
            z.ready in
        record {
          after = with_zeroth k 0 r.after;
          returns = if-eq_true _ _ e ∙ lose_zeroth k z.is r.after z.there r.returns;
          queue = refl;
          keyboard = refl;
          seen = refl;
          dropped = refl;
          desktop = refl;
          valid = record {
            desktop = v.desktop;
            zeroth = Serves-Terminal (record {
              is = r.after.shell;
              there = refl;
              text = Text.empty;
              entries = z.entries;
              ready = r.ready;
            });
            first = v.first;
          };
          emptied = rw e (r.after.shell, refl, z.entries, r.ready);
        }
    | inr e ↦ record {
      after = k;
      returns = if-eq_false _ _ e;
      queue = refl;
      keyboard = refl;
      seen = refl;
      dropped = refl;
      desktop = refl;
      valid = v;
      emptied = rw e tt;
    }
  ]
  loses (suc zero) k h v = elim (Bool-cases k.screen.desktop.is_open.first) [
    | inl e ↦
        let z = v.first.serves e in
        let r =
          input_lost-Leaves (record { shell = z.is; console = k.screen.terminals.first }) z.ready in
        record {
          after = with_first k 1 r.after;
          returns = if-eq_true _ _ e ∙ lose_first k z.is r.after z.there r.returns;
          queue = refl;
          keyboard = refl;
          seen = refl;
          dropped = refl;
          desktop = refl;
          valid = record {
            desktop = v.desktop;
            zeroth = v.zeroth;
            first = Serves-Terminal (record {
              is = r.after.shell;
              there = refl;
              text = Text.empty;
              entries = z.entries;
              ready = r.ready;
            });
          };
          emptied = rw e (r.after.shell, refl, z.entries, r.ready);
        }
    | inr e ↦ record {
      after = k;
      returns = if-eq_false _ _ e;
      queue = refl;
      keyboard = refl;
      seen = refl;
      dropped = refl;
      desktop = refl;
      valid = v;
      emptied = rw e tt;
    }
  ]
  loses (suc (suc index)) k h v = absurd (omega arith)

  -- The loop starts over.
  pub record StartsOver (decoder : Decoder) (k : Kernel Decoder) (result : Option (Kernel Decoder))
      : Type 0 where
    pub after : Kernel Decoder
    pub returns : result ≡ some after
    pub queue : after.queue ≡ []
    pub keyboard : after.keyboard ≡ decoder
    pub seen : after.seen ≡ after.dropped
    pub desktop : after.screen.desktop ≡ k.screen.desktop
    pub valid : KernelValid after
    pub emptied : EmptiedAt k.screen.desktop.active after

  module _ (decoder : Decoder) (decode : Decoder → ℕ → Decoder × Option DecodedKey) where
    -- On a valid kernel, where the count of drops is not the one that the loop has seen, the next round
    -- panics nowhere. It takes none of the events that wait, and empties the queue; the decoder is a
    -- fresh one, the drops are seen, the desktop is unchanged, and the active terminal, if it is open,
    -- has a shell that is ready with an empty line.
    pub next_event-StartsOver :
        (m : Machine) (k : Kernel Decoder) (event : Event) (rest : List Event)
        → KernelValid k
        → k.queue ≡ event ∷ rest
        → k.dropped ≢ k.seen
        → StartsOver decoder k (next_event decoder decode m k)
    unfolding next_event round recover
    next_event-StartsOver m k event rest v waiting other =
        let k1 = record k { queue = []; keyboard = decoder; seen = k.dropped } in
        let v1 : KernelValid k1 = record {
          desktop = v.desktop;
          zeroth = v.zeroth;
          first = v.first;
        } in
        let r = loses k1.screen.desktop.active k1 v.desktop.sound.active v1 in
        let differs : (k.dropped == k.seen) ≡ false = ==-eq_false k.dropped k.seen other in
        record {
          after = r.after;
          returns = rw waiting (if-eq_true _ _ (ap not differs) ∙ r.returns);
          queue = r.queue;
          keyboard = r.keyboard;
          seen = r.seen ∙ sym r.dropped;
          desktop = r.desktop;
          valid = r.valid;
          emptied = r.emptied;
        }
