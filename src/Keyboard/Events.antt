-- ===== src/Keyboard/Events.antt =====
-- The events of the keyboard task keep the kernel valid: a key for a shell, and closing a terminal.
use crab_os.Prelude.{
  if-eq_true, if-eq_false, ℕ, zero, suc, min, ◌<◌, ◌≡◌, refl, ap, ◌∙◌, Bool, true, Option, some,
  List, [], arith, if◌then◌else◌, Bool-cases, inl, inr, ◌>>=◌,
}
use crab_os.Desktop.Pairs.{at}
use crab_os.Shell.Line.{Line}
use crab_os.Shell.Line.Text.{Text}
use crab_os.Shell.Commands.{Machine}
use crab_os.Shell.Session.{Session}
use crab_os.Shell.Session.Ready.{IsReady}
use crab_os.Shell.Loop.{DecodedKey, handle_key, input_lost}
use crab_os.Shell.Loop.Keys.{input_lost-Leaves}
use crab_os.Shell.Loop.Handle.{handle_key-Handles}
use crab_os.Keyboard.{Kernel, to_terminal, with_shell, forward, lost_at, recover}
use crab_os.Keyboard.Valid.{KernelValid, Keeps, Serves-Terminal}
use crab_os.Keyboard.Resize.{
  with_zeroth, with_first, run_zeroth, run_first, lose_zeroth, lose_first,
}

-- Code that leaves every shell that is ready ready.
abbrev pub KeepsReady : (Session → Option Session) → Type 0
KeepsReady code =
    (s : Session) (t : Text) (entries : List Line)
    → IsReady s t entries
    → (after : Session) × (code s ≡ some after)
      × (t' : Text) × (entries' : List Line) × IsReady after t' entries'

handle_key-KeepsReady : (m : Machine) (key : DecodedKey) → KeepsReady (handle_key m key)
handle_key-KeepsReady m key s t entries ready =
    let r = handle_key-Handles m s ready key in (r.after, r.returns, r.text, r.entries, r.ready)

input_lost-KeepsReady : KeepsReady input_lost
input_lost-KeepsReady s t entries ready =
    let r = input_lost-Leaves s ready in (r.after, r.returns, _, entries, r.ready)

open_of : (b : Bool) → some b ≡ some true → b ≡ true
open_of b h = cc

module _ {Decoder : Type 0} where
  -- Such code, on the shell of an open terminal.
  run_open-Keeps :
      (code : Session → Option Session) (index : ℕ) (k : Kernel Decoder)
      → KeepsReady code
      → KernelValid k
      → at k.screen.desktop.is_open index ≡ some true
      → Keeps (with_shell code index (to_terminal index k))
  run_open-Keeps code zero k total v o =
      let z = v.zeroth.serves (open_of _ o) in
      let (s, e, t, entries, ready) =
        total (record { shell = z.is; console = k.screen.terminals.zeroth }) z.text z.entries
          z.ready in
      record {
        after = with_zeroth k 0 s;
        returns = run_zeroth code k z.is s z.there e;
        valid = record {
          desktop = v.desktop;
          zeroth =
              Serves-Terminal
                (record { is = s.shell; there = refl; text = t; entries = entries; ready = ready });
          first = v.first;
        };
      }
  run_open-Keeps code (suc zero) k total v o =
      let z = v.first.serves (open_of _ o) in
      let (s, e, t, entries, ready) =
        total (record { shell = z.is; console = k.screen.terminals.first }) z.text z.entries
          z.ready in
      record {
        after = with_first k 1 s;
        returns = run_first code k z.is s z.there e;
        valid = record {
          desktop = v.desktop;
          zeroth = v.zeroth;
          first =
              Serves-Terminal
                (record { is = s.shell; there = refl; text = t; entries = entries; ready = ready });
        };
      }
  run_open-Keeps code (suc (suc index)) k total v o = cc

  unchanged-Keeps : {k : Kernel Decoder} → KernelValid k → Keeps (some k)
  unchanged-Keeps {k} v = record { after = k; returns = refl; valid = v }

  -- The branch on whether a terminal is open.
  pub if_open-Keeps :
      (index : ℕ) (k : Kernel Decoder) (code : Option (Kernel Decoder))
      → index < 2
      → KernelValid k
      → (at k.screen.desktop.is_open index ≡ some true → Keeps code)
      → Keeps
          (at k.screen.desktop.is_open (min index 1) >>= λ opened. if opened then code else some k)
  if_open-Keeps zero k code h v run = elim (Bool-cases k.screen.desktop.is_open.zeroth) [
    | inl e ↦
        let r = run (ap some e) in
        record { after = r.after; returns = if-eq_true _ _ e ∙ r.returns; valid = r.valid }
    | inr e ↦ record { after = k; returns = if-eq_false _ _ e; valid = v }
  ]
  if_open-Keeps (suc zero) k code h v run = elim (Bool-cases k.screen.desktop.is_open.first) [
    | inl e ↦
        let r = run (ap some e) in
        record { after = r.after; returns = if-eq_true _ _ e ∙ r.returns; valid = r.valid }
    | inr e ↦ record { after = k; returns = if-eq_false _ _ e; valid = v }
  ]
  if_open-Keeps (suc (suc index)) k code h v run = absurd (omega arith)

  pub forward-Keeps :
      (m : Machine) (key : DecodedKey) (k : Kernel Decoder)
      → KernelValid k
      → Keeps (forward m key k)
  unfolding forward
  forward-Keeps m key k v =
      let active = k.screen.desktop.active in
      if_open-Keeps active k (with_shell (handle_key m key) active (to_terminal active k))
        v.desktop.sound.active v
        (run_open-Keeps (handle_key m key) active k (handle_key-KeepsReady m key) v)

  lost-Keeps :
      (index : ℕ) (k : Kernel Decoder)
      → KernelValid k
      → at k.screen.desktop.is_open index ≡ some true
      → Keeps (at k.shells index >>= λ found. lost_at index found k)
  lost-Keeps zero k v o =
      let z = v.zeroth.serves (open_of _ o) in
      let (s, e, t, entries, ready) =
        input_lost-KeepsReady (record { shell = z.is; console = k.screen.terminals.zeroth }) z.text
          z.entries z.ready in
      record {
        after = with_zeroth k 0 s;
        returns = lose_zeroth k z.is s z.there e;
        valid = record {
          desktop = v.desktop;
          zeroth =
              Serves-Terminal
                (record { is = s.shell; there = refl; text = t; entries = entries; ready = ready });
          first = v.first;
        };
      }
  lost-Keeps (suc zero) k v o =
      let z = v.first.serves (open_of _ o) in
      let (s, e, t, entries, ready) =
        input_lost-KeepsReady (record { shell = z.is; console = k.screen.terminals.first }) z.text
          z.entries z.ready in
      record {
        after = with_first k 1 s;
        returns = lose_first k z.is s z.there e;
        valid = record {
          desktop = v.desktop;
          zeroth = v.zeroth;
          first =
              Serves-Terminal
                (record { is = s.shell; there = refl; text = t; entries = entries; ready = ready });
        };
      }
  lost-Keeps (suc (suc index)) k v o = cc

  pub recover-Keeps :
      (decoder : Decoder) (k : Kernel Decoder) → KernelValid k → Keeps (recover decoder k)
  unfolding recover
  recover-Keeps decoder k v =
      let k1 = record k { queue = []; keyboard = decoder; seen = k.dropped } in
      let v1 : KernelValid k1 = record {
        desktop = v.desktop;
        zeroth = v.zeroth;
        first = v.first;
      } in
      let active = k1.screen.desktop.active in
      if_open-Keeps active k1 (at k1.shells active >>= λ found. lost_at active found k1)
        v1.desktop.sound.active v1 (lost-Keeps active k1 v1)
