-- ===== src/Keyboard/Resize.antt =====
-- `resize_open_shells`: every open terminal but a fresh one gets a fresh prompt.
use crab_os.Prelude.{
  if-eq_true, if-eq_false, ℕ, ◌≡◌, refl, sym, ap, ◌∙◌, subst, Bool, true, false, not, ◌&&◌, Option,
  some, arith, Bool-cases, inl, inr, ◌>>=◌,
}
use crab_os.Vga.Console.{Writer}
use crab_os.Desktop.Pairs.{at}
use crab_os.Desktop.{Desktop}
use crab_os.Desktop.Layout.{IsValid}
use crab_os.Shell.Session.{Shell, Session}
use crab_os.Shell.Loop.{reset_for_resize, input_lost}
use crab_os.Shell.Loop.Start.{Sized, reset_for_resize-Leaves}
use crab_os.Keyboard.{
  Kernel, is_fresh, to_terminal, run_shell_at, if_some, with_shell, lost_at, resize_at,
  resize_open_shells,
}
use crab_os.Keyboard.Valid.{Remembers, Serves, Terminal, Keeps, Serves-Terminal}

-- A terminal before the loop: an open one has a shell, and a fresh one is ready.
pub record Pending (fresh is_open : Bool) (shell : Option Shell) (console : Writer) : Type 0 where
  pub sized : Sized console
  pub remembers : Remembers shell
  pub there : is_open ≡ true → (is : Shell) × (shell ≡ some is)
  pub serves : fresh ≡ true → Serves shell console

-- The reset of a shell on its console.
reset-Serves :
    (is : Shell) (console : Writer)
    → Sized console
    → Remembers (some is)
    → (s : Session) × (reset_for_resize (record { shell = is; console = console }) ≡ some s)
      × Serves (some s.shell) s.console
reset-Serves is console sized (entries, kept) =
    let q = reset_for_resize-Leaves (record { shell = is; console = console }) kept sized in
    (
      q.after,
      q.returns,
      record { is = q.after.shell; there = refl; text = _; entries = entries; ready = q.ready },
    )

-- A terminal that is not reset: it is fresh, or closed.
kept_as_is :
    {fresh is_open : Bool} {shell : Option Shell} {console : Writer}
    → Pending fresh is_open shell console
    → (is_open && not fresh) ≡ false
    → Terminal is_open shell console
kept_as_is {fresh} p skip = record {
  sized = p.sized;
  remembers = p.remembers;
  serves = λ o. p.serves (fresh_of fresh _ o skip);
}
  where
    fresh_of : (a b : Bool) → b ≡ true → (b && not a) ≡ false → a ≡ true
    fresh_of true b o h = refl
    fresh_of false true o h = cc
    fresh_of false false o h = cc

and-left : (a b : Bool) → (a && b) ≡ true → a ≡ true
and-left a b h = ground arith

-- What is said of a terminal, said of the same one under another name.
pub same_terminal :
    (P : Bool → Option Shell → Writer → Type 0) {o o' : Bool} {sh sh' : Option Shell}
    {c c' : Writer}
    → o ≡ o'
    → sh ≡ sh'
    → c ≡ c'
    → P o sh c
    → P o' sh' c'
same_terminal P {o} {o'} {sh} {sh'} {c} {c'} eo es ec h =
    subst (λ (x : Writer). P o' sh' x) ec
      (subst (λ (x : Option Shell). P o' x c) es (subst (λ (x : Bool). P x sh c) eo h))

abbrev first_open : Desktop → Bool
first_open d = d.is_open.first

abbrev zeroth_open : Desktop → Bool
zeroth_open d = d.is_open.zeroth

module _ {Decoder : Type 0} where
  abbrev pub with_zeroth : Kernel Decoder → ℕ → Session → Kernel Decoder
  with_zeroth k active s = record k {
    screen = record (k.screen) {
      active_terminal = active;
      terminals = record (k.screen.terminals) { zeroth = s.console };
    };
    shells = record (k.shells) { zeroth = some s.shell };
  }

  abbrev pub with_first : Kernel Decoder → ℕ → Session → Kernel Decoder
  with_first k active s = record k {
    screen = record (k.screen) {
      active_terminal = active;
      terminals = record (k.screen.terminals) { first = s.console };
    };
    shells = record (k.shells) { first = some s.shell };
  }

  -- Code that runs on the shell of a terminal, which has been made the one for output.
  pub run_zeroth :
      (code : Session → Option Session) (k : Kernel Decoder) (is : Shell) (s : Session)
      → k.shells.zeroth ≡ some is
      → code (record { shell = is; console = k.screen.terminals.zeroth }) ≡ some s
      → with_shell code 0 (to_terminal 0 k) ≡ some (with_zeroth k 0 s)
  unfolding run_shell_at
  run_zeroth code k is s there e =
      ap (λ (o : Option Shell). if_some code 0 o (to_terminal 0 k)) there ∙ rw e refl

  pub run_first :
      (code : Session → Option Session) (k : Kernel Decoder) (is : Shell) (s : Session)
      → k.shells.first ≡ some is
      → code (record { shell = is; console = k.screen.terminals.first }) ≡ some s
      → with_shell code 1 (to_terminal 1 k) ≡ some (with_first k 1 s)
  unfolding run_shell_at
  run_first code k is s there e =
      ap (λ (o : Option Shell). if_some code 1 o (to_terminal 1 k)) there ∙ rw e refl

  pub lose_zeroth :
      (k : Kernel Decoder) (is : Shell) (s : Session)
      → k.shells.zeroth ≡ some is
      → input_lost (record { shell = is; console = k.screen.terminals.zeroth }) ≡ some s
      → (at k.shells 0 >>= λ found. lost_at 0 found k) ≡ some (with_zeroth k 0 s)
  unfolding run_shell_at
  lose_zeroth k is s there e = ap (λ (o : Option Shell). lost_at 0 o k) there ∙ rw e refl

  pub lose_first :
      (k : Kernel Decoder) (is : Shell) (s : Session)
      → k.shells.first ≡ some is
      → input_lost (record { shell = is; console = k.screen.terminals.first }) ≡ some s
      → (at k.shells 1 >>= λ found. lost_at 1 found k) ≡ some (with_first k 1 s)
  unfolding run_shell_at
  lose_first k is s there e = ap (λ (o : Option Shell). lost_at 1 o k) there ∙ rw e refl

  -- A round of the loop makes its terminal good, and leaves the other one and the desktop.
  record DoneZeroth (fresh : Option ℕ) (k : Kernel Decoder) : Type 0 where
    after : Kernel Decoder
    returns : resize_at fresh 0 k ≡ some after
    done :
        Terminal k.screen.desktop.is_open.zeroth after.shells.zeroth after.screen.terminals.zeroth
    desktop : after.screen.desktop ≡ k.screen.desktop
    shell : after.shells.first ≡ k.shells.first
    console : after.screen.terminals.first ≡ k.screen.terminals.first

  record DoneFirst (fresh : Option ℕ) (k : Kernel Decoder) : Type 0 where
    after : Kernel Decoder
    returns : resize_at fresh 1 k ≡ some after
    done : Terminal k.screen.desktop.is_open.first after.shells.first after.screen.terminals.first
    desktop : after.screen.desktop ≡ k.screen.desktop
    shell : after.shells.zeroth ≡ k.shells.zeroth
    console : after.screen.terminals.zeroth ≡ k.screen.terminals.zeroth

  resize_zeroth :
      (fresh : Option ℕ) (k : Kernel Decoder)
      → Pending
          (is_fresh fresh 0)
          k.screen.desktop.is_open.zeroth
          k.shells.zeroth
          k.screen.terminals.zeroth
      → DoneZeroth fresh k
  unfolding resize_at
  resize_zeroth fresh k p =
      elim (Bool-cases (k.screen.desktop.is_open.zeroth && not (is_fresh fresh 0))) [
        | inl go ↦
            let (is, there) = p.there (and-left _ _ go) in
            let (s, e, serves) =
              reset-Serves is k.screen.terminals.zeroth p.sized
                (subst Remembers there p.remembers) in
            record {
              after = with_zeroth k 0 s;
              returns = if-eq_true _ _ go ∙ run_zeroth reset_for_resize k is s there e;
              done = Serves-Terminal serves;
              desktop = refl;
              shell = refl;
              console = refl;
            }
        | inr skip ↦ record {
          after = k;
          returns = if-eq_false _ _ skip;
          done = kept_as_is p skip;
          desktop = refl;
          shell = refl;
          console = refl;
        }
      ]

  resize_first :
      (fresh : Option ℕ) (k : Kernel Decoder)
      → Pending
          (is_fresh fresh 1)
          k.screen.desktop.is_open.first
          k.shells.first
          k.screen.terminals.first
      → DoneFirst fresh k
  unfolding resize_at
  resize_first fresh k p =
      elim (Bool-cases (k.screen.desktop.is_open.first && not (is_fresh fresh 1))) [
        | inl go ↦
            let (is, there) = p.there (and-left _ _ go) in
            let (s, e, serves) =
              reset-Serves is k.screen.terminals.first p.sized
                (subst Remembers there p.remembers) in
            record {
              after = with_first k 1 s;
              returns = if-eq_true _ _ go ∙ run_first reset_for_resize k is s there e;
              done = Serves-Terminal serves;
              desktop = refl;
              shell = refl;
              console = refl;
            }
        | inr skip ↦ record {
          after = k;
          returns = if-eq_false _ _ skip;
          done = kept_as_is p skip;
          desktop = refl;
          shell = refl;
          console = refl;
        }
      ]

  -- After the loop the kernel is valid.
  pub resize-Keeps :
      (fresh : Option ℕ) (k : Kernel Decoder)
      → IsValid k.screen.desktop
      → Pending
          (is_fresh fresh 0)
          k.screen.desktop.is_open.zeroth
          k.shells.zeroth
          k.screen.terminals.zeroth
      → Pending
          (is_fresh fresh 1)
          k.screen.desktop.is_open.first
          k.shells.first
          k.screen.terminals.first
      → Keeps (resize_open_shells fresh k)
  unfolding resize_open_shells
  resize-Keeps fresh k v p q =
      let a = resize_zeroth fresh k p in
      let q' : Pending (is_fresh fresh 1) a.after.screen.desktop.is_open.first a.after.shells.first
          a.after.screen.terminals.first =
        same_terminal (Pending (is_fresh fresh 1)) (ap first_open (sym a.desktop)) (sym a.shell)
          (sym a.console) q in
      let b = resize_first fresh a.after q' in
      record {
        after = to_terminal b.after.screen.desktop.active b.after;
        returns = rw a.returns (rw b.returns refl);
        valid = record {
          desktop = subst IsValid (sym (b.desktop ∙ a.desktop)) v;
          zeroth =
              same_terminal Terminal (ap zeroth_open (sym (b.desktop ∙ a.desktop))) (sym b.shell)
                (sym b.console) a.done;
          first = same_terminal Terminal (ap first_open (sym b.desktop)) refl refl b.done;
        };
      }
