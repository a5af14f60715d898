-- ===== src/Os/Kernel/Safety/Returns.antt =====
-- What holds of the kernel where a call returns.
use tiny_processors.Prelude.{◌≡◌, Bool, true, false, if◌then◌else◌}
use tiny_processors.Os.Kernel.{Kernel, Outcome, returns, halts, panics, ◌>>=◌}
use tiny_processors.Os.Kernel.Safety.{Quiet, Quiet-same, Quiet-trans}

module _ {B D A : Type 0} (P : A → Kernel B D → Type 0) where
  abbrev pub OnReturn : Outcome B D A → Type 0
  OnReturn (returns a k) = P a k
  OnReturn (halts code k) = Unit
  OnReturn (panics k) = Unit

pub OnReturn-bind :
    {B D A C : Type 0} (P : A → Kernel B D → Type 0) (Q : C → Kernel B D → Type 0)
    (m : Outcome B D A) (f : A × Kernel B D → Outcome B D C)
    → OnReturn P m
    → ((a : A) (k : Kernel B D) → P a k → OnReturn Q (f (a, k)))
    → OnReturn Q (m >>= f)
OnReturn-bind P Q (returns a k) f h next = next a k h
OnReturn-bind P Q (halts code k) f h next = tt
OnReturn-bind P Q (panics k) f h next = tt

pub OnReturn-map :
    {B D A : Type 0} (P Q : A → Kernel B D → Type 0) (m : Outcome B D A)
    → OnReturn P m
    → ((a : A) (k : Kernel B D) → P a k → Q a k)
    → OnReturn Q m
OnReturn-map P Q (returns a k) h next = next a k h
OnReturn-map P Q (halts code k) h next = tt
OnReturn-map P Q (panics k) h next = tt

module _ {B D A : Type 0} where
  -- The call leaves the process table quiet, where it returns.
  unfoldable pub Asks : Kernel B D → Outcome B D A → Type 0
  Asks k m = OnReturn (λ a k'. Quiet k.procs k'.procs) m

  pub Asks-returns : (k k' : Kernel B D) (a : A) → Quiet k.procs k'.procs → Asks k (returns a k')
  unfolding Asks
  Asks-returns k k' a quiet = quiet

  pub Asks-same : (k k' : Kernel B D) (a : A) → k'.procs ≡ k.procs → Asks k (returns a k')
  Asks-same k k' a same = Asks-returns k k' a (Quiet-same same)

  pub Asks-if :
      (k : Kernel B D) (b : Bool) (m n : Outcome B D A)
      → Asks k m
      → Asks k n
      → Asks k (if b then m else n)
  Asks-if k true m n h g = h
  Asks-if k false m n h g = g

  -- A call after a step that is quiet.
  pub Asks-after :
      (k l : Kernel B D) (m : Outcome B D A) → Quiet k.procs l.procs → Asks l m → Asks k m
  unfolding Asks
  Asks-after k l m quiet h = OnReturn-map _ _ m h (λ a k' onward. Quiet-trans quiet onward)
