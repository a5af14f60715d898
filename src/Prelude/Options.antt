-- ===== src/Prelude/Options.antt =====
-- Predicates on what an option holds.
use mathlib.Core.Path.{◌≡◌, refl, subst}
use mathlib.Core.Bool.{Bool, true, false}
use mathlib.Core.Option.{Option, none, some}
use tiny_processors.Prelude.Tests.{if◌then◌else◌}

infixl 5 ◌>>=◌
abbrev pub ◌>>=◌ {ℓ κ} : {A : Type ℓ} {B : Type κ} → Option A → (A → Option B) → Option B
some a >>= f = f a
none >>= f = none

-- `P` holds of what the option holds.
pub record OnSome {ℓ κ} {A : Type ℓ} (P : A → Type κ) (m : Option A) : Type (ℓ ⊔ κ) where
  pub at : (a : A) → m ≡ some a → P a

abbrev Holds {ℓ κ} : {A : Type ℓ} → (A → Type κ) → Option A → Type κ
Holds P (some a) = P a
Holds P none = Unit

module _ {ℓ κ} {A : Type ℓ} {P : A → Type κ} where
  pub OnSome-some : (a : A) → P a → OnSome P (some a)
  OnSome-some a h = record { at = λ b e. subst (Holds P) e h }

  pub OnSome-none : OnSome P none
  OnSome-none = record { at = λ b e. cc }

  pub OnSome-if :
      (b : Bool) (m n : Option A)
      → (b ≡ true → OnSome P m)
      → (b ≡ false → OnSome P n)
      → OnSome P (if b then m else n)
  OnSome-if true m n f g = f refl
  OnSome-if false m n f g = g refl

pub ruleset on_some = (OnSome-some, OnSome-none, OnSome-if)
