-- ===== src/Emulator/Access.antt =====
-- `mem_access` of tools/rv32emu_core.c with what the access hands over: a handler that succeeds
-- returns a value beside ACC_OK.
use tiny_processors.Prelude.{◌≡◌, refl, subst, Bool, true, false, if◌then◌else◌}

pub data Access {ℓ} (A : Type ℓ) : Type ℓ where
  acc_ok : A → Access A
  acc_fault acc_misaligned acc_page_fault : Access A

infixl 5 ◌>>=◌
abbrev pub ◌>>=◌ {ℓ κ} : {A : Type ℓ} {B : Type κ} → Access A → (A → Access B) → Access B
acc_ok a >>= f = f a
acc_fault >>= f = acc_fault
acc_misaligned >>= f = acc_misaligned
acc_page_fault >>= f = acc_page_fault

-- `P` holds of what a successful access hands over.
pub record OnOk {ℓ κ} {A : Type ℓ} (P : A → Type κ) (m : Access A) : Type (ℓ ⊔ κ) where
  pub at : (a : A) → m ≡ acc_ok a → P a

abbrev Holds {ℓ κ} : {A : Type ℓ} → (A → Type κ) → Access A → Type κ
Holds P (acc_ok a) = P a
Holds P acc_fault = Unit
Holds P acc_misaligned = Unit
Holds P acc_page_fault = Unit

module _ {ℓ κ} {A : Type ℓ} {P : A → Type κ} where
  pub OnOk-ok : (a : A) → P a → OnOk P (acc_ok a)
  OnOk-ok a h = record { at = λ b e. subst (Holds P) e h }

  pub OnOk-fault : OnOk P acc_fault
  OnOk-fault = record { at = λ b e. cc }

  pub OnOk-if :
      (b : Bool) (m n : Access A)
      → (b ≡ true → OnOk P m)
      → (b ≡ false → OnOk P n)
      → OnOk P (if b then m else n)
  OnOk-if true m n f g = f refl
  OnOk-if false m n f g = g refl

module _ {ℓ κ} {A B : Type ℓ} {P : B → Type κ} where
  pub OnOk-bind :
      (m : Access A) (f : A → Access B) → ((a : A) → m ≡ acc_ok a → OnOk P (f a)) → OnOk P (m >>= f)
  OnOk-bind (acc_ok a) f h = h a refl
  OnOk-bind acc_fault f h = OnOk-fault
  OnOk-bind acc_misaligned f h = record { at = λ b e. cc }
  OnOk-bind acc_page_fault f h = record { at = λ b e. cc }

pub ruleset on_ok = (OnOk-ok, OnOk-fault, OnOk-if)
