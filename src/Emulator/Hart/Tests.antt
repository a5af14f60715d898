-- ===== src/Emulator/Hart/Tests.antt =====
-- Traps on a concrete hart.
use tiny_processors.Prelude.{◌≡◌, arith, refl, true, false, ◌||◌, ◌==◌}
use tiny_processors.Emulator.Hart.{enter_handler, mret, sret, delegated}
use tiny_processors.Emulator.Hart.Samples.{user}
use tiny_processors.Emulator.Hart.Traps.{Resumes, mret-enter_handler, sret-enter_handler}

ecall_to_m : delegated 8 user ≡ false
unfolding delegated
ecall_to_m = refl

fault_to_s : delegated 13 user ≡ true
unfolding delegated
fault_to_s = refl

mret-enter_handler_example : Resumes (λ k. k == 7 || k == 17) user (mret (enter_handler 8 0 user))
mret-enter_handler_example = mret-enter_handler 8 0 user (omega arith) ecall_to_m

sret-enter_handler_example :
    Resumes (λ k. k == 5 || (k == 8 || k == 17)) user (sret (enter_handler 13 0x1000 user))
sret-enter_handler_example = sret-enter_handler 13 0x1000 user (omega arith) refl fault_to_s
