-- ===== src/Emulator/Step/Cycle/Tests.antt =====
-- A machine with a user program of two instructions, and what a step gives from it.
use tiny_processors.Prelude.{ℕ, refl, arith, true, false, [], replicate, set, if◌then◌else◌, ◌==◌}
use tiny_processors.Emulator.Access.{acc_fault}
use tiny_processors.Emulator.Bus.{Emu, Engines, running}
use tiny_processors.Emulator.Csr.Legal.{s_interrupts-mask}
use tiny_processors.Emulator.Csr.Untouched.{HasWords}
use tiny_processors.Emulator.Hart.{Hart}
use tiny_processors.Emulator.Hart.Legal.{IsLegal, same-IsLegal}
use tiny_processors.Emulator.Hart.Samples.{user}
use tiny_processors.Emulator.Plic.{plic_reset}
use tiny_processors.Emulator.Step.Cycle
use tiny_processors.Emulator.Virtio.Samples.{waiting}
use tiny_processors.Emulator.Step.Cycle.Accounts.{Accounts, HandlesOrHalts}
use tiny_processors.Emulator.Step.Cycle.Budget.{Returns, emu_run_until-Returns}
use tiny_processors.Emulator.Step.Cycle.Service.{Serves}
use tiny_processors.Emulator.Step.Cycle.Confined.{IsConfined}
use tiny_processors.Emulator.Step.Cycle.Steps.{
  Gives, step-Serves, step-IsLegal, step-IsConfined, step-HandlesOrHalts, step-Accounts,
}

-- Engines that refuse every access and do nothing, and a floating-point unit that returns zero.
abbrev idle : Engines ℕ
idle = record {
  engine_load = λ w offset width d. acc_fault;
  engine_store = λ w offset width value d ram input. acc_fault;
  engine_tick = λ d ram input. record { devices = d; ram = ram; input = input; written = [] };
  ram_locked = λ d addr width. false;
  rounds = 8;
  frames = λ d. d;
}

abbrev no_float : ℕ → ℕ → ℕ → ℕ → ℕ → ℕ × ℕ
no_float op rm a b c = (0, 0)

-- addi x1, x0, 5 and ecall, at the user's pc.
abbrev program : ℕ → ℕ
program at =
    if at == 0x100 then 0x93 else if at == 0x102 then 0x50 else if at == 0x104 then 0x73 else 0

abbrev hart : Hart
hart = record user {
  mie = 0xaaa;
  mideleg = 0x222;
  pmp = record { pmpcfg = set (replicate 8 0) 0 0x1f; pmpaddr = replicate 8 0xffff_ffff };
}

abbrev machine : Emu ℕ
machine = record {
  machine = record {
    hart = hart;
    clint = record { mtime_offset = 0; mtimecmp = 0xffff_ffff_ffff_ffff; msip = 0 };
    plic = plic_reset;
    steps = 40;
    retired = 38;
  };
  console = record {
    input = [];
    in_next = 0;
    stdin = false;
    arrivals = [];
    ier = 0;
    lcr = 0;
    mcr = 0;
    scr = 0;
    dll = 0;
    dlm = 0;
    latched = 0;
    prompt = [];
    tail = [];
    tail_len = 0;
    prompts_seen = 0;
    lines_taken = 0;
    sent = [];
  };
  input = record {
    queue = replicate 16 0;
    head = 0;
    count = 0;
    keys = 0;
    script = [];
    next_scripted = 0;
    dropped = 0;
  };
  ram = program;
  disk = waiting.blk;
  devices = 0;
  halt = running;
  done_word = 0;
  second_cause = 0;
  second_tval = 0;
  traps = 1;
  interrupts = 1;
}

hart-IsLegal : IsLegal hart
hart-IsLegal = record {
  priv = refl;
  mpp = refl;
  pc = refl;
  mepc = refl;
  sepc = refl;
  mtvec = refl;
  stvec = refl;
  mie = λ k h. h;
  mideleg = s_interrupts-mask 0x222;
  zero_register = refl;
}

hart-HasWords : HasWords hart
hart-HasWords = record {
  mstatus_word = omega arith;
  mie_word = omega arith;
  mideleg_word = omega arith;
  mip_soft_word = omega arith;
}

-- A software interrupt for the machine and one for the supervisor are pending.
abbrev alarmed : Emu ℕ
alarmed = record machine {
  machine = record machine.machine {
    hart = record hart { mip_soft = 0x2 };
    clint = record machine.machine.clint { msip = 1 };
  };
}

step-Serves_example :
    Gives idle no_float alarmed
      (Serves idle no_float (Cycle.prepare idle no_float alarmed).machine alarmed)
step-Serves_example = step-Serves idle no_float alarmed (same-IsLegal refl hart-IsLegal)

step-IsLegal_example : Gives idle no_float machine (λ e'. IsLegal e'.machine.hart)
step-IsLegal_example = step-IsLegal idle no_float machine hart-IsLegal

step-IsConfined_example : Gives idle no_float machine (λ e'. IsConfined hart e'.machine.hart)
step-IsConfined_example = step-IsConfined idle no_float machine hart-IsLegal hart-HasWords (λ e. cc)

step-Accounts_example : Gives idle no_float machine (Accounts machine)
step-Accounts_example = step-Accounts idle no_float machine hart-IsLegal

-- The same machine in a handler.
abbrev in_handler : Emu ℕ
in_handler = record machine {
  machine = record machine.machine { hart = record hart { in_trap = true } };
}

in_handler-IsLegal : IsLegal in_handler.machine.hart
in_handler-IsLegal = ground (arith, hart-IsLegal)

step-HandlesOrHalts_example : Gives idle no_float in_handler (HandlesOrHalts in_handler)
step-HandlesOrHalts_example = step-HandlesOrHalts idle no_float in_handler in_handler-IsLegal refl

emu_run_until-Returns_example :
    Returns idle no_float 50
      (Cycle.run_end 5 machine)
      0
      (Cycle.emu_run_until idle no_float 51 50 5 machine)
emu_run_until-Returns_example =
    emu_run_until-Returns idle no_float 51 50 5 machine (omega arith) hart-IsLegal refl
