-- ===== src/Emulator/Hart/Samples.antt =====
-- A concrete hart for the tests of this part and of those that use the hart.
use tiny_processors.Prelude.{replicate, true, false}
use tiny_processors.Emulator.Pmp.{priv_u}
use tiny_processors.Emulator.Hart.{Hart}

-- A user program, with page faults delegated, supervisor interrupts on and floating point dirty.
abbrev pub user : Hart
user = record {
  x = replicate 32 0;
  f = replicate 32 0;
  fcsr = 0;
  pc = 0x8000_0100;
  mtvec = 0x8000_0000;
  mepc = 0;
  mcause = 0;
  mtval = 0;
  mstatus = 0x600a;
  mie = 0x800;
  mscratch = 0;
  priv = priv_u;
  mpp = priv_u;
  medeleg = 0xb000;
  mideleg = 0;
  mip_soft = 0;
  stvec = 0x8000_2000;
  sscratch = 0;
  sepc = 0;
  scause = 0;
  stval = 0;
  satp = 0;
  scounteren = 0;
  mcounteren = 0;
  pmp = record { pmpcfg = replicate 8 0; pmpaddr = replicate 8 0 };
  in_trap = false;
  reserved = true;
  reservation = 0x8000_4000;
  reservation_pa = 0x8000_4000;
  wr_fcsr = false;
}
