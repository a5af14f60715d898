-- ===== src/Lib.antt =====
-- Tiny Processors: the RV32 machine of tools/rv32emu_core.c, the arithmetic runtime of
-- programs/rv32/rt, and the kernel, its file system and the console line editor of
-- programs/rv32/os.
--
-- The emulator keeps one struct, `machine` of tools/rv32emu_core.h. Each device and unit of it is
-- a record here with the fields that its functions use, and each function of the source is a
-- function of the same name: what it writes through a pointer is part of its result. A handler's
-- `mem_access` with what it hands over is the type Access of Emulator/Access. Words are natural
-- numbers, with the wrap-around of C written out as `% 2 ^ 32` and complements as `flip 32`.
--
-- Runtime         programs/rv32/rt/muldiv.c: `rv32_mul`, `udivmod` and the divisions, which stand in
--                 for the M extension on an RV32I build
-- Emulator.Muldiv `muldiv`, the M extension in the emulator
-- Emulator.Plic   the interrupt controller: `plic_lines`, `plic_sample`, `plic_best`, `plic_load`,
--                 `plic_store`
-- Emulator.Clint  the timer: `mtime_now`, `clint_load`, `clint_store`
-- Emulator.Input  the input device: `emu_queue_event`, `emu_deliver_events`, `input_load`
-- Emulator.Pmp    physical memory protection: `pmp_allows`, and the PMP registers' part of `csr_write`
-- Emulator.Hart   the hart's registers, `enter_handler`, and MRET and SRET of `step`
-- Emulator.Csr    the CSRs: `csr_read`, `csr_write`, `csr_allowed` and the CSR instructions of `step`
-- Emulator.Amo    the values of the atomic operations: `amo_valid`, `amo_value`
-- Emulator.Memory bytes of RAM: `bytes_read`, `bytes_write`, `in_ram`, `ram_read`
-- Emulator.Sv32   address translation: `translate`
-- Emulator.Console the UART and the gate of `--console-prompt`: `console_poll_stdin`,
--                 `console_watch_prompt`, `console_load`, `console_store`
-- Emulator.Virtio the virtio disk: `dma_read`, `dma_write`, `virtio_load`, and below it `virtio_request`,
--                 `virtio_serve` and `virtio_store` (Request)
-- Emulator.Bus    the memory map: `REGIONS`, `find_region`, `load`, `store` and `amo`
-- Emulator.Step   the fields of an instruction (Decode), `step`'s arithmetic (Alu) and F instructions
--                 (Float), the cases of its `switch` (Control for jumps, branches and SYSTEM,
--                 Execute for the others), and `step` around them, `trap`,
--                 `take_interrupt` and `emu_run_until` (Cycle)
-- Os.Line         programs/rv32/os/line.c: the console line editor `line_edit`
-- Os.Disk         what the file system asks of the disk driver: two transfers and their law
-- Os.Fs           programs/rv32/os/fs.c: the directory (Directory: `fs_mount`, `fs_open`, `fs_truncate`,
--                 `fs_flush`, `fs_size`, `fs_name`) and the bytes of files (Data: `fs_read`, `fs_write`)
-- Os.Kernel       programs/rv32/os/kernel.c: its state, user memory and the RAM disk's rules (Memory),
--                 descriptors (Files), page tables (Paging), `spawn` (Process), `finish` (Exit),
--                 `schedule` (Schedule), `claim_fpu` (Fpu), `syscall` (Calls) and `kernel_trap` (Trap);
--                 the proofs are in Bounds, Fpu/Owner and Safety
-- Prelude         tests, lists, bits and signed readings of words that the parts share
--
-- The multiplication loop runs on 33 units of fuel, one more than the bits of its multiplier. The
-- loop of `emu_deliver_events` runs by the lines of the script that are left, since each round
-- takes one. `line_edit` runs by the list of what the console reads, and has no result where the
-- list ends before the line does. The other loops count down from a constant of the source or
-- from the width of an access, and the walk of the page tables has its two rounds written out.
-- The `switch` of `csr_read` and of `csr_write` first finds the case of the number (`csr_of`),
-- and then acts on it.
--
-- The units meet where the source calls one from another: `mip_now` of the CSRs asks the
-- interrupt controller and the timer, `csr_write` calls the PMP's writes, and the walk reads RAM
-- through `pmp_allows`.
--
-- The memory map joins the units: Emu of Emulator/Bus is the machine that `load`, `store`, `amo`
-- and `step` work on. The SIMD4, GPU and 3D engines, the boot ROM, the display, the palette and
-- the framebuffer are its parameter Engines: the loads and stores of their windows, one tick of
-- the engines with the addresses that it writes by DMA, the RAM that an engine locks, and the
-- count of presented frames. A window of theirs that refuses an access is taken to have changed
-- nothing. `rv32_fp` of tools/rv32_fp.c is a parameter of the step. The fields of the machine
-- that only the trace reads are left out of the step. The console's stdin is the list of what its
-- polls find. The run loop has a unit of fuel for each round, and one more than the step limit is
-- enough, since every step counts and the limit ends the loop.
--
-- The loop of `virtio_serve` has no bound, and the guest can make it run for ever, so no number
-- of rounds is enough. The model gives it the number in Engines. A device that has used it up is
-- marked by `serving`, a field which the source's struct does not have: the call has not
-- returned, and what is proved of a step or of a store holds there of what it has done so far.
-- The run loop stops at such a step with an outcome of its own, `serving`. The host's file of the
-- disk is the list of what its writes report.
--
-- The kernel's pointers into the process table are indices. A call that may stop the machine
-- gives an Outcome: it returns, halts with a code, or panics, and what `halt` and `panic` print
-- and store is left out, as are the kernel's messages. Its devices are the interface Board, where
-- `protect` of the PMP, page tables and DMA window is one operation, and its disk driver is the
-- interface Disk. What it learns at boot is the record Config, so `discover`, the checks at boot
-- and `kernel_main` are not modelled. The bound of 2 ^ 23 sectors on a disk keeps its bytes
-- within 32 bits, as the kernel counts them. `fs_read` and `fs_write` run on a unit of fuel for
-- each byte, since each round moves one or more, and `drain_input` on a number of events, which
-- the device bounds by its queue. The trap is given to `kernel_trap` as a Cause, with the context
-- that it came from.
--
-- Not modelled are the insides of the engines, the display and the floating-point unit, the
-- files, reports and command lines of the emulator, the rest of the operating system and of the
-- programs, host input and output, and the copies of other projects under third_party.
mod Prelude
pub mod Runtime
pub mod Emulator
pub mod Os
