-- ===== src/Emulator/Virtio/Samples.antt =====
-- A queue of eight entries in RAM with one request, a read of sector 1 of a disk of two sectors.
use tiny_processors.Prelude.{ℕ, ◌+◌, ◌*◌, ◌/◌, ◌%◌, ◌^◌, true, false, [], ◌==◌, if◌then◌else◌}
use tiny_processors.Emulator.Virtio.{Dma}

-- The words of RAM: three descriptors at 0, the available ring at 0x100 with head 0, and the header at 0x300. The
-- used ring is at 0x200, the data at 0x400 and the status at 0x500.
abbrev pub queue_word : ℕ → ℕ
queue_word at =
    if at == 0x000
    then 0x8000_0300
    else if at == 0x008
    then 16
    else if at == 0x00c
    then 0x1_0001
    else if at == 0x010
    then 0x8000_0400
    else if at == 0x018
    then 512
    else if at == 0x01c
    then 0x2_0003
    else if at == 0x020
    then 0x8000_0500
    else if at == 0x028
    then 1
    else if at == 0x02c
    then 2
    else if at == 0x100
    then 0x1_0000
    else if at == 0x308
    then 1
    else 0

abbrev pub waiting : Dma
waiting = record {
  blk = record {
    status = 4;
    features_sel = false;
    queue_sel_zero = true;
    queue_ready = true;
    interrupt = false;
    queue_num = 8;
    desc_lo = 0x8000_0000;
    desc_hi = 0;
    driver_lo = 0x8000_0100;
    driver_hi = 0;
    device_lo = 0x8000_0200;
    device_hi = 0;
    last_avail = 0;
    used_idx = 0;
    disk = λ k. k / 512 + 1;
    disk_size = 1024;
    failures = [];
    write_error = false;
    serving = false;
  };
  ram = λ k. queue_word (k / 4 * 4) / 2 ^ (8 * (k % 4)) % 2 ^ 8;
  written = [];
}
