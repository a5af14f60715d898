-- ===== src/Emulator/Bus/Tests.antt =====
-- The status register of the console in the memory map.
use tiny_processors.Prelude.{◌≡◌, ◌↔◌, arith, true, some}
use tiny_processors.Emulator.Bus.{console, covers, find_region}
use tiny_processors.Emulator.Bus.Regions.{find_region-covers}

find_region-covers_example :
    (find_region 0x1000_0005 1 ≡ some console) ↔ (covers 0x1000_0005 1 console ≡ true)
find_region-covers_example =
    find_region-covers 0x1000_0005 1 console (omega arith) (omega arith) (omega arith)
