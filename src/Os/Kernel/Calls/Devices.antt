-- ===== src/Os/Kernel/Calls/Devices.antt =====
-- The system calls of programs/rv32/os/kernel.c on devices: events, keys, the display, the palette and the time.
use tiny_processors.Prelude.{
  ℕ, zero, suc, ◌+◌, ◌-◌, ◌*◌, ◌%◌, ◌^◌, not, ◌&&◌, ◌==◌, ◌!=◌, if◌then◌else◌, get_or,
}
use tiny_processors.Emulator.Memory.{bytes_read, bytes_write}
use tiny_processors.Os.Kernel.{
  Kernel, Board, Config, Outcome, returns, proc_at, space_at, with_board, key_buffer,
}
use tiny_processors.Os.Kernel.Calls.Ending.{Answer, again, fails, gives}
use tiny_processors.Os.Kernel.Memory.{user_range}
use tiny_processors.Os.Kernel.Process.{write_palette}
use tiny_processors.Os.Kernel.Schedule.{engines_busy}

module _ {B D : Type 0} where
  unfoldable pub event_call : Kernel B D → Outcome B D Answer
  event_call k =
      if k.key_count != 0
      then gives (get_or k.keys k.key_head 0)
          (record k { key_head = (k.key_head + 1) % key_buffer; key_count = k.key_count - 1 })
      else gives 0 k

  module _ (board : Board B) where
    unfoldable pub time_call : Kernel B D → Outcome B D Answer
    time_call k = let (time, b) = board.mtime k.board in gives (time % 2 ^ 32) (with_board b k)

    module _ (config : Config) where
      unfoldable pub keys_call : Kernel B D → Outcome B D Answer
      keys_call k =
          let (keys, b) = board.input_keys k.board in
          if config.has_input then gives keys (with_board b k) else gives 0 k

      -- A present waits for the engines.
      unfoldable pub present_call : Kernel B D → Outcome B D Answer
      present_call k =
          let (busy, k') = engines_busy board k in
          let (frames, b) = board.present k'.board in
          if not config.has_display
          then fails k
          else if busy
          then returns again k'
          else gives frames (with_board b k')

      -- `colours[i] = …` for each entry, with `left` to go.
      unfoldable pub read_loop : ℕ → ℕ → ℕ → Kernel B D → Kernel B D
      read_loop zero i at k = k
      read_loop (suc left) i at k =
          let (colour, b) = board.palette_get i k.board in
          read_loop left (i + 1) at
            (record k { memory = bytes_write k.memory (at + 4 * i) 4 colour; board = b })

      unfoldable pub palette_call : ℕ → ℕ → ℕ → Kernel B D → Outcome B D Answer
      palette_call i a0 a1 k =
          let p = proc_at k i in
          if config.has_palette
            && a0 % 4 == 0
            && user_range p.base p.span (space_at k i).guard a0 1024
          then (if a1 == 0
              then gives 0 (read_loop 256 0 a0 k)
              else if a1 == 1
              then gives 0
                  (record (write_palette board (λ j. bytes_read k.memory (a0 + 4 * j) 4) k) {
                    palette_writer = p.pid;
                  })
              else fails k)
          else fails k
