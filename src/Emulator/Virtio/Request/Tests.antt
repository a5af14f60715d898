-- ===== src/Emulator/Virtio/Request/Tests.antt =====
-- A notify of a queue with one request.
use tiny_processors.Prelude.{◌≡◌, refl, arith}
use tiny_processors.Emulator.Access.{acc_ok}
use tiny_processors.Emulator.Virtio.Samples.{waiting}
use tiny_processors.Emulator.Virtio.Request
use tiny_processors.Emulator.Virtio.Request.Bounds.{virtio_store-IsWithin}
use tiny_processors.Emulator.Virtio.Request.Disk.{IsWithin}
use tiny_processors.Emulator.Virtio.Request.Keeps.{Moves, virtio_request-Moves}
use tiny_processors.Emulator.Virtio.Request.Registers.{IsValid, virtio_store-IsValid}

waiting-IsValid : IsValid waiting.blk
waiting-IsValid = record {
  in_step = refl;
  index_lt = omega arith;
  entries = refl;
  status_lt = omega arith;
}

virtio_request-Moves_example : Moves waiting.blk (Request.virtio_request waiting)
virtio_request-Moves_example = virtio_request-Moves waiting

notifies : Request.virtio_store 2 0x050 4 0 waiting ≡ acc_ok (Request.virtio_serve 2 waiting)
unfolding Request.virtio_store
notifies = refl

virtio_store-IsValid_example : IsValid (Request.virtio_serve 2 waiting).blk
virtio_store-IsValid_example =
    virtio_store-IsValid 2 0x050 4 0 waiting (Request.virtio_serve 2 waiting) waiting-IsValid
      notifies

virtio_store-IsWithin_example : IsWithin waiting.blk (Request.virtio_serve 2 waiting).blk
virtio_store-IsWithin_example =
    virtio_store-IsWithin 2 0x050 4 0 waiting (Request.virtio_serve 2 waiting) notifies
