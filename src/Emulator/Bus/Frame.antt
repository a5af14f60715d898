-- ===== src/Emulator/Bus/Frame.antt =====
-- What loads, stores and atomic operations leave of the machine.
use tiny_processors.Prelude.{
  ℕ, ◌^◌, ◌/◌, ◌-◌, ◌+◌, ◌≡◌, refl, ap, ◌∙◌, ◌&&◌, List, [], ◌∷◌, Option-cases, Bool-cases, inl,
  inr, ◌==◌,
}
use tiny_processors.Emulator.Access.{
  Access, acc_ok, acc_fault, acc_misaligned, acc_page_fault, OnOk, OnOk-bind, OnOk-fault, OnOk-ok,
  on_ok,
}
use tiny_processors.Emulator.Amo.{amo_value}
use tiny_processors.Emulator.Clint.{clint_load, clint_store}
use tiny_processors.Emulator.Console.{console_load, console_store}
use tiny_processors.Emulator.Input.{input_load}
use tiny_processors.Emulator.Plic.{plic_load, plic_store}
use tiny_processors.Emulator.Pmp.{pmp_r, pmp_w}
use tiny_processors.Emulator.Virtio.{Dma, virtio_load}
use tiny_processors.Emulator.Virtio.Request.{virtio_store}
use tiny_processors.Emulator.Sv32.{walk_load, walk_store}
use tiny_processors.Emulator.Hart.{Hart, unreserved}
use tiny_processors.Emulator.Bus.{
  virtio, Window, done, console, clint, plic, bootrom, input, ram, Emu, Engines, Served,
  snoop_device_write, snoop_all, serve, serve_dma, done_store, region_load, region_store,
  find_region, window_base, bus_load, bus_store, locate, load, store, amo_write, amo,
  unless_stopped,
}

-- What no access changes: the hart but for the reservation, and the counters.
module _ {D : Type 0} where
  abbrev pub counts : Emu D → List ℕ
  counts e = e.machine.steps ∷ e.machine.retired ∷ e.traps ∷ e.interrupts ∷ []

  abbrev pub core : Emu D → Hart × List ℕ
  core e = (unreserved e.machine.hart, counts e)

snoop_device_write-core :
    (addr : ℕ) (h : Hart) → unreserved (snoop_device_write addr h) ≡ unreserved h
unfolding snoop_device_write
snoop_device_write-core addr h =
    elim (Bool-cases (h.reserved && addr / 2 ^ 2 == h.reservation_pa)) [
      | inl hit ↦ rw hit refl
      | inr miss ↦ rw miss refl
    ]

pub snoop_all-core : (written : List ℕ) (h : Hart) → unreserved (snoop_all written h) ≡ unreserved h
unfolding snoop_all
snoop_all-core [] h = refl
snoop_all-core (addr ∷ rest) h =
    snoop_all-core rest (snoop_device_write addr h) ∙ snoop_device_write-core addr h

module _ {D : Type 0} where
  pub serve-core : (s : Served D) (e : Emu D) → core (serve s e) ≡ core e
  unfolding serve
  serve-core s e = ap (λ h. (h, counts e)) (snoop_all-core s.written e.machine.hart)

  pub serve_dma-core : (s : Dma) (e : Emu D) → core (serve_dma s e) ≡ core e
  unfolding serve_dma
  serve_dma-core s e = ap (λ h. (h, counts e)) (snoop_all-core s.written e.machine.hart)

  module _ (engines : Engines D) where
    region_load-core :
        (w : Window) (offset width : ℕ) (e : Emu D)
        → OnOk (λ (r : ℕ × Emu D). core r.1 ≡ core e) (region_load engines w offset width e)
    unfolding region_load
    region_load-core ram offset width e = OnOk-ok _ refl
    region_load-core done offset width e = search on_ok depth 8
    region_load-core clint offset width e =
        OnOk-bind (clint_load e.machine.steps offset width e.machine.clint) _
          (λ v eq. OnOk-ok _ refl)
    region_load-core plic offset width e =
        OnOk-bind (plic_load offset width e.machine.plic) _ (λ v eq. OnOk-ok _ refl)
    region_load-core console offset width e =
        OnOk-bind (console_load offset width e.console) _ (λ v eq. OnOk-ok _ refl)
    region_load-core input offset width e =
        OnOk-bind (input_load offset width e.input) _ (λ v eq. OnOk-ok _ refl)
    region_load-core virtio offset width e =
        OnOk-bind (virtio_load offset width e.disk) _ (λ v eq. OnOk-ok _ refl)
    region_load-core w offset width e =
        OnOk-bind (engines.engine_load w offset width e.devices) _ (λ v eq. OnOk-ok _ refl)

    done_store-core :
        (offset width value : ℕ) (e : Emu D)
        → OnOk (λ (e' : Emu D). core e' ≡ core e) (done_store offset width value e)
    unfolding done_store
    done_store-core offset width value e = search on_ok depth 8

    region_store-core :
        (w : Window) (offset width value : ℕ) (e : Emu D)
        → OnOk (λ (e' : Emu D). core e' ≡ core e) (region_store engines w offset width value e)
    unfolding region_store
    region_store-core ram offset width value e = search on_ok depth 8
    region_store-core done offset width value e = done_store-core offset width value e
    region_store-core clint offset width value e =
        OnOk-bind (clint_store e.machine.steps offset width value e.machine.clint) _
          (λ v eq. OnOk-ok _ refl)
    region_store-core plic offset width value e =
        OnOk-bind (plic_store offset width value e.machine.plic) _ (λ v eq. OnOk-ok _ refl)
    region_store-core console offset width value e =
        OnOk-bind (console_store offset width value e.console) _ (λ v eq. OnOk-ok _ refl)
    region_store-core virtio offset width value e =
        OnOk-bind
          (virtio_store engines.rounds offset width value
            (record { blk = e.disk; ram = e.ram; written = [] }))
          _ (λ s eq. OnOk-ok _ (serve_dma-core s e))
    region_store-core bootrom offset width value e = OnOk-fault
    region_store-core input offset width value e = OnOk-fault
    region_store-core w offset width value e =
        OnOk-bind (engines.engine_store w offset width value e.devices e.ram e.input) _
          (λ s eq. OnOk-ok _ (serve-core s e))

    bus_load-core :
        (addr width : ℕ) (e : Emu D)
        → OnOk (λ (r : ℕ × Emu D). core r.1 ≡ core e) (bus_load engines addr width e)
    unfolding bus_load
    bus_load-core addr width e = elim (Option-cases (find_region addr width)) [
      | inl nothing ↦ rw (bus_load, nothing) OnOk-fault
      | inr (w, found) ↦ rw (bus_load, found) (region_load-core w (addr - window_base w) width e)
    ]

    bus_store-core :
        (addr width value : ℕ) (e : Emu D)
        → OnOk (λ (e' : Emu D). core e' ≡ core e) (bus_store engines addr width value e)
    unfolding bus_store
    bus_store-core addr width value e = elim (Option-cases (find_region addr width)) [
      | inl nothing ↦ rw (bus_store, nothing) OnOk-fault
      | inr (w, found) ↦
          rw (bus_store, found) (region_store-core w (addr - window_base w) width value e)
    ]

    -- For any engines, a load that succeeds leaves the hart as it was, and it counts nothing.
    pub load-core :
        (va width : ℕ) (e : Emu D)
        → OnOk (λ (r : ℕ × ℕ × Emu D). core r.2 ≡ core e) (load engines va width e)
    unfolding load
    load-core va width e = OnOk-bind (locate engines walk_load pmp_r va width e) _ (λ addr located.
        OnOk-bind (bus_load engines addr width e) _
          (λ r read. OnOk-ok (r.0, addr, r.1) ((bus_load-core addr width e).at r read)))

    pub store-core :
        (va width value : ℕ) (e : Emu D)
        → OnOk (λ (e' : Emu D). core e' ≡ core e) (store engines va width value e)
    unfolding store
    store-core va width value e =
        OnOk-bind (locate engines walk_store pmp_w va width e) _
          (λ addr located. bus_store-core addr width value e)

    unless_stopped-core :
        {A : Type 0} (status : Access A) (e : Emu D) (next : A → Access ℕ × Emu D)
        → ((a : A) → status ≡ acc_ok a → core (next a).1 ≡ core e)
        → core (unless_stopped status e next).1 ≡ core e
    unfolding unless_stopped
    unless_stopped-core (acc_ok a) e next h = h a refl
    unless_stopped-core acc_fault e next h = refl
    unless_stopped-core acc_misaligned e next h = refl
    unless_stopped-core acc_page_fault e next h = refl

    amo_write-core :
        (addr funct5 operand old : ℕ) (e : Emu D)
        → core (amo_write engines addr funct5 operand old e).1 ≡ core e
    unfolding amo_write
    amo_write-core addr funct5 operand old e = elim (Option-cases (amo_value funct5 old operand)) [
      | inl nothing ↦ rw (amo_write, nothing) refl
      | inr (value, found) ↦
          rw (amo_write, found)
            (unless_stopped-core (bus_store engines addr 4 value e) e _
              (bus_store-core addr 4 value e).at)
    ]

    pub amo-core :
        (va funct5 operand : ℕ) (e : Emu D) → core (amo engines va funct5 operand e).1 ≡ core e
    unfolding amo
    amo-core va funct5 operand e =
        unless_stopped-core (locate engines walk_store (pmp_r + pmp_w) va 4 e) e _ (λ addr located.
          unless_stopped-core (bus_load engines addr 4 e) e _ (λ r read.
            amo_write-core addr funct5 operand r.0 r.1 ∙ (bus_load-core addr 4 e).at r read))
