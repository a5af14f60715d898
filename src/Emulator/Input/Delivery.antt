-- ===== src/Emulator/Input/Delivery.antt =====
-- Delivery of the input script: which lines are delivered, and that none is lost unnoticed.
use tiny_processors.Prelude.{
  ℕ, zero, suc, ◌+◌, ◌-◌, ◌<◌, ◌≤◌, ◌≡◌, refl, ◌∙◌, ◌⊎◌, inl, inr, arith, ◌&&◌, length, get_or, leb,
  ltb, Bool-cases,
}
use tiny_processors.Emulator.Input.{
  Input, emu_queue_event, deliver_loop, emu_deliver_events, no_event,
}

-- The frame of line `i` of the script.
abbrev pub frame_of : Input → ℕ → ℕ
frame_of m i = (get_or m.script i no_event).frame

-- `m'` is `m` after the lines due at `frames` have been offered to the queue.
pub record IsDelivered (frames : ℕ) (m m' : Input) : Type 0 where
  pub same_script : m'.script ≡ m.script
  pub forward : m.next_scripted ≤ m'.next_scripted
  pub due : (i : ℕ) → m.next_scripted ≤ i → i < m'.next_scripted → frame_of m i ≤ frames
  pub stops : (length m.script ≤ m'.next_scripted) ⊎ (frames < frame_of m m'.next_scripted)
  pub accounted : m'.count + m'.dropped + m.next_scripted ≡ m.count + m.dropped + m'.next_scripted

queue_event-accounts :
    (event : ℕ) (m : Input)
    → ((emu_queue_event event m).count + (emu_queue_event event m).dropped
        ≡ m.count + m.dropped + 1)
      × ((emu_queue_event event m).script ≡ m.script)
unfolding emu_queue_event
queue_event-accounts event m = ground arith

deliver_loop-IsDelivered :
    (frames left : ℕ) (m : Input)
    → length m.script ≤ m.next_scripted + left
    → IsDelivered frames m (deliver_loop frames left m)
unfolding deliver_loop
deliver_loop-IsDelivered frames zero m h = record {
  same_script = refl;
  forward = omega arith;
  due = λ i p q. absurd (omega arith);
  stops = inl (omega arith);
  accounted = refl;
}
deliver_loop-IsDelivered frames (suc left) m h =
    let e = get_or m.script m.next_scripted no_event in
    let q = queue_event-accounts e.event m in
    elim (Bool-cases (ltb m.next_scripted (length m.script) && leb e.frame frames)) [
      | inl go ↦
          let m1 = record (emu_queue_event e.event m) { next_scripted = m.next_scripted + 1 } in
          let ih = deliver_loop-IsDelivered frames left m1 (rw q.1 (omega arith)) in
          rw go record {
            same_script = ih.same_script ∙ q.1;
            forward = omega (arith, ih.forward);
            due = λ i lo hi. ground (arith, ih.due i, q.1);
            stops = ground (arith, ih.stops, q.1);
            accounted = omega (arith, ih.accounted, q.0);
          }
      | inr stop ↦ rw stop record {
        same_script = refl;
        forward = omega arith;
        due = λ i p q. absurd (omega arith);
        stops = ground arith;
        accounted = refl;
      }
    ]

-- With the next line of the script to deliver at most its number of lines, `emu_deliver_events`
-- keeps the script, passes only lines whose frames have been reached, stops at the end or before
-- the first line that is not due, and each line that it passes is added to the count of waiting
-- or of dropped events.
pub deliver_events_lem :
    (frames : ℕ) (m : Input)
    → m.next_scripted ≤ length m.script
    → IsDelivered frames m (emu_deliver_events frames m)
unfolding emu_deliver_events
deliver_events_lem frames m h =
    deliver_loop-IsDelivered frames (length m.script - m.next_scripted) m (omega arith)
