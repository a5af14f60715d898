-- ===== src/Emulator/Input/Fifo.antt =====
-- The ring is a queue of at most 16 events.
use tiny_processors.Prelude.{
  ℕ, zero, suc, ◌+◌, ◌-◌, ◌%◌, ◌<◌, ◌≤◌, ◌≡◌, refl, ap, ap₂, ◌∙◌, arith, List, [], ◌∷◌, ◌++◌,
  length, length-set, get_or, set, get_or-set_ne, get_or-set_self, ltb, ◌==◌, if◌then◌else◌,
  Bool-cases, inl, inr,
}
use native.Mathlib.Numerals.{add-one}
use tiny_processors.Emulator.Access.{acc_ok}
use tiny_processors.Emulator.Input.{Input, emu_queue_event, input_load, input_queue}

-- The `n` events from `head` on, around the ring.
pub ring : List ℕ → ℕ → ℕ → List ℕ
ring queue head zero = []
ring queue head (suc n) = get_or queue head 0 ∷ ring queue ((head + 1) % input_queue) n

-- The events that wait, oldest first.
pub waiting : Input → List ℕ
waiting m = ring m.queue m.head m.count

pub record IsValid (m : Input) : Type 0 where
  pub slots : length m.queue ≡ input_queue
  pub head_lt : m.head < input_queue
  pub count_le : m.count ≤ input_queue

length-ring : (queue : List ℕ) (head n : ℕ) → length (ring queue head n) ≡ n
unfolding ring
length-ring queue head zero = refl
length-ring queue head (suc n) = ap suc (length-ring queue ((head + 1) % input_queue) n)

-- A write behind the waiting events changes none of them.
ring-set_past :
    (queue : List ℕ) (head n i slot v : ℕ)
    → head < input_queue
    → n ≤ i
    → i < input_queue
    → slot ≡ (head + i) % input_queue
    → ring (set queue slot v) head n ≡ ring queue head n
unfolding ring
ring-set_past queue head zero i slot v hh hn hi at_slot = refl
ring-set_past queue head (suc n) i slot v hh hn hi at_slot =
    ap₂ ◌∷◌ (get_or-set_ne queue slot head v 0 (omega arith)) (
      ring-set_past queue ((head + 1) % input_queue) n (i - 1) slot v (omega arith) (omega arith)
        (omega arith) (omega arith))

ring-snoc :
    (queue : List ℕ) (head n : ℕ)
    → head < input_queue
    → ring queue head (suc n) ≡ ring queue head n ++ get_or queue ((head + n) % input_queue) 0 ∷ []
unfolding ring
ring-snoc queue head zero h = let slot : (head + 0) % input_queue ≡ head = omega arith in rw slot
ring-snoc queue head (suc n) h =
    let slot : (head + suc n) % input_queue ≡ ((head + 1) % input_queue + n) % input_queue =
      omega arith in
    ap (λ t. get_or queue head 0 ∷ t)
      (rw slot (ring-snoc queue ((head + 1) % input_queue) n (omega arith)))

-- The device as its clients see it: a queue of at most 16 events, that drops what does not fit.
pub offer : ℕ → List ℕ → List ℕ
offer event q = if ltb (length q) input_queue then q ++ event ∷ [] else q

-- A load of EVENT takes the oldest event, or reads 0.
pub take : List ℕ → ℕ × List ℕ
take [] = (0, [])
take (e ∷ q) = (e, q)

ring-append :
    (queue : List ℕ) (head n event : ℕ)
    → length queue ≡ input_queue
    → head < input_queue
    → n < input_queue
    → ring (set queue ((head + n) % input_queue) event) head (n + 1)
      ≡ ring queue head n ++ event ∷ []
ring-append queue head n event slots hh hn = rw add-one (
    ring-snoc (set queue ((head + n) % input_queue) event) head n hh
    ∙ ap₂ (λ xs x. xs ++ x ∷ [])
        (ring-set_past queue head n n ((head + n) % input_queue) event hh (omega arith) hn refl)
        (get_or-set_self queue ((head + n) % input_queue) event 0 (omega arith)))

pub queue_event-IsValid : (event : ℕ) (m : Input) → IsValid m → IsValid (emu_queue_event event m)
unfolding emu_queue_event
queue_event-IsValid event m v =
    ground (arith, length-set m.queue ((m.head + m.count) % input_queue) event)

pub waiting-queue_event :
    (event : ℕ) (m : Input)
    → IsValid m
    → waiting (emu_queue_event event m) ≡ offer event (waiting m)
unfolding waiting offer emu_queue_event
waiting-queue_event event m v = ground (
  arith,
  length-ring m.queue m.head m.count,
  ring-append m.queue m.head m.count event v.slots v.head_lt,
)

-- What a load of EVENT hands over.
pub record TakesOldest (m : Input) : Type 0 where
  pub after : Input
  pub loads : input_load 0 4 m ≡ acc_ok ((take (waiting m)).0, after)
  pub rest : waiting after ≡ (take (waiting m)).1
  pub valid : IsValid after

ring-take :
    (queue : List ℕ) (head n : ℕ)
    → 0 < n
    → (take (ring queue head n)).0 ≡ get_or queue head 0
      × ((take (ring queue head n)).1 ≡ ring queue ((head + 1) % input_queue) (n - 1))
unfolding ring take
ring-take queue head zero h = elim h [ ]
ring-take queue head (suc n) h = (refl, let e : suc n - 1 ≡ n = omega arith in rw e)

take_none : (queue : List ℕ) (head : ℕ) → take (ring queue head 0) ≡ (0, [])
unfolding ring take
take_none queue head = refl

ring-take_all :
    (queue : List ℕ) (head n : ℕ)
    → take (ring queue head n) ≡ (
        if n == 0
        then (0, [])
        else (get_or queue head 0, ring queue ((head + 1) % input_queue) (n - 1)))
ring-take_all queue head n = elim (Bool-cases (n == 0)) [
  | inl e ↦ rw e (let e' : n ≡ 0 = ground arith in rw e' (take_none queue head))
  | inr e ↦ let t = ring-take queue head n (ground arith) in rw (e, ← t.0, ← t.1)
]

nothing_taken : (queue : List ℕ) (head : ℕ) → ring queue head 0 ≡ (take (ring queue head 0)).1
unfolding ring take
nothing_taken queue head = refl

-- A load of EVENT takes the oldest waiting event, or reads 0 when none waits.
pub load_event : (m : Input) → IsValid m → TakesOldest m
load_event m v = elim (Bool-cases (m.count == 0)) [
  | inl empty ↦ record {
    after = m;
    loads = unfold input_load waiting in rw (ring-take_all m.queue m.head m.count, empty);
    rest = unfold waiting in nothing_left m.queue m.head m.count (ground arith);
    valid = v;
  }
  | inr some_wait ↦ record {
    after = record m { head = (m.head + 1) % input_queue; count = m.count - 1 };
    loads = unfold input_load waiting in rw (ring-take_all m.queue m.head m.count, some_wait);
    rest = unfold waiting in rw (ring-take_all m.queue m.head m.count, some_wait);
    valid = record { slots = v.slots; head_lt = omega arith; count_le = ground arith };
  }
]
  where
    nothing_left :
        (queue : List ℕ) (head n : ℕ) → n ≡ 0 → ring queue head n ≡ (take (ring queue head n)).1
    nothing_left queue head n e = rw e (nothing_taken queue head)

-- What the host and the guest do with the device.
pub data Op : Type 0 where
  arrival : ℕ → Op
  read_event : Op

-- A history: the values that the guest read, and the device after it. A refused load ends it.
pub run : List Op → Input → List ℕ × Input
run [] m = ([], m)
run (arrival e ∷ ops) m = run ops (emu_queue_event e m)
run (read_event ∷ ops) m = elim (input_load 0 4 m) [
  | acc_ok (value, m') ↦ let (values, last) = run ops m' in (value ∷ values, last)
  | _ ↦ ([], m)
]

-- The same history on a list.
pub run_list : List Op → List ℕ → List ℕ × List ℕ
run_list [] q = ([], q)
run_list (arrival e ∷ ops) q = run_list ops (offer e q)
run_list (read_event ∷ ops) q =
    let (values, last) = run_list ops (take q).1 in ((take q).0 ∷ values, last)

-- From a ring of 16 slots with the head in range and a count of at most 16, every sequence of
-- arrivals (`emu_queue_event`) and reads of EVENT (`input_load`) reads the values that a list of
-- at most 16 waiting events would, which drops what does not fit and reads 0 when empty, and ends
-- with the same events waiting.
pub run-refines :
    (ops : List Op) (m : Input)
    → IsValid m
    → ((run ops m).0 ≡ (run_list ops (waiting m)).0)
      × (waiting (run ops m).1 ≡ (run_list ops (waiting m)).1)
unfolding run run_list
run-refines [] m v = (refl, refl)
run-refines (arrival e ∷ ops) m v =
    rw (run_list, ← waiting-queue_event e m v)
      (run-refines ops (emu_queue_event e m) (queue_event-IsValid e m v))
run-refines (read_event ∷ ops) m v =
    let t = load_event m v in
    let ih = run-refines ops t.after t.valid in
    rw (run, t.loads, run_list, ← t.rest) (ap (λ xs. (take (waiting m)).0 ∷ xs) ih.0, ih.1)
