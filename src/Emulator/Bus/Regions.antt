-- ===== src/Emulator/Bus/Regions.antt =====
-- The windows of the memory map do not overlap, so the order of `REGIONS` does not matter.
use tiny_processors.Prelude.{
  ℕ, ◌+◌, ◌^◌, ◌<◌, ◌≤◌, ◌≡◌, ◌↔◌, refl, subst, inl, inr, arith, Bool, true, false, ◌&&◌, ◌||◌,
  List, [], ◌∷◌, some, leb, Bool-cases, &&-left, &&-right,
}
use tiny_processors.Emulator.Bus.{
  Window, gpu, dma_window, g3d, done, console, clint, plic, virtio, bootrom, input, display,
  palette, framebuffer, simd4, simd4_program, simd4_data, ram, window_base, window_size, regions,
  covers, find_in, find_region,
}
use mathlib.Core.Option.{some-injective}

data IsIn (w : Window) : List Window → Type 0 where
  here : {ws : List Window} → IsIn w (w ∷ ws)
  there : {x : Window} {ws : List Window} → IsIn w ws → IsIn w (x ∷ ws)

-- One window ends before the other begins.
abbrev apart : Window → Window → Bool
apart v w =
    leb (window_base v + window_size v) (window_base w)
    || leb (window_base w + window_size w) (window_base v)

-- Each window is apart from those of a list, and lies above the addresses that an access could wrap around.
abbrev all_from : Window → List Window → Bool
all_from v [] = leb 0x1000 (window_base v)
all_from v (w ∷ ws) = apart v w && all_from v ws

abbrev all_apart : List Window → Bool
all_apart [] = true
all_apart (w ∷ ws) = all_from w ws && all_apart ws

regions_apart : all_apart regions ≡ true
regions_apart = refl

from_base : (v : Window) (ws : List Window) → all_from v ws ≡ true → 0x1000 ≤ window_base v
from_base v [] h = ground arith
from_base v (w ∷ ws) h = from_base v ws (&&-right (apart v w) _ h)

from_member :
    (v w : Window) (ws : List Window) → all_from v ws ≡ true → IsIn w ws → apart v w ≡ true
from_member v w [] h m = elim m [ ]
from_member v w (_ ∷ ws) h here = &&-left (apart v w) _ h
from_member v w (x ∷ ws) h (there m) = from_member v w ws (&&-right (apart v x) _ h) m

member_base :
    (w : Window) (ws : List Window) → all_apart ws ≡ true → IsIn w ws → 0x1000 ≤ window_base w
member_base w [] h m = elim m [ ]
member_base w (_ ∷ ws) h here = from_base w ws (&&-left (all_from w ws) _ h)
member_base w (x ∷ ws) h (there m) = member_base w ws (&&-right (all_from x ws) _ h) m

-- Two windows that hold one access are not apart.
not_apart :
    (addr width : ℕ) (v w : Window)
    → addr < 2 ^ 32
    → 0 < width
    → width ≤ 4
    → 0x1000 ≤ window_base v
    → 0x1000 ≤ window_base w
    → covers addr width v ≡ true
    → covers addr width w ≡ true
    → apart v w ≡ false
unfolding covers
not_apart addr width v w a b c d e f g = ground arith

found-first :
    (addr width : ℕ) (w : Window) (ws : List Window)
    → addr < 2 ^ 32
    → 0 < width
    → width ≤ 4
    → all_apart ws ≡ true
    → IsIn w ws
    → covers addr width w ≡ true
    → find_in ws addr width ≡ some w
unfolding find_in
found-first addr width w [] a b c h m on = elim m [ ]
found-first addr width w (_ ∷ ws) a b c h here on = rw on refl
found-first addr width w (x ∷ ws) a b c h (there m) on =
    let rest = &&-right (all_from x ws) _ h in
    let first = &&-left (all_from x ws) _ h in
    elim (Bool-cases (covers addr width x)) [
      | inr off ↦ rw off (found-first addr width w ws a b c rest m on)
      | inl both ↦ absurd (
          ground (
            arith,
            from_member x w ws first m,
            not_apart addr width x w a b c (from_base x ws first) (member_base w ws rest m) both on,
          ))
    ]

find_in-covers :
    (addr width : ℕ) (w : Window) (ws : List Window)
    → find_in ws addr width ≡ some w
    → covers addr width w ≡ true
unfolding find_in
find_in-covers addr width w [] e = cc
find_in-covers addr width w (x ∷ ws) e = elim (Bool-cases (covers addr width x)) [
  | inl on ↦ subst (λ v. covers addr width v ≡ true) (some-injective _ _ (ground arith)) on
  | inr off ↦ find_in-covers addr width w ws (ground arith)
]

listed : (w : Window) → IsIn w regions
listed gpu = IsIn.here
listed dma_window = search (IsIn.here, IsIn.there) depth 20
listed g3d = search (IsIn.here, IsIn.there) depth 20
listed done = search (IsIn.here, IsIn.there) depth 20
listed console = search (IsIn.here, IsIn.there) depth 20
listed clint = search (IsIn.here, IsIn.there) depth 20
listed plic = search (IsIn.here, IsIn.there) depth 20
listed virtio = search (IsIn.here, IsIn.there) depth 20
listed bootrom = search (IsIn.here, IsIn.there) depth 20
listed input = search (IsIn.here, IsIn.there) depth 20
listed display = search (IsIn.here, IsIn.there) depth 20
listed palette = search (IsIn.here, IsIn.there) depth 20
listed framebuffer = search (IsIn.here, IsIn.there) depth 20
listed simd4 = search (IsIn.here, IsIn.there) depth 20
listed simd4_program = search (IsIn.here, IsIn.there) depth 20
listed simd4_data = search (IsIn.here, IsIn.there) depth 20
listed ram = search (IsIn.here, IsIn.there) depth 20

-- For an access of 1 to 4 bytes at an address below 2 ^ 32, find_region gives a window if and
-- only if that window holds the access: the windows do not overlap, and the order of the table
-- does not matter.
pub find_region-covers :
    (addr width : ℕ) (w : Window)
    → addr < 2 ^ 32
    → 0 < width
    → width ≤ 4
    → (find_region addr width ≡ some w) ↔ (covers addr width w ≡ true)
unfolding find_region
find_region-covers addr width w a b c = (
  find_in-covers addr width w regions,
  found-first addr width w regions a b c regions_apart (listed w),
)
