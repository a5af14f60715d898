-- ===== src/Os/Kernel/Safety/Mapping.antt =====
-- The page tables of the kernel are laid out without a change of the process table.
use tiny_processors.Prelude.{
  ℕ, zero, suc, ◌+◌, ◌*◌, ◌/◌, ◌^◌, if◌then◌else◌, ◌≡◌, refl, inl, inr, Bool, true, false, List, [],
  ◌∷◌, ◌==◌, ◌!=◌, Bool-cases,
}
use tiny_processors.Prelude.Bits.{has}
use tiny_processors.Os.Kernel.{Kernel, Config, Outcome, returns, ◌>>=◌, space_at}
use tiny_processors.Os.Kernel.Paging.{
  table_at, word, with_word, clear_table, write_leaf, take_table, map_page, map_loop, map,
  map_windows, lay_out, prepare_tables, map_process, pte_v, page_tables_each,
}
use tiny_processors.Os.Kernel.Safety.Returns.{OnReturn, OnReturn-bind}

module _ {B D : Type 0} (config : Config) where
  abbrev pub Keeps : Kernel B D → Outcome B D (Unit {0}) → Type 0
  Keeps k m = OnReturn (λ u k'. k'.procs ≡ k.procs) m

  -- Two steps, each of which keeps the process table.
  Keeps-bind :
      (k : Kernel B D) (m : Outcome B D (Unit {0}))
      (f : Unit {0} × Kernel B D → Outcome B D (Unit {0}))
      → Keeps k m
      → ((u : Unit {0}) (l : Kernel B D) → Keeps l (f (u, l)))
      → Keeps k (m >>= f)
  Keeps-bind k m f kept next = OnReturn-bind _ _ m f kept (λ u l same. rw (← same) (next u l))

  write_leaf-procs :
      (pointer_at page rights : ℕ) (k : Kernel B D)
      → (write_leaf pointer_at page rights k).procs ≡ k.procs
  unfolding write_leaf with_word
  write_leaf-procs pointer_at page rights k = refl

  take_table-Keeps :
      (entry pointer_at : ℕ) (k : Kernel B D) → Keeps k (take_table config entry pointer_at k)
  unfolding take_table with_word clear_table
  take_table-Keeps entry pointer_at k =
      elim (Bool-cases ((space_at k entry).tables == page_tables_each)) [
        | inl full ↦ rw (full, OnReturn, take_table) tt
        | inr room ↦ rw (room, OnReturn, take_table) refl
      ]

  map_page-Keeps :
      (entry page rights : ℕ) (k : Kernel B D) → Keeps k (map_page config entry page rights k)
  unfolding map_page
  map_page-Keeps entry page rights k =
      elim (Bool-cases (has (word (table_at config entry 0 + 4 * (page / 2 ^ 22)) k) pte_v)) [
        | inl present ↦ rw (present, OnReturn, map_page) (write_leaf-procs _ page rights k)
        | inr missing ↦ elim (Bool-cases (rights == 0)) [
          | inl none_asked ↦ rw (missing, none_asked, OnReturn, map_page) refl
          | inr asked ↦
              rw (missing, asked, map_page)
                (Keeps-bind k _ _ (take_table-Keeps entry _ k)
                  (λ u l. write_leaf-procs _ page rights l))
        ]
      ]

  map_loop-Keeps :
      (left entry page rights : ℕ) (k : Kernel B D)
      → Keeps k (map_loop config left entry page rights k)
  unfolding map_loop
  map_loop-Keeps zero entry page rights k = refl
  map_loop-Keeps (suc left) entry page rights k =
      Keeps-bind k _ _ (map_page-Keeps entry page rights k)
        (λ u l. map_loop-Keeps left entry (page + 4096) rights l)

  map-Keeps :
      (entry start end rights : ℕ) (k : Kernel B D) → Keeps k (map config entry start end rights k)
  unfolding map
  map-Keeps entry start end rights k = elim (Bool-cases ((space_at k entry).tables == 0)) [
    | inl bare ↦ rw (bare, OnReturn, map) tt
    | inr rooted ↦ rw (rooted, map) (map_loop-Keeps _ entry _ rights k)
  ]

  map_windows-Keeps :
      (entry : ℕ) (windows : List (ℕ × ℕ)) (rights : ℕ) (k : Kernel B D)
      → Keeps k (map_windows config entry windows rights k)
  unfolding map_windows
  map_windows-Keeps entry [] rights k = refl
  map_windows-Keeps entry ((base, size) ∷ rest) rights k =
      Keeps-bind k _ _ (map-Keeps entry base _ rights k)
        (λ u l. map_windows-Keeps entry rest rights l)

  -- A step that is made or not.
  Keeps-if :
      (b : Bool) (k : Kernel B D) (m : Outcome B D (Unit {0}))
      → Keeps k m
      → Keeps k (if b then m else returns tt k)
  Keeps-if true k m kept = kept
  Keeps-if false k m kept = refl

  lay_out-Keeps : (entry rights : ℕ) (k : Kernel B D) → Keeps k (lay_out config entry rights k)
  unfolding lay_out
  lay_out-Keeps entry rights k = Keeps-bind k _ _ (map-Keeps entry _ _ rights k) (λ u k₁.
      Keeps-bind k₁ _ _ (map-Keeps entry _ _ rights k₁) (λ u k₂.
        Keeps-bind k₂ _ _ (Keeps-if (config.framebuffer != 0) k₂ _ (map-Keeps entry _ _ _ k₂))
          (λ u k₃.
            Keeps-if (space_at k entry).drives_engines k₃ _
              (map_windows-Keeps entry config.engine_windows _ k₃))))

  prepare_tables-Keeps : (entry : ℕ) (k : Kernel B D) → Keeps k (prepare_tables config entry k)
  unfolding prepare_tables clear_table
  prepare_tables-Keeps entry k = elim (Bool-cases ((space_at k entry).tables != 0)) [
    | inl used ↦ rw (used, prepare_tables) (lay_out-Keeps entry 0 k)
    | inr fresh ↦ rw (fresh, OnReturn, prepare_tables) refl
  ]

  pub map_process-Keeps :
      (entry stack : ℕ) (k : Kernel B D) → Keeps k (map_process config entry stack k)
  unfolding map_process
  map_process-Keeps entry stack k =
      Keeps-bind k _ _ (prepare_tables-Keeps entry k) (λ u l. lay_out-Keeps entry _ _)
