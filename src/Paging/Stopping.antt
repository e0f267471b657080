-- ===== src/Paging/Stopping.antt =====
-- arch/x86_64/src/paging.rs: the errors that can stop the walk of `map`.
use aion_so.Base.{
  ℕ, ◌≡◌, refl, sym, ap, ◌∙◌, Bool, true, false, not, ◌&&◌, List, [], ◌∷◌, Option, none, some,
  arith, inl, inr, Bool-cases, Option-cases, some_inj, add64,
}
use aion_so.Hal.Frame.{PhysFrame}
use aion_so.Hal.Paging.{PageFlags, MapError}
use aion_so.Paging.Entries.{is_set, present, user, huge}
use aion_so.Paging.Descent.{entries_of}
use aion_so.Paging.{
  PageTables, Walk, FrameAllocator, granted, link, follow, step, new_table, descend, reaches,
  translate,
}

abbrev pub stops_a_walk : MapError → Bool
stops_a_walk MapError.out_of_frames = true
stops_a_walk MapError.table_frame_not_writable = true
stops_a_walk MapError.huge_page_in_the_way = true
stops_a_walk MapError.outside_kernel_space = false
stops_a_walk MapError.already_mapped = false

-- An outcome whose error, if it has one, is one of those.
abbrev pub Stops : Option MapError → Type 0
Stops e = (err : MapError) → e ≡ some err → stops_a_walk err ≡ true

some-Stops : (x : MapError) → stops_a_walk x ≡ true → Stops (some x)
some-Stops x h err p = sym (ap stops_a_walk (some_inj _ _ p)) ∙ h

none-Stops : Stops none
none-Stops err p = ground arith

follow-Stops : {F : Type 0} (flags : PageFlags) (i : ℕ) (w : Walk F) → Stops (follow flags i w).1
unfolding follow
follow-Stops flags i w = elim (Bool-cases (is_set (entries_of w w.table i) huge)) [
  | inl h ↦ rw h (some-Stops MapError.huge_page_in_the_way refl)
  | inr h ↦ elim (Bool-cases (flags.user && not (is_set (entries_of w w.table i) user))) [
    | inl u ↦ rw (h, u) none-Stops
    | inr u ↦ rw (h, u) none-Stops
  ]
]

link-Stops :
    {F : Type 0} (flags : PageFlags) (i : ℕ) (w : Walk F) (t : PageTables)
    (p : Option PhysFrame × F)
    → Stops (link flags i w (granted t p)).1
unfolding link granted
link-Stops flags i w t (none, f) = some-Stops MapError.out_of_frames refl
link-Stops flags i w t (some fr, f) =
    elim (Bool-cases
      (reaches fr.start.as_u64 (translate t (add64 t.access.window fr.start.as_u64)))) [
        | inl r ↦ rw r none-Stops
        | inr r ↦ rw r (some-Stops MapError.table_frame_not_writable refl)
      ]

step-Stops :
    {F : Type 0} (source : FrameAllocator F) (flags : PageFlags) (i : ℕ) (w : Walk F)
    → Stops (step source flags i w).1
unfolding step new_table
step-Stops source flags i w = elim (Bool-cases (is_set (entries_of w w.table i) present)) [
  | inl on ↦ rw on (follow-Stops flags i w)
  | inr off ↦ rw off (link-Stops flags i w w.mapper.tables (source.allocate_frame w.mapper.frames))
]

pub descend-Stops :
    {F : Type 0} (source : FrameAllocator F) (flags : PageFlags) (is : List ℕ) (w : Walk F)
    → Stops (descend source flags is w).1
unfolding descend
descend-Stops source flags [] w = none-Stops
descend-Stops source flags (i ∷ is) w = elim (Option-cases (step source flags i w).1) [
  | inr (err, e) ↦ rw (e, descend) (some-Stops err (step-Stops source flags i w err e))
  | inl e ↦ rw (e, descend) (descend-Stops source flags is (step source flags i w).0)
]
