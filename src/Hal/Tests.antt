-- ===== src/Hal/Tests.antt =====
-- Runs of hal/src at concrete inputs.
use aion_so.Base.{◌<◌, ◌≡◌, ◌⊎◌, ◌++◌, refl, true, false, [], ◌∷◌}
use aion_so.Hal.Addr.{phys}
use aion_so.Hal.MemoryMap.{
  MemoryRegion, MemoryRegionKind, no_attributes, capacity, new, push, iter, is_complete,
  classify_attributes, classify_memory_type, CachePolicy,
}
use aion_so.Hal.MemoryMap.Laws.{IsValid, new-IsValid, push_lem}

abbrev low_memory : MemoryRegion
low_memory = record {
  start_phys_addr = phys 0x1000;
  page_count = 159;
  kind = MemoryRegionKind.usable;
  attributes = no_attributes;
}

push_lem_example :
    let (m', added) = push new low_memory in
    IsValid m'
    × ((new.len < capacity)
          × (added ≡ true)
          × (iter m' ≡ iter new ++ low_memory ∷ [])
          × (is_complete m' ≡ is_complete new)
        ⊎ (new.len ≡ capacity) × (added ≡ false) × (iter m' ≡ iter new) × (is_complete m' ≡ false))
push_lem_example = push_lem new low_memory new-IsValid

conventional_memory : classify_memory_type 7 ≡ MemoryRegionKind.usable
unfolding classify_memory_type
conventional_memory = refl

write_back_wins : (classify_attributes 0xf).cache ≡ CachePolicy.write_back
unfolding classify_attributes
write_back_wins = refl
