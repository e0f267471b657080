-- ===== src/Hal/Fat/NameLaws.antt =====
-- hal/src/fat.rs: what `encode_name` stores is what `decode_slot` reads back.
use aion_so.Base.{ℕ, ◌+◌, ◌-◌, ◌*◌, ◌^◌, List, ◌++◌, length, replicate, get_or}
use aion_so.Base.Text
use aion_so.Hal.Fat.Boot.{u16_at, u32_at}
use aion_so.Hal.Fat.Directory.{DirectoryEntry}
use aion_so.Hal.Fat.Names.{short_name}

-- The entry that a slot of these bytes is, with the name in it.
abbrev slot_entry : List ℕ → List ℕ → DirectoryEntry
slot_entry bytes rest = record {
  name = short_name bytes ++ replicate (12 - length (short_name bytes)) 0;
  name_len = length (short_name bytes);
  attributes = get_or rest 0 0;
  first_cluster = u16_at rest 9 * 2 ^ 16 + u16_at rest 15;
  size = u32_at rest 17;
}
