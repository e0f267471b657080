-- ===== src/Hal/Fat/Names.antt =====
-- hal/src/fat.rs: names of eight characters and three, as a directory stores them, and the slots of
-- a directory. Text is a list of bytes.
use Prim.Native.Nat.{bit_and}
use aion_so.Base.{
  ℕ, ◌+◌, ◌-◌, ◌*◌, ◌^◌, not, ◌&&◌, ◌||◌, Option, none, some, List, [], ◌∷◌, ◌++◌, if◌then◌else◌,
  ltb, leb, ◌==◌, length, take, drop, replicate, get_or, any,
}
use aion_so.Hal.Fat.Directory.{DirectoryEntry}
use aion_so.Hal.Fat.Boot.{u16_at, u32_at}

abbrev pub space : ℕ
space = 0x20

abbrev pub dot : ℕ
dot = 0x2e

-- `"*/:<>?\|+,;=[] `
abbrev reserved : List ℕ
reserved =
    0x22 ∷ 0x2a ∷ 0x2f ∷ 0x3a ∷ 0x3c ∷ 0x3e ∷ 0x3f ∷ 0x5c ∷ 0x7c ∷ 0x2b ∷ 0x2c ∷ 0x3b ∷ 0x3d ∷ 0x5b
    ∷ 0x5d ∷ 0x20 ∷ []

-- `u8::to_ascii_uppercase`
abbrev pub to_upper : ℕ → ℕ
to_upper byte = if leb 0x61 byte && leb byte 0x7a then byte - 0x20 else byte

unfoldable pub allowed_in_a_name : ℕ → Option ℕ
allowed_in_a_name byte =
    if leb 0x80 byte || (ltb byte 0x20 || (byte == 0x7f || any (λ r. r == byte) reserved))
    then none
    else some (to_upper byte)

-- Every byte of a part of the name, or `none` at the first that is not allowed.
unfoldable pub allowed_bytes : List ℕ → Option (List ℕ)
allowed_bytes [] = some []
allowed_bytes (x ∷ xs) = elim (allowed_in_a_name x) [
  | none ↦ none
  | some y ↦ elim (allowed_bytes xs) [ none ↦ none | some ys ↦ some (y ∷ ys) ]
]

-- `split_once('.')`, with nothing after a name that has no dot.
unfoldable pub split_name : List ℕ → List ℕ × List ℕ
split_name [] = ([], [])
split_name (x ∷ xs) =
    let (base, extension) = split_name xs in if x == dot then ([], xs) else (x ∷ base, extension)

unfoldable pub padded : ℕ → List ℕ → List ℕ
padded n xs = xs ++ replicate (n - length xs) space

unfoldable pub encode_parts : List ℕ × List ℕ → Option (List ℕ)
encode_parts (base, extension) =
    if length base == 0 || (ltb 8 (length base) || ltb 3 (length extension))
    then none
    else elim (allowed_bytes base) [
      | none ↦ none
      | some b ↦ elim (allowed_bytes extension) [
        | none ↦ none
        | some e ↦
            if get_or (padded 8 b ++ padded 3 e) 0 0 == 0xe5
            then none
            else some (padded 8 b ++ padded 3 e)
      ]
    ]

unfoldable pub encode_name : List ℕ → Option (List ℕ)
encode_name name = encode_parts (split_name name)

unfoldable pub until_space : List ℕ → List ℕ
until_space [] = []
until_space (x ∷ xs) = let rest = until_space xs in if x == space then [] else x ∷ rest

-- The name of a slot, with its dot put back.
unfoldable pub short_name : List ℕ → List ℕ
short_name bytes =
    if get_or bytes 8 0 == space
    then until_space (take 8 bytes)
    else until_space (take 8 bytes) ++ dot ∷ until_space (take 3 (drop 8 bytes))

pub data Slot : Type 0 where
  entry : DirectoryEntry → Slot
  skip end : Slot

unfoldable pub decode_slot : List ℕ → Slot
decode_slot bytes =
    let attributes = get_or bytes 11 0 in
    let name = short_name bytes in
    if get_or bytes 0 0 == 0
    then Slot.end
    else if get_or bytes 0 0 == 0xe5
    then Slot.skip
    else if bit_and attributes 0x0f == 0x0f || not (bit_and attributes 0x08 == 0)
    then Slot.skip
    else Slot.entry (record {
      name = name ++ replicate (12 - length name) 0;
      name_len = length name;
      attributes = attributes;
      first_cluster = u16_at bytes 20 * 2 ^ 16 + u16_at bytes 26;
      size = u32_at bytes 28;
    })
