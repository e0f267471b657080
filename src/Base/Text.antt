-- ===== src/Base/Text.antt =====
-- `&str`: bytes that are UTF-8, and comparing them without case.
use aion_so.Base.Tests.{ltb, leb, ◌==◌, if◌then◌else◌, lt→ltb}
use aion_so.Base.Lists.{All}
use mathlib.Core.Path.{◌≡◌, refl}
use Prim.Native.Nat.{ℕ, ◌-◌, ◌<◌}
use mathlib.Core.Bool.{Bool, true, false, ◌&&◌}
use mathlib.Core.List.{List, [], ◌∷◌}

-- How many continuation bytes are due, and the narrower range of the next one.
pub data Expect : Type 0 where
  start one two three after_e0 after_ed after_f0 after_f4 bad : Expect

between : ℕ → ℕ → ℕ → Bool
between lo hi b = leb lo b && leb b hi

first_byte : ℕ → Expect
unfolding between
first_byte b =
    if ltb b 0x80
    then start
    else if between 0xc2 0xdf b
    then one
    else if b == 0xe0
    then after_e0
    else if b == 0xed
    then after_ed
    else if between 0xe1 0xef b
    then two
    else if b == 0xf0
    then after_f0
    else if between 0xf1 0xf3 b
    then three
    else if b == 0xf4
    then after_f4
    else bad

step : Expect → ℕ → Expect
unfolding first_byte
step start b = first_byte b
step one b = if between 0x80 0xbf b then start else bad
step two b = if between 0x80 0xbf b then one else bad
step three b = if between 0x80 0xbf b then two else bad
step after_e0 b = if between 0xa0 0xbf b then one else bad
step after_ed b = if between 0x80 0x9f b then one else bad
step after_f0 b = if between 0x90 0xbf b then two else bad
step after_f4 b = if between 0x80 0x8f b then two else bad
step bad b = bad

is_start : Expect → Bool
is_start start = true
is_start _ = false

run : Expect → List ℕ → Bool
unfolding step is_start
run s [] = is_start s
run s (b ∷ bs) = run (step s b) bs

-- `core::str::from_utf8(bytes).unwrap_or("")`
unfoldable pub text_or_empty : List ℕ → List ℕ
unfolding run
text_or_empty bytes = if run start bytes then bytes else []

run-ascii : (bytes : List ℕ) → All (λ b. b < 0x80) bytes → run start bytes ≡ true
unfolding run step first_byte is_start
run-ascii [] h = refl
run-ascii (b ∷ bs) h = rw (lt→ltb b 0x80 h.0) (run-ascii bs h.1)

-- Text of one-byte characters is itself.
pub text_or_empty-ascii : (bytes : List ℕ) → All (λ b. b < 0x80) bytes → text_or_empty bytes ≡ bytes
unfolding text_or_empty
text_or_empty-ascii bytes h = rw (run-ascii bytes h) refl

unfoldable pub to_upper : ℕ → ℕ
to_upper b = if leb 0x61 b && leb b 0x7a then b - 0x20 else b

-- `len` equal, and every byte `eq_ignore_ascii_case`.
unfoldable pub same_text : List ℕ → List ℕ → Bool
unfolding to_upper
same_text [] [] = true
same_text [] (c ∷ cs) = false
same_text (b ∷ bs) [] = false
same_text (b ∷ bs) (c ∷ cs) = to_upper b == to_upper c && same_text bs cs
