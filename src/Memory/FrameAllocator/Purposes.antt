-- ===== src/Memory/FrameAllocator/Purposes.antt =====
-- What a frame is used for, as the byte that the purpose table keeps.
use aion_so.Base.{ℕ, ◌≡◌, refl, Bool, Option, none, some, if◌then◌else◌, ◌==◌, arith}

pub data FramePurpose : Type 0 where
  boot page_table heap stack kernel dma : FramePurpose

-- `purpose as u8`
unfoldable pub to_byte : FramePurpose → ℕ
to_byte FramePurpose.boot = 1
to_byte FramePurpose.page_table = 2
to_byte FramePurpose.heap = 3
to_byte FramePurpose.stack = 4
to_byte FramePurpose.kernel = 5
to_byte FramePurpose.dma = 6

unfoldable pub from_byte : ℕ → Option FramePurpose
from_byte byte =
    if byte == 1
    then some FramePurpose.boot
    else if byte == 2
    then some FramePurpose.page_table
    else if byte == 3
    then some FramePurpose.heap
    else if byte == 4
    then some FramePurpose.stack
    else if byte == 5
    then some FramePurpose.kernel
    else if byte == 6
    then some FramePurpose.dma
    else none

-- `==` of a derived `PartialEq`.
unfoldable pub is_purpose : FramePurpose → FramePurpose → Bool
unfolding to_byte
is_purpose a b = to_byte a == to_byte b

pub from_byte-to_byte : (p : FramePurpose) → from_byte (to_byte p) ≡ some p
unfolding from_byte to_byte
from_byte-to_byte FramePurpose.boot = refl
from_byte-to_byte FramePurpose.page_table = refl
from_byte-to_byte FramePurpose.heap = refl
from_byte-to_byte FramePurpose.stack = refl
from_byte-to_byte FramePurpose.kernel = refl
from_byte-to_byte FramePurpose.dma = refl

pub from_byte-zero : from_byte 0 ≡ none
unfolding from_byte
from_byte-zero = refl

pub is_purpose_lem : (a b : FramePurpose) → is_purpose a b ≡ Bool.true → a ≡ b
unfolding is_purpose
is_purpose_lem a b h = ground arith

pub is_purpose_refl : (a : FramePurpose) → is_purpose a a ≡ Bool.true
unfolding is_purpose
is_purpose_refl a = ground arith
