-- ===== src/Paging/Bits.antt =====
-- What the entries that the mapper writes say, bit by bit.
use Prim.Native.Nat.{bit_and, bit_or}
use aion_so.Base.{
  ℕ, ◌-◌, ◌%◌, ◌^◌, ◌<◌, ◌≤◌, ◌≡◌, refl, ap, ◌∙◌, Bool, true, false, not, ◌&&◌, ◌||◌, ltb, ◌==◌,
  arith, inl, inr, ◌⊎◌, ◌≢◌, if◌then◌else◌, Bool-cases, ltb→lt, ltb→le,
}
use aion_so.Base.Bits.{
  test_bit, test_bit-or, test_bit-and, test_bit-pow, test_bit-not, test_bit-zero,
}
use aion_so.Base.BitCount.{test_bit_above, and-pow, lt_of_bits}
use aion_so.Base.Masks.{eq_of_bits, test_bit-ones, test_bit-aligned, test_bit-mod}
use aion_so.Hal.MemoryMap.{CachePolicy}
use aion_so.Hal.Paging.{PageFlags}
use aion_so.Hal.Frame.{PhysFrame}
use aion_so.Paging.Entries.{
  is_set, present, user, writable, huge, no_execute, address_mask, cache_bits,
}
use aion_so.Paging.{reachable_bits, leaf_of}

pub is_set-bit : (e k : ℕ) → is_set e (2 ^ k) ≡ test_bit e k
unfolding is_set
is_set-bit e k = and-pow e k

-- The address that an entry carries: bits 12 to 51.
abbrev in_address : ℕ → Bool
in_address j = not (ltb j 12) && ltb j 52

test_bit-mask : (j : ℕ) → test_bit address_mask j ≡ in_address j
test_bit-mask j = elim (Bool-cases (ltb j 52)) [
  | inl low ↦
      ground (arith, test_bit-not 52 4095 j (omega arith) (ltb→lt j 52 low), test_bit-ones 12 j)
  | inr high ↦ ground (arith, test_bit_above 52 address_mask j (omega arith) (ltb→le j 52 high))
]

pub test_bit-address :
    (e j : ℕ) → test_bit (bit_and e address_mask) j ≡ (in_address j && test_bit e j)
test_bit-address e j = ground (arith, test_bit-and e address_mask j, test_bit-mask j)

-- A frame's address, as an allocator gives it.
pub record IsFrame (a : ℕ) : Type 0 where
  pub aligned : a % 4096 ≡ 0
  pub small : a < 2 ^ 52

pub address-frame : (a : ℕ) → IsFrame a → bit_and a address_mask ≡ a
address-frame a f = eq_of_bits _ _ λ j. ground (
  arith,
  test_bit-address a j,
  λ (l : j < 12). test_bit-aligned 12 a j f.aligned l,
  λ (h : 52 ≤ j). test_bit_above 52 a j f.small h,
)

-- What a walk reads from an entry.
pub record Reads (e address : ℕ) (w : Bool) : Type 0 where
  pub is_present : is_set e present ≡ true
  pub is_small : is_set e huge ≡ false
  pub writes : is_set e writable ≡ w
  pub points : bit_and e address_mask ≡ address

Reads_of_bits :
    (e a : ℕ) (w : Bool)
    → IsFrame a
    → test_bit e 0 ≡ true
    → test_bit e 7 ≡ false
    → test_bit e 1 ≡ w
    → ((j : ℕ) → in_address j ≡ true → test_bit e j ≡ test_bit a j)
    → Reads e a w
Reads_of_bits e a w f p h r c = record {
  is_present = is_set-bit e 0 ∙ p;
  is_small = is_set-bit e 7 ∙ h;
  writes = is_set-bit e 1 ∙ r;
  points =
      eq_of_bits _ _ (λ j. ground (arith, c j, test_bit-address e j, test_bit-address a j))
      ∙ address-frame a f;
}

test_bit-reachable :
    (flags : PageFlags) (j : ℕ)
    → test_bit (reachable_bits flags) j ≡ (0 == j || (1 == j || (flags.user && 2 == j)))
unfolding reachable_bits
test_bit-reachable flags j = ground (
  arith,
  test_bit-or (bit_or present writable) user j,
  test_bit-or present writable j,
  test_bit-pow 0 j,
  test_bit-pow 1 j,
  test_bit-pow 2 j,
)

-- A link to a new table.
pub link-Reads :
    (new : ℕ) (flags : PageFlags) → IsFrame new → Reads (bit_or new (reachable_bits flags)) new true
link-Reads new flags f =
    let bits : (j : ℕ)
        → test_bit (bit_or new (reachable_bits flags)) j
          ≡ (test_bit new j || (0 == j || (1 == j || (flags.user && 2 == j)))) =
      λ j. test_bit-or new _ j ∙ ap (λ b. test_bit new j || b) (test_bit-reachable flags j) in
    Reads_of_bits _ new true f (ground (arith, bits 0))
      (ground (arith, bits 7, test_bit-aligned 12 new 7 f.aligned (omega arith)))
      (ground (arith, bits 1)) (λ j h. ground (arith, bits j))

test_bit-or_if :
    (c : Bool) (e k j : ℕ)
    → test_bit (if c then bit_or e (2 ^ k) else e) j ≡ (test_bit e j || (c && k == j))
test_bit-or_if c e k j = ground (arith, test_bit-or e (2 ^ k) j, test_bit-pow k j)

test_bit-cache : (p : CachePolicy) (j : ℕ) → test_bit (cache_bits p) j ≡ true → (j ≡ 3) ⊎ (j ≡ 4)
unfolding cache_bits
test_bit-cache CachePolicy.write_back j h = ground (arith, test_bit-zero j)
test_bit-cache CachePolicy.unspecified j h = ground (arith, test_bit-zero j)
test_bit-cache CachePolicy.write_through j h = ground (arith, test_bit-pow 3 j)
test_bit-cache CachePolicy.write_combining j h =
    ground (arith, test_bit-or (2 ^ 4) (2 ^ 3) j, test_bit-pow 3 j, test_bit-pow 4 j)
test_bit-cache CachePolicy.uncacheable j h =
    ground (arith, test_bit-or (2 ^ 4) (2 ^ 3) j, test_bit-pow 3 j, test_bit-pow 4 j)

-- The leaf of a page.
test_bit-leaf :
    (frame : PhysFrame) (flags : PageFlags) (j : ℕ)
    → test_bit (leaf_of frame flags) j ≡ (
        (((((test_bit frame.start.as_u64 j || 0 == j) || test_bit (cache_bits flags.cache) j)
              || (flags.writable && 1 == j))
            || (not flags.executable && 63 == j))
          || (flags.user && 2 == j)))
unfolding leaf_of
test_bit-leaf frame flags j =
    let a : ℕ = bit_or (bit_or frame.start.as_u64 present) (cache_bits flags.cache) in
    let b : ℕ = if flags.writable then bit_or a writable else a in
    let c : ℕ = if not flags.executable then bit_or b no_execute else b in
    test_bit-or_if flags.user c 2 j
    ∙ ap (λ x. x || (flags.user && 2 == j))
        (test_bit-or_if (not flags.executable) b 63 j
          ∙ ap (λ x. x || (not flags.executable && 63 == j))
              (test_bit-or_if flags.writable a 1 j
                ∙ ap (λ x. x || (flags.writable && 1 == j))
                    (test_bit-or _ (cache_bits flags.cache) j
                      ∙ ap (λ x. x || test_bit (cache_bits flags.cache) j)
                          (test_bit-or frame.start.as_u64 1 j
                            ∙ ap (λ x. test_bit frame.start.as_u64 j || x) (test_bit-pow 0 j)))))

leaf_clear :
    (frame : PhysFrame) (flags : PageFlags) (j : ℕ)
    → j ≢ 0
    → j ≢ 1
    → j ≢ 2
    → j ≢ 3
    → j ≢ 4
    → j ≢ 63
    → test_bit (leaf_of frame flags) j ≡ test_bit frame.start.as_u64 j
leaf_clear frame flags j h0 h1 h2 h3 h4 h63 =
    ground (arith, test_bit-leaf frame flags j, test_bit-cache flags.cache j)

pub leaf-Reads :
    (frame : PhysFrame) (flags : PageFlags)
    → IsFrame frame.start.as_u64
    → Reads (leaf_of frame flags) frame.start.as_u64 flags.writable
leaf-Reads frame flags f =
    let low : (j : ℕ) → j < 12 → test_bit frame.start.as_u64 j ≡ false =
      λ j h. test_bit-aligned 12 _ j f.aligned h in
    Reads_of_bits _ _ _ f (ground (arith, test_bit-leaf frame flags 0))
      (leaf_clear frame flags 7 (omega arith) (omega arith) (omega arith) (omega arith)
          (omega arith) (omega arith)
        ∙ low 7 (omega arith))
      (ground (arith, test_bit-leaf frame flags 1, low 1, test_bit-cache flags.cache 1))
      (λ j h.
        leaf_clear frame flags j (ground arith) (ground arith) (ground arith) (ground arith)
          (ground arith) (ground arith))

-- The bit for ring 3, added to a link, changes nothing that a walk reads.
pub upgraded-Reads : (e k : ℕ) → is_set (bit_or e user) (2 ^ k) ≡ (is_set e (2 ^ k) || 2 == k)
upgraded-Reads e k =
    ground
      (arith, is_set-bit (bit_or e user) k, is_set-bit e k, test_bit-or e user k, test_bit-pow 2 k)

pub address-upgraded : (e : ℕ) → bit_and (bit_or e user) address_mask ≡ bit_and e address_mask
address-upgraded e = eq_of_bits _ _ λ j. ground (
  arith,
  test_bit-address (bit_or e user) j,
  test_bit-address e j,
  test_bit-or e user j,
  test_bit-pow 2 j,
)

pub address-IsFrame : (e : ℕ) → IsFrame (bit_and e address_mask)
address-IsFrame e = record {
  aligned = eq_of_bits _ _ λ j.
      ground
        (arith, test_bit-mod 12 (bit_and e address_mask) j, test_bit-address e j, test_bit-zero j);
  small = lt_of_bits 52 _ λ j h. ground (arith, test_bit-address e j);
}

-- The address of a 4 KiB page and the offset in it.
pub small_page : (a : ℕ) → IsFrame a → bit_and a (2 ^ 64 - 1 - (2 ^ 12 - 1)) ≡ a
small_page a f = eq_of_bits _ _ λ j. elim (Bool-cases (ltb j 64)) [
  | inl h ↦ ground (
    arith,
    test_bit-and a (2 ^ 64 - 1 - (2 ^ 12 - 1)) j,
    test_bit-not 64 (2 ^ 12 - 1) j (omega arith) (ltb→lt j 64 h),
    test_bit-ones 12 j,
    λ (l : j < 12). test_bit-aligned 12 a j f.aligned l,
  )
  | inr h ↦ ground (
    arith,
    test_bit-and a (2 ^ 64 - 1 - (2 ^ 12 - 1)) j,
    test_bit_above 52 a j f.small (omega (arith, ltb→le j 64 h)),
  )
]

pub is_set_zero : is_set 0 present ≡ false
unfolding is_set
is_set_zero = refl
