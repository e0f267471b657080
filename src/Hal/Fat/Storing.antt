-- ===== src/Hal/Fat/Storing.antt =====
-- hal/src/fat.rs: the eleven bytes that `encode_name` stores, and the name in them.
use mathlib.Core.List.{map, append-nil}
use aion_so.Base.{
  ℕ, zero, suc, ◌-◌, ◌≤◌, ◌<◌, ◌≡◌, ◌≢◌, refl, sym, ap, ◌∙◌, Bool, ◌||◌, Option, none, some,
  some_inj, List, [], ◌∷◌, ◌++◌, if◌then◌else◌, ltb, ◌==◌, length, take, drop, replicate, get_or,
  All, arith, inl, inr, Bool-cases, Option-cases, length-append, length-replicate, ==_of_ne,
}
use aion_so.Base.Append.{take-append_length, drop-append_length, get_or-append_length, take_whole}
use aion_so.Hal.Fat.Names.{
  space, dot, to_upper, allowed_in_a_name, allowed_bytes, padded, encode_parts, until_space,
  short_name,
}

-- Printable, and no space.
abbrev IsVisible : ℕ → Type 0
IsVisible y = (0x20 < y) × (y < 0x80)

allowed_in_a_name_lem : (x y : ℕ) → allowed_in_a_name x ≡ some y → (y ≡ to_upper x) × IsVisible y
unfolding allowed_in_a_name
allowed_in_a_name_lem x y e = ground arith

none_some : {A : Type 0} (x : A) → ◌≢◌ {A = Option A} none (some x)
none_some x e = ground arith

refused : (x : ℕ) (xs : List ℕ) → allowed_in_a_name x ≡ none → allowed_bytes (x ∷ xs) ≡ none
unfolding allowed_bytes
refused x xs p = rw (p, allowed_bytes) refl

refused_later :
    (x : ℕ) (xs : List ℕ) (y : ℕ)
    → allowed_in_a_name x ≡ some y
    → allowed_bytes xs ≡ none
    → allowed_bytes (x ∷ xs) ≡ none
unfolding allowed_bytes
refused_later x xs y p q = rw (p, q, allowed_bytes) refl

accepted :
    (x : ℕ) (xs : List ℕ) (y : ℕ) (ys : List ℕ)
    → allowed_in_a_name x ≡ some y
    → allowed_bytes xs ≡ some ys
    → allowed_bytes (x ∷ xs) ≡ some (y ∷ ys)
unfolding allowed_bytes
accepted x xs y ys p q = rw (p, q, allowed_bytes) refl

allowed_bytes_lem :
    (xs ys : List ℕ)
    → allowed_bytes xs ≡ some ys
    → (ys ≡ map to_upper xs) × All IsVisible ys × (length ys ≡ length xs)
unfolding allowed_bytes
allowed_bytes_lem [] ys e = let same : [] ≡ ys = some_inj _ _ e in rw (← same) (refl, tt, refl)
allowed_bytes_lem (x ∷ xs) ys e = elim (Option-cases (allowed_in_a_name x)) [
  | inl p ↦ absurd (none_some _ (sym (refused x xs p) ∙ e))
  | inr (y, p) ↦ elim (Option-cases (allowed_bytes xs)) [
    | inl q ↦ absurd (none_some _ (sym (refused_later x xs y p q) ∙ e))
    | inr (zs, q) ↦
        let (f, v) = allowed_in_a_name_lem x y p in
        let (g, vs, n) = allowed_bytes_lem xs zs q in
        let same : y ∷ zs ≡ ys = some_inj _ _ (sym (accepted x xs y zs p q) ∙ e) in
        rw (← same) (ap (λ l. y ∷ l) g ∙ ap (λ h. h ∷ map to_upper xs) f, (v, vs), omega (arith, n))
  ]
]

until_space-padded :
    (ys : List ℕ) (k : ℕ) → All IsVisible ys → until_space (ys ++ replicate k space) ≡ ys
unfolding until_space
until_space-padded [] zero v = refl
until_space-padded [] (suc k) v = refl
until_space-padded (y ∷ ys) k v =
    rw (==_of_ne y space (λ e. omega (arith, v.0, e)), until_space-padded ys k v.1) refl

length-padded : (n : ℕ) (xs : List ℕ) → length xs ≤ n → length (padded n xs) ≡ n
unfolding padded
length-padded n xs h = omega (
  arith,
  length-append xs (replicate (n - length xs) space),
  length-replicate (n - length xs) space,
)

-- The dot and the extension, if there is one.
abbrev pub dotted : List ℕ → List ℕ
dotted [] = []
dotted (x ∷ xs) = dot ∷ (x ∷ xs)

until-padded : (n : ℕ) (ys : List ℕ) → All IsVisible ys → until_space (padded n ys) ≡ ys
unfolding padded
until-padded n ys v = until_space-padded ys (n - length ys) v

extension_of : List ℕ → List ℕ → List ℕ
extension_of b e =
    if get_or (padded 3 e) 0 0 == space then b else b ++ dot ∷ until_space (take 3 (padded 3 e))

extension_lem : (b e : List ℕ) → All IsVisible e → length e ≤ 3 → extension_of b e ≡ b ++ dotted e
unfolding extension_of padded
extension_lem b [] v h = sym (append-nil b)
extension_lem b (y ∷ ys) v h =
    let whole : take 3 (padded 3 (y ∷ ys)) ≡ padded 3 (y ∷ ys) =
      take_whole 3 (padded 3 (y ∷ ys)) (omega (arith, length-padded 3 (y ∷ ys) h)) in
    rw (==_of_ne y space (λ e. omega (arith, v.0, e)), whole, until-padded 3 (y ∷ ys) v) refl

-- The stored name of two visible parts.
stored_name :
    (b e : List ℕ)
    → All IsVisible b
    → All IsVisible e
    → length b ≤ 8
    → length e ≤ 3
    → short_name (padded 8 b ++ padded 3 e) ≡ b ++ dotted e
unfolding short_name extension_of
stored_name b e vb ve lb le =
    let eight : length (padded 8 b) ≡ 8 = length-padded 8 b lb in
    let front : take 8 (padded 8 b ++ padded 3 e) ≡ padded 8 b =
      take-append_length (padded 8 b) (padded 3 e) 8 eight in
    let back : drop 8 (padded 8 b ++ padded 3 e) ≡ padded 3 e =
      drop-append_length (padded 8 b) (padded 3 e) 8 eight in
    let middle : get_or (padded 8 b ++ padded 3 e) 8 0 ≡ get_or (padded 3 e) 0 0 =
      get_or-append_length (padded 8 b) (padded 3 e) 8 eight in
    let base : until_space (padded 8 b) ≡ b = until-padded 8 b vb in
    rw (front, back, middle, base) (extension_lem b e ve le)

abbrev pub Stored : List ℕ × List ℕ → List ℕ → Type 0
Stored (base, extension) bytes =
    (length bytes ≡ 11)
    × (short_name bytes ≡ map to_upper base ++ dotted (map to_upper extension))
    × All (λ y. y < 0x80) (short_name bytes)
    × (get_or bytes 0 0 ≢ 0)
    × (get_or bytes 0 0 ≢ 0xe5)

first-IsVisible :
    (b r : List ℕ) → 0 < length b → All IsVisible b → IsVisible (get_or (padded 8 b ++ r) 0 0)
unfolding padded
first-IsVisible [] r h v = absurd (omega arith)
first-IsVisible (y ∷ ys) r h v = v.0

visible-ascii : (xs : List ℕ) → All IsVisible xs → All (λ y. y < 0x80) xs
visible-ascii [] v = tt
visible-ascii (x ∷ xs) v = (v.0.1, visible-ascii xs v.1)

dotted-ascii :
    (b e : List ℕ) → All IsVisible b → All IsVisible e → All (λ y. y < 0x80) (b ++ dotted e)
dotted-ascii [] [] vb ve = tt
dotted-ascii [] (y ∷ ys) vb ve = (omega arith, visible-ascii (y ∷ ys) ve)
dotted-ascii (x ∷ xs) e vb ve = (vb.0.1, dotted-ascii xs e vb.1 ve)

encode_parts-Stored :
    (base extension b e : List ℕ)
    → 0 < length base
    → length base ≤ 8
    → length extension ≤ 3
    → allowed_bytes base ≡ some b
    → allowed_bytes extension ≡ some e
    → Stored (base, extension) (padded 8 b ++ padded 3 e)
encode_parts-Stored base extension b e h8 l8 l3 p q =
    let (fb, vb, nb) = allowed_bytes_lem base b p in
    let (fe, ve, ne) = allowed_bytes_lem extension e q in
    let seen : IsVisible (get_or (padded 8 b ++ padded 3 e) 0 0) =
      first-IsVisible b (padded 3 e) (omega (arith, nb)) vb in
    (
      omega (
        arith,
        length-append (padded 8 b) (padded 3 e),
        length-padded 8 b (omega (arith, nb)),
        length-padded 3 e (omega (arith, ne)),
      ),
      stored_name b e vb ve (omega (arith, nb)) (omega (arith, ne))
          ∙ ap (λ x. x ++ dotted e) fb
          ∙ ap (λ x. map to_upper base ++ dotted x) fe,
      rw (stored_name b e vb ve (omega (arith, nb)) (omega (arith, ne))) (dotted-ascii b e vb ve),
      λ z. omega (arith, seen.0, z),
      λ z. omega (arith, seen.1, z),
    )

abbrev too_long : List ℕ → List ℕ → Bool
too_long base extension = length base == 0 || (ltb 8 (length base) || ltb 3 (length extension))

pub encode_parts_lem :
    (parts : List ℕ × List ℕ) (bytes : List ℕ)
    → encode_parts parts ≡ some bytes
    → Stored parts bytes
unfolding encode_parts
encode_parts_lem (base, extension) bytes e = elim (Bool-cases (too_long base extension)) [
  | inl bad ↦ absurd (none_some bytes (sym (rw bad refl) ∙ e))
  | inr fits ↦ elim (Option-cases (allowed_bytes base)) [
    | inl p ↦ absurd (none_some bytes (sym (rw (fits, p) refl) ∙ e))
    | inr (b, p) ↦ elim (Option-cases (allowed_bytes extension)) [
      | inl q ↦ absurd (none_some bytes (sym (rw (fits, p, q) refl) ∙ e))
      | inr (x, q) ↦ elim (Bool-cases (get_or (padded 8 b ++ padded 3 x) 0 0 == 0xe5)) [
        | inl z ↦ absurd (none_some bytes (sym (rw (fits, p, q, z) refl) ∙ e))
        | inr z ↦
            let same : padded 8 b ++ padded 3 x ≡ bytes =
              some_inj _ _ (sym (rw (fits, p, q, z) refl) ∙ e) in
            rw (← same) (
              encode_parts-Stored base extension b x (ground (arith, fits)) (ground (arith, fits))
                (ground (arith, fits)) p q)
      ]
    ]
  ]
]
