-- ===== src/Stage2/SectorMap.antt =====
-- FileSystem.c of the earlier kernel: the map of the sectors in use, and the names of files.
use red_fox32_old.Base.{
  ℕ, zero, suc, ◌+◌, ◌-◌, ◌/◌, ◌%◌, ◌^◌, ◌<◌, ◌≡◌, ◌∙◌, ap, refl, arith, List, Bool, true, ◌&&◌,
  set, get_or, length, ltb, ◌==◌, if◌then◌else◌, bit_and, passes, passes-at, get_or-set, Bool-cases,
  inl, inr, ℕ_discrete, ==_false,
}
use Prim.Native.Nat.{bit_xor}

-- The fields of the packed struct; a sector past the end of the groups, which the source would look for
-- in the memory behind them, reads as 0 and is not written.
pub record SectorMap : Type 0 where
  pub sector_groups : List ℕ
  pub used_sectors : ℕ
  pub free_sectors : ℕ

-- The status in a group of eight, the highest bit for the first sector.
abbrev status_in : (group offset : ℕ) → ℕ
status_in group offset = bit_and group (0x80 / 2 ^ offset) / 2 ^ (7 - offset)

pub get_sector_status : (sector : ℕ) → SectorMap → ℕ
get_sector_status sector m = status_in (get_or m.sector_groups (sector / 8) 0) (sector % 8)

-- The group with the bit at the offset set to the status.
abbrev with_status : (group offset status : ℕ) → ℕ
with_status group offset status =
    if status_in group offset == status then group else bit_xor group (2 ^ (7 - offset)) % 256

pub set_sector_status : (sector status : ℕ) → SectorMap → SectorMap
set_sector_status sector status' m =
    let status = if status' == 0 then 0 else 1 in
    let group = get_or m.sector_groups (sector / 8) 0 in
    if status_in group (sector % 8) == status then m else record m {
      sector_groups = set m.sector_groups (sector / 8) (bit_xor group (2 ^ (7 - sector % 8)) % 256);
    }

-- The first five characters.
compare_from : (n i : ℕ) → (a b : ℕ → ℕ) → ℕ
compare_from zero i a b = 1
compare_from (suc n) i a b = let rest = compare_from n (i + 1) a b in if a i == b i then rest else 0

pub name_compare : (a b : ℕ → ℕ) → ℕ
unfolding compare_from
name_compare a b = compare_from 5 0 a b

abbrev row : ℕ → ℕ → ℕ → Bool
row group offset other =
    (ltb (status_in group offset) 2
      && (status_in (bit_xor group (2 ^ (7 - offset)) % 256) other
          == (if offset == other then 1 - status_in group offset else status_in group other)))

flip_table : passes (λ group. passes (λ offset. passes (row group offset) 8) 8) 256 ≡ true
unfolding passes
flip_table = refl

-- Turning a bit round turns the status of its sector round, and leaves those of the seven others.
flip :
    (group offset other : ℕ)
    → group < 256
    → offset < 8
    → other < 8
    → (status_in group offset < 2)
      × (status_in (bit_xor group (2 ^ (7 - offset)) % 256) other
          ≡ (if offset == other then 1 - status_in group offset else status_in group other))
flip group offset other g o p = ground (
  arith,
  passes-at (row group offset) 8
      (passes-at (λ offset. passes (row group offset) 8) 8
        (passes-at (λ group. passes (λ offset. passes (row group offset) 8) 8) 256 flip_table group
          g)
        offset o)
      other p,
)

-- The groups of a map are bytes.
abbrev pub IsMap : SectorMap → Type 0
IsMap m = (i : ℕ) → get_or m.sector_groups i 0 < 256

abbrev turned : (group offset : ℕ) → ℕ
turned group offset = bit_xor group (2 ^ (7 - offset)) % 256

-- The status of another sector when the bit at `offset` in the group `g` has been turned round.
status-turned :
    (xs : List ℕ) (g g' offset other : ℕ)
    → ((i : ℕ) → get_or xs i 0 < 256)
    → g < length xs
    → offset < 8
    → other < 8
    → status_in (get_or (set xs g (turned (get_or xs g 0) offset)) g' 0) other ≡ (
        if (g == g') && (offset == other)
        then 1 - status_in (get_or xs g 0) offset
        else status_in (get_or xs g' 0) other)
status-turned xs g g' offset other h lt o p =
    ap (λ x. status_in x other) (get_or-set xs g g' (turned (get_or xs g 0) offset) 0 lt)
    ∙ elim (ℕ_discrete g g') [
      | yes e ↦ rw e (ground (arith, flip (get_or xs g' 0) offset other (h g') o p))
      | no ne ↦ rw (==_false ne)
    ]

-- Setting the status of a sector of the map is seen when it is read again, as 0 or 1, and is not seen
-- at any other sector.
pub get_sector_status-set_sector_status :
    (sector status other : ℕ) (m : SectorMap)
    → IsMap m
    → sector / 8 < length m.sector_groups
    → get_sector_status other (set_sector_status sector status m)
      ≡ (if sector == other then (if status == 0 then 0 else 1) else get_sector_status other m)
unfolding get_sector_status set_sector_status
get_sector_status-set_sector_status sector status other m h lt =
    elim (Bool-cases (
      status_in (get_or m.sector_groups (sector / 8) 0) (sector % 8)
      == (if status == 0 then 0 else 1))) [
        | inl same ↦ rw same (elim (ℕ_discrete sector other) [
          | yes e ↦ rw (← e) (ground arith)
          | no ne ↦ rw (==_false ne)
        ])
        | inr differs ↦ rw differs (
            ground (
              arith,
              status-turned m.sector_groups (sector / 8) (other / 8) (sector % 8) (other % 8) h lt
                  (omega arith) (omega arith),
              flip (get_or m.sector_groups (sector / 8) 0) (sector % 8) (sector % 8)
                  (h (sector / 8)) (omega arith) (omega arith),
            ))
      ]

-- The status depends on the group of the sector only.
pub get_sector_status_same :
    (sector : ℕ) (m m' : SectorMap)
    → get_or m.sector_groups (sector / 8) 0 ≡ get_or m'.sector_groups (sector / 8) 0
    → get_sector_status sector m ≡ get_sector_status sector m'
unfolding get_sector_status
get_sector_status_same sector m m' e = rw e

compare_from_same :
    (n i : ℕ) (a a' b : ℕ → ℕ)
    → ((k : ℕ) → k < i + n → a k ≡ a' k)
    → compare_from n i a b ≡ compare_from n i a' b
unfolding compare_from
compare_from_same zero i a a' b h = refl
compare_from_same (suc n) i a a' b h =
    rw (h i (omega arith), compare_from_same n (i + 1) a a' b (λ k lt. h k (omega arith)))

-- Only the first five characters of a name count.
pub name_compare_same :
    (a a' b : ℕ → ℕ) → ((k : ℕ) → k < 5 → a k ≡ a' k) → name_compare a b ≡ name_compare a' b
unfolding name_compare
name_compare_same a a' b h = compare_from_same 5 0 a a' b (λ k lt. h k (omega arith))

compare_from_equal :
    (n i : ℕ) (a b : ℕ → ℕ) → ((k : ℕ) → k < i + n → a k ≡ b k) → compare_from n i a b ≡ 1
unfolding compare_from
compare_from_equal zero i a b h = refl
compare_from_equal (suc n) i a b h =
    ground (arith, h i (omega arith), compare_from_equal n (i + 1) a b (λ k lt. h k (omega arith)))

-- Names with the same five characters compare as equal.
pub name_compare_equal : (a b : ℕ → ℕ) → ((k : ℕ) → k < 5 → a k ≡ b k) → name_compare a b ≡ 1
unfolding name_compare
name_compare_equal a b h = compare_from_equal 5 0 a b (λ k lt. h k (omega arith))
