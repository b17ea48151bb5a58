-- ===== src/FitData/Devices/Addresses.antt =====
-- The registers of different boards.
use fit_fred.Common.{
  ℕ, ◌+◌, ◌≤◌, ◌<◌, ◌≡◌, refl, arith, get_elem?, Option, none, some, Option-cases, Bytes, ◌⊎◌, inl,
  inr, leb, ltb, ◌-◌, Bool-cases, ◌&&◌, if◌then◌else◌,
}
use fit_fred.Board.Defs.{ParameterInfo, at_address}
use fit_fred.FitData.Devices.{Side, side_a, side_c, board_address, address_space_size_pm, index_of}

-- The index is one digit.
index_of-lt : (name : Bytes) (index : ℕ) → index_of name ≡ some index → index < 10
unfolding index_of
index_of-lt name index h = elim (Option-cases (get_elem? name 3)) [
  | inl e ↦ let broken : ◌≡◌ {A = Option ℕ} none (some index) = rw (index_of, e) at h in cc
  | inr (c, e) ↦
      let found : (if leb 48 c && ltb c 58 then some (c - 48) else none) ≡ some index =
        rw (index_of, e) at h in
      elim (Bool-cases (leb 48 c && ltb c 58)) [
        | inl digit ↦
            let value : ◌≡◌ {A = Option ℕ} (some (c - 48)) (some index) = rw digit at found in
            let same : c - 48 ≡ index = cc in ground arith
        | inr other ↦ let broken : ◌≡◌ {A = Option ℕ} none (some index) = rw other at found in cc
      ]
]

-- Where the registers of a PM lie.
board_address_bounds :
    (side : Side) (index : ℕ)
    → index < 10
    → (address_space_size_pm ≤ board_address side index)
      × (board_address side index + address_space_size_pm ≤ 10752)
unfolding board_address
board_address_bounds side_a index h = (omega arith, omega arith)
board_address_bounds side_c index h = (omega arith, omega arith)

same_register :
    (s t : Side) (i j a b : ℕ)
    → i < 10
    → j < 10
    → a < address_space_size_pm
    → b < address_space_size_pm
    → board_address s i + a ≡ board_address t j + b
    → (s ≡ t) × (i ≡ j) × (a ≡ b)
unfolding board_address
same_register side_a side_a i j a b hi hj ha hb e = (refl, omega arith, omega arith)
same_register side_a side_c i j a b hi hj ha hb e = absurd (omega arith)
same_register side_c side_a i j a b hi hj ha hb e = absurd (omega arith)
same_register side_c side_c i j a b hi hj ha hb e = (refl, omega arith, omega arith)

-- The registers of the TCM, as docker/local-dcs/common-storage/registers/tcm.csv lists them: below
-- 0x200, from 0x2A00 to 0x2AFF and from 0x3000 to 0x5DEB.
abbrev pub IsTcmRegister : ℕ → Type 0
IsTcmRegister a = (a < 512) ⊎ ((10752 ≤ a) × (a ≤ 11007)) ⊎ ((12288 ≤ a) × (a ≤ 24043))

between : (a : ℕ) → 512 ≤ a → a < 10752 → ¬ IsTcmRegister a
between a low high (inl below) = omega arith
between a low high (inr (inl (above, _))) = omega arith
between a low high (inr (inr (above, _))) = omega arith

-- For parameters of the PM template whose addresses lie inside the 0x200 registers of a board, and
-- for the sides and the indices of boards whose names are accepted: two parameters of registered PM
-- boards have the same register only if side, index and address in the template are the same, and
-- no register of a PM is one of the TCM, which has those below 0x200, those from 0x2A00 to 0x2AFF and
-- those from 0x3000 to 0x5DEB.
pub board_address-disjoint :
    {Double : Type 0} (s t : Side) (i j : ℕ) (first second : Bytes) (p q : ParameterInfo Double)
    → index_of first ≡ some i
    → index_of second ≡ some j
    → p.base_address < 512
    → q.base_address < 512
    → (¬ IsTcmRegister (at_address p (board_address s i)).base_address)
      × ((at_address p (board_address s i)).base_address
            ≡ (at_address q (board_address t j)).base_address
          → (s ≡ t) × (i ≡ j) × (p.base_address ≡ q.base_address))
unfolding at_address
board_address-disjoint s t i j first second p q hi hj hp hq =
    let small = index_of-lt first i hi in
    let small' = index_of-lt second j hj in
    let bounds = board_address_bounds s i small in
    let bounds' = board_address_bounds t j small' in
    (
      between _ (omega arith) (omega arith),
      λ e. same_register s t i j p.base_address q.base_address small small' hp hq (omega arith),
    )
