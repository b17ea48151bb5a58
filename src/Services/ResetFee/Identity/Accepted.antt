-- ===== src/Services/ResetFee/Identity/Accepted.antt =====
-- The place of a PM, as FitData and as the board read it off the name.
use fit_fred.Common.{
  ℕ, ◌+◌, ◌-◌, ◌%◌, ◌^◌, ◌<◌, ◌≡◌, refl, arith, Bytes, codes, [], ◌∷◌, some, Bool, true, false, ok,
  leb, ltb, ◌&&◌, ◌==◌,
}
use fit_fred.Board.Defs.{pm}
use fit_fred.FitData.Devices.{Side, side_a, side_c, device_info, index_of}
use fit_fred.Services.ResetFee.Identity.{identity, contains, has_byte, last_byte}

abbrev letter : Side → ℕ
letter side_a = 65
letter side_c = 67

-- `PMA0` to `PMC9`.
abbrev pm_name : Side → ℕ → Bytes
pm_name side index = 80 ∷ 77 ∷ letter side ∷ (48 + index) ∷ []

-- For the names `PMA0` to `PMA9` and `PMC0` to `PMC9`: FitData accepts a PM of that name at the
-- side and with the index that the name says, and the identity of the board that gets the name is
-- that of a PM with the same side and number.
identity-device_info :
    (side : Side) (index : ℕ) (connected : Bool)
    → index < 10
    → let name = pm_name side index in
      (device_info (record { board_name = name; board_type = codes "PM"; is_connected = connected })
        ≡ ok (record {
          name = name;
          type = pm;
          placement = some (side, index);
          is_connected = connected;
        }))
      × (identity name ≡ record { type = pm; side = some side; number = index })
unfolding device_info index_of identity contains has_byte last_byte
identity-device_info side_a index connected h =
    let digit : (leb 48 (48 + index) && ltb (48 + index) 58) ≡ true = ground arith in
    let value : 48 + index - 48 ≡ index = omega arith in
    let no_c : (48 + index == 67) ≡ false = ground arith in
    let no_t : (48 + index == 84) ≡ false = ground arith in
    let number : (48 + index + 256 - 48) % 2 ^ 8 ≡ index = omega arith in
    (
      rw (device_info, index_of, digit, value, no_c) refl,
      rw (identity, contains, has_byte, no_t, number) refl,
    )
identity-device_info side_c index connected h =
    let digit : (leb 48 (48 + index) && ltb (48 + index) 58) ≡ true = ground arith in
    let value : 48 + index - 48 ≡ index = omega arith in
    let no_t : (48 + index == 84) ≡ false = ground arith in
    let no_a : (48 + index == 65) ≡ false = ground arith in
    let number : (48 + index + 256 - 48) % 2 ^ 8 ≡ index = omega arith in
    (
      rw (device_info, index_of, digit, value) refl,
      rw (identity, contains, has_byte, no_t, no_a, number) refl,
    )
