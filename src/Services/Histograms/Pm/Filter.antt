-- ===== src/Services/Histograms/Pm/Filter.antt =====
-- `PmHistograms::setBcIdFilter`.
use fit_fred.Common.{
  Fallible, ok, err, Bytes, codes, Option, none, some, ◌==◌, if◌then◌else◌, Bool, true, false,
}
use fit_fred.Common.Int.{ℤ, pos, negsuc}
use fit_fred.Platform.{Platform}
use fit_fred.Board.Defs.{at}
use fit_fred.WinCc.Request.Build.{write_electronic_request}
use fit_fred.Services.Exchange.{Alf}
use fit_fred.Services.Histograms.Pm.{
  PmHistograms, PmError, board_failed, filter_switch_failed, filter_value_failed, request_board,
}

-- What `setBcIdFilter` says when it succeeds.
pub data FilterAnswer : Type 0 where
  already_disabled disabled : FilterAnswer
  filtering : Bool → Bool → FilterAnswer

-- `getElectronicValueOptional().value_or(-1) == value`.
is_value : Option ℤ → ℤ → Bool
is_value none (pos n) = false
is_value none (negsuc n) = n == 0
is_value (some (pos m)) (pos n) = m == n
is_value (some (negsuc m)) (negsuc n) = m == n
is_value (some (pos m)) (negsuc n) = false
is_value (some (negsuc m)) (pos n) = false

abbrev filter_on : Bytes
filter_on = codes "HIST_BCID_FILTER_ON"

abbrev filter_value : Bytes
filter_value = codes "HIST_BCID_TO_FILTER"

module _ (platform : Platform) {W : Type 0} (alf : Alf W) where
  open platform use {Double}

  -- The second part of `setBcIdFilter`, once the filter is on.
  set_filter_value :
      W
      → PmHistograms Double
      → ℤ
      → Bool
      → Bool
      → W × PmHistograms Double × Fallible PmError FilterAnswer
  unfolding request_board
  set_filter_value w s value already_enabled already_set =
      let (after, next, success) =
        request_board platform alf w s (write_electronic_request filter_value value) true in
      if already_set then (w, s, ok (filtering already_enabled already_set)) else (
        after,
        next,
        if success then ok (filtering already_enabled already_set) else err filter_value_failed,
      )

  enable_filter :
      W
      → PmHistograms Double
      → ℤ
      → Bool
      → Bool
      → W × PmHistograms Double × Fallible PmError FilterAnswer
  unfolding request_board set_filter_value
  enable_filter w s value already_enabled already_set =
      let (after, next, success) =
        request_board platform alf w s (write_electronic_request filter_on (pos 1)) true in
      if already_enabled
      then set_filter_value w s value already_enabled already_set
      else if success
      then set_filter_value after next value already_enabled already_set
      else (after, next, err filter_switch_failed)

  disable_filter : W → PmHistograms Double → W × PmHistograms Double × Fallible PmError FilterAnswer
  unfolding request_board
  disable_filter w s =
      let (after, next, success) =
        request_board platform alf w s (write_electronic_request filter_on (pos 0)) true in
      (after, next, if success then ok disabled else err filter_switch_failed)

  unfoldable pub set_bc_id_filter :
      W → PmHistograms Double → ℤ → W × PmHistograms Double × Fallible PmError FilterAnswer
  unfolding enable_filter disable_filter is_value
  set_bc_id_filter w s (negsuc n) = elim (at s.handler.board filter_on) [
    | err e ↦ (w, s, err (board_failed e))
    | ok info ↦
        if is_value info.electronic_value (pos 0)
        then (w, s, ok already_disabled)
        else disable_filter w s
  ]
  set_bc_id_filter w s (pos n) = elim (at s.handler.board filter_on) [
    | err e ↦ (w, s, err (board_failed e))
    | ok on ↦ elim (at s.handler.board filter_value) [
      | err e ↦ (w, s, err (board_failed e))
      | ok value ↦
          enable_filter w s (pos n) (is_value on.electronic_value (pos 1))
            (is_value value.electronic_value (pos n))
    ]
  ]
