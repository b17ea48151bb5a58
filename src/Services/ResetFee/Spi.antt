-- ===== src/Services/ResetFee/Spi.antt =====
-- `ResetFEE::updatePmSpiMask`.
use fit_fred.Common.{
  ℕ, ◌+◌, ◌-◌, ◌^◌, Fallible, ok, err, ◌>>=◌, Bytes, codes, [], ◌∷◌, ◌++◌, Option, none, some, List,
  ◌==◌, if◌then◌else◌, Bool, true, false,
}
use fit_fred.Common.Int.{ℤ, pos, negsuc, to_u32}
use fit_fred.Platform.{Platform}
use fit_fred.Board.Defs as Board
use fit_fred.Board.Defs.{at, get_electronic_value}
use fit_fred.Handler.Defs.{Handler}
use fit_fred.WinCc.Request.Build.{read_request, write_request, append_to_request}
use fit_fred.FitData.Devices.{side_a, side_c}
use fit_fred.Services.Exchange.{Alf}
use fit_fred.Services.Chain.{Report, send}
use fit_fred.Services.ResetFee.Masks.{Masks, mask_loop, no_flags, set_flag, link_mask}
use fit_fred.Services.ResetFee.Identity.{Identity, identity}

abbrev pub spi_mask_name : Bytes
spi_mask_name = codes "BITMASK_PM_LINKS_SPI_ENABLED"

abbrev pub channel_mask_a_name : Bytes
channel_mask_a_name = codes "SIDE_A_CHANNEL_MASK"

abbrev pub channel_mask_c_name : Bytes
channel_mask_c_name = codes "SIDE_C_CHANNEL_MASK"

abbrev supply_voltage : Bytes
supply_voltage = codes "1_8V_POWER"

-- What a call gives: the world, the boards, and the reports or an exception.
abbrev pub Result : Type 0 → Type 0 → Type 0
Result W Double = W × Handler Double × List (Handler Double) × Fallible Board.Error Report

-- `pmIdx + baseIdx`.
unfoldable pub link_index : Identity → ℕ
link_index id = elim id.side [
  | none ↦ id.number
  | some side_a ↦ id.number
  | some side_c ↦ id.number + 10
]

-- A PM's board sees the parameters of the TCM's board as they are now.
abbrev pub with_parent : {Double : Type 0} → Handler Double → Handler Double → Handler Double
with_parent tcm pm = record pm { board = record pm.board { parent = some tcm.board.parameters } }

-- `getElectronicValueOptional().value_or(0)` as a word.
abbrev pub value_or_zero : Option ℤ → ℕ
value_or_zero none = 0
value_or_zero (some v) = to_u32 v

-- `getElectronicValue() == 0xFFFFFFFF`.
abbrev is_all_ones : ℤ → Bool
is_all_ones (pos n) = n == 2 ^ 32 - 1
is_all_ones (negsuc n) = false

module _ {Double : Type 0} where
  -- `seqMaskPMLink`.
  unfoldable pub mask_pm_link : Board.Board Double → ℕ → Bool → Fallible Board.Error Bytes
  unfolding write_request link_mask
  mask_pm_link board idx mask = do
    info ← at board spi_mask_name
    ok (write_request info.name (link_mask (value_or_zero info.electronic_value) idx mask))

  electronic_word : Board.Board Double → Bytes → Fallible Board.Error ℕ
  electronic_word board name = do
    info ← at board name
    value ← get_electronic_value info
    ok (to_u32 value)

  -- The masks before the loop.
  start_masks : Bool → Board.Board Double → Fallible Board.Error Masks
  unfolding electronic_word
  start_masks initialized board = do
    spi ← electronic_word board spi_mask_name
    a ← if initialized then electronic_word board channel_mask_a_name else ok 0
    c ← if initialized then electronic_word board channel_mask_c_name else ok 0
    ok (record { spi_mask = spi; channel_mask_a = a; channel_mask_c = c })

-- The requests that read and that write the three masks.
unfoldable pub read_masks : Bytes
unfolding append_to_request read_request
read_masks =
    append_to_request
      (append_to_request (append_to_request [] (read_request spi_mask_name))
        (read_request channel_mask_a_name))
      (read_request channel_mask_c_name)

unfoldable pub write_masks : Masks → Bytes
unfolding append_to_request write_request
write_masks m =
    append_to_request
      (append_to_request (append_to_request [] (write_request spi_mask_name m.spi_mask))
        (write_request channel_mask_a_name m.channel_mask_a))
      (write_request channel_mask_c_name m.channel_mask_c)

module _ (platform : Platform) {W : Type 0} (alf : Alf W) where
  open platform use {Double}

  -- The link is masked again; what comes of it is not looked at.
  unmask : W → Handler Double → List (Handler Double) → ℕ → Result W Double
  unfolding mask_pm_link send
  unmask w tcm pms idx = elim (mask_pm_link tcm.board idx false) [
    | err e ↦ (w, tcm, pms, err e)
    | ok request ↦
        let (after, next, report) = send platform alf w tcm (request, true) in
        (after, next, pms, ok [])
  ]

  -- What is done once the PM has answered.
  judge : W → Handler Double → Handler Double → ℕ → Report → Result W Double
  unfolding unmask
  judge w tcm pm idx (e ∷ es) = unmask w tcm (pm ∷ []) idx
  judge w tcm pm idx [] = elim (at pm.board supply_voltage) [
    | err e ↦ (w, tcm, pm ∷ [], err e)
    | ok info ↦ elim (get_electronic_value info) [
      | err e ↦ (w, tcm, pm ∷ [], err e)
      | ok value ↦
          if is_all_ones value then unmask w tcm (pm ∷ []) idx else (w, tcm, pm ∷ [], ok [])
    ]
  ]

  -- The PM is asked, once its link was enabled.
  ask_pm : W → Handler Double → Handler Double → ℕ → Report → Result W Double
  unfolding judge send read_request
  ask_pm w tcm pm idx (e ∷ es) = (w, tcm, pm ∷ [], ok (e ∷ es))
  ask_pm w tcm pm idx [] =
      let (after, next, report) =
        send platform alf w (with_parent tcm pm) (read_request supply_voltage, true) in
      judge after tcm next idx report

  -- One round of the loop over the PMs.
  unfoldable pub probe_pm : W → Handler Double → Handler Double → Result W Double
  unfolding mask_pm_link send ask_pm link_index identity
  probe_pm w tcm pm =
      let idx = link_index (identity pm.board.name) in
      elim (mask_pm_link tcm.board idx true) [
        | err e ↦ (w, tcm, pm ∷ [], err e)
        | ok request ↦
            let (after, next, report) = send platform alf w tcm (request, true) in
            ask_pm after next pm idx report
      ]

  -- The rest of the loop, unless there was an error.
  then_rest : Result W Double → List (Handler Double) → Result W Double → Result W Double
  then_rest (w, tcm, pm, ok []) pms (w', tcm', pms', outcome) = (w', tcm', pm ++ pms', outcome)
  then_rest (w, tcm, pm, ok (e ∷ es)) pms rest = (w, tcm, pm ++ pms, ok (e ∷ es))
  then_rest (w, tcm, pm, err e) pms rest = (w, tcm, pm ++ pms, err e)

  unfoldable pub probe_pms : W → Handler Double → List (Handler Double) → Result W Double
  unfolding probe_pm then_rest
  probe_pms w tcm [] = (w, tcm, [], ok [])
  probe_pms w tcm (pm ∷ pms) =
      let first = probe_pm w tcm pm in then_rest first pms (probe_pms first.0 first.1 pms)

-- `isConnected` after the loop over the PMs.
unfoldable pub connected_flags : {Double : Type 0} → List (Handler Double) → List Bool
unfolding link_index identity
connected_flags [] = no_flags 20
connected_flags (pm ∷ pms) = set_flag (link_index (identity pm.board.name)) (connected_flags pms)

module _ (platform : Platform) {W : Type 0} (alf : Alf W) where
  open platform use {Double}

  -- The masks are computed and written.
  write_new_masks : Bool → Result W Double → Result W Double
  unfolding start_masks mask_loop write_masks send connected_flags
  write_new_masks initialized (w, tcm, pms, err e) = (w, tcm, pms, err e)
  write_new_masks initialized (w, tcm, pms, ok (e ∷ es)) = (w, tcm, pms, ok (e ∷ es))
  write_new_masks initialized (w, tcm, pms, ok []) = elim (start_masks initialized tcm.board) [
    | err e ↦ (w, tcm, pms, err e)
    | ok masks ↦
        let result = mask_loop initialized 0 (connected_flags pms) masks in
        let (after, next, report) = send platform alf w tcm (write_masks result, true) in
        (after, next, pms, ok report)
  ]

  probe_and_write : Bool → W → Handler Double → List (Handler Double) → Report → Result W Double
  unfolding write_new_masks probe_pms
  probe_and_write initialized w tcm pms (e ∷ es) = (w, tcm, pms, ok (e ∷ es))
  probe_and_write initialized w tcm pms [] =
      write_new_masks initialized (probe_pms platform alf w tcm pms)

  unfoldable pub update_pm_spi_mask :
      Bool → W → Handler Double → List (Handler Double) → Result W Double
  unfolding probe_and_write send read_masks
  update_pm_spi_mask initialized w tcm pms = elim (at tcm.board spi_mask_name) [
    | err e ↦ (w, tcm, pms, err e)
    | ok _ ↦ elim (at tcm.board channel_mask_a_name) [
      | err e ↦ (w, tcm, pms, err e)
      | ok _ ↦ elim (at tcm.board channel_mask_c_name) [
        | err e ↦ (w, tcm, pms, err e)
        | ok _ ↦
            let (after, next, report) = send platform alf w tcm (read_masks, true) in
            probe_and_write initialized after next pms report
      ]
    ]
  ]
