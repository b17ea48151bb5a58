-- ===== src/Services/CounterRates/Direct.antt =====
-- The exchanges of CounterRates with its board: the load of the FIFO, the counters that are read
-- directly, and the reset.
use fit_fred.Common.{
  ℕ, Fallible, ok, err, ◌>>=◌, Bytes, codes, [], ◌∷◌, ◌++◌, Option, none, some, List, true, false,
}
use fit_fred.Common.Int.{to_u32}
use fit_fred.Platform.{Platform}
use fit_fred.Board.Defs as Board
use fit_fred.Board.Defs.{at, get_electronic_value}
use fit_fred.Handler.Defs.{Handler}
use fit_fred.Services.CounterRates.{Counters, Fault, reset_counters}
use fit_fred.Services.Exchange.{Alf, process_sequence_through_handler}

-- Why a reset fails.
pub data ResetError : Type 0 where
  uncaught : Board.Error → ResetError
  direct_readout_failed reset_flag_failed : ResetError
  faulty : Fault → ResetError

-- A read request for each name.
read_requests : List Bytes → Bytes
read_requests [] = []
read_requests (name ∷ names) = name ++ (codes ",READ\n" ++ read_requests names)

-- `getElectronicValue` of each name, as a `uint32_t`.
electronic_values :
    {Double : Type 0} → Board.Board Double → List Bytes → Fallible Board.Error (List ℕ)
electronic_values board [] = ok []
electronic_values board (name ∷ names) = do
  info ← at board name
  value ← get_electronic_value info
  values ← electronic_values board names
  ok (to_u32 value ∷ values)

-- `getElectronicValueOptional` of one name.
electronic_value_optional :
    {Double : Type 0} → Board.Board Double → Bytes → Fallible Board.Error (Option ℕ)
electronic_value_optional board name = do
  info ← at board name
  ok (elim info.electronic_value [ none ↦ none | some value ↦ some (to_u32 value) ])

module _ (platform : Platform) {W : Type 0} (alf : Alf W) where
  open platform use {Double}

  pub get_fifo_load :
      W → Handler Double → Bytes → W × Handler Double × Fallible Board.Error (Option ℕ)
  unfolding electronic_value_optional
  get_fifo_load w h name =
      let (after, next, out) =
        process_sequence_through_handler platform alf w h (name ++ codes ",READ") true in
      elim out.report [
        | [] ↦ (after, next, electronic_value_optional next.board name)
        | _ ∷ _ ↦ (after, next, ok none)
      ]

  pub read_directly :
      W → Handler Double → List Bytes → W × Handler Double × Fallible Board.Error (List ℕ)
  unfolding read_requests electronic_values
  read_directly w h names =
      let (after, next, out) =
        process_sequence_through_handler platform alf w h (read_requests names) true in
      elim out.report [
        | [] ↦ (after, next, electronic_values next.board names)
        | _ ∷ _ ↦ (after, next, ok [])
      ]

  -- The write of the reset flag, and the counters that are kept.
  reset_flag :
      W
      → Counters
      → Handler Double
      → Bytes
      → List ℕ
      → W × Handler Double × Fallible ResetError Counters
  unfolding reset_counters
  reset_flag w c h flag direct =
      let (after, next, out) =
        process_sequence_through_handler platform alf w h (flag ++ codes ",WRITE,1") false in
      elim out.report [
        | _ ∷ _ ↦ (after, next, err reset_flag_failed)
        | [] ↦ (
          after,
          next,
          elim (reset_counters c direct) [ ok adjusted ↦ ok adjusted | err e ↦ err (faulty e) ],
        )
      ]

  pub reset_board_counters :
      W
      → Counters
      → Handler Double
      → List Bytes
      → Bytes
      → W × Handler Double × Fallible ResetError Counters
  unfolding read_directly reset_flag
  reset_board_counters w c h names flag =
      let (after, next, result) = read_directly w h names in
      elim result [
        | err e ↦ (after, next, err (uncaught e))
        | ok [] ↦ (after, next, err direct_readout_failed)
        | ok (first ∷ direct) ↦ reset_flag after c next flag (first ∷ direct)
      ]
