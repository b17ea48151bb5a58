-- ===== src/Services/Configurations/Tcm.antt =====
-- mapi/src/services/configurations/TcmConfigurations.cpp: a stored configuration is applied to the
-- TCM, the delays first.
pub mod Applied
use fit_fred.Common.{
  Fallible, ok, err, ◌>>=◌, Bytes, codes, [], ◌∷◌, ◌++◌, Option, none, some, List, map, Bool, true,
  false, is_empty, not, if◌then◌else◌, bytes_eq,
}
use fit_fred.Common.Int.{ℤ, pos}
use fit_fred.Platform.{Platform}
use fit_fred.Board.Defs as Board
use fit_fred.Database.Columns.{DatabaseError}
use fit_fred.Database.Rows.{ConfigurationValue}
use fit_fred.Handler.Defs.{Error, Handler}
use fit_fred.Handler.Receive.{Outcome}
use fit_fred.Services.Exchange.{Alf, process_sequence_through_handler}
use fit_fred.Services.DelayChange.{DelayChange, from_electronic_values}
use fit_fred.Services.DelayChange.Apply.{apply, clear_restarted}
use fit_fred.Services.Configurations.Flag.{set_environment}
use fit_fred.Services.Configurations.{ConfigurationInfo, parse_configuration_info}

-- The response: what `getContents` makes of an outcome, the reports first.
pub data Entry (Double : Type 0) : Type 0 where
  reported : Bytes × Error → Entry Double
  answered : Bytes × Double → Entry Double

-- What is published. A failure of the data says whether the configuration was applied partially.
pub data Publication (Double : Type 0) : Type 0 where
  applied : List (Entry Double) → Publication Double
  delay_change_failed : List (Entry Double) → Publication Double
  data_failed : Bool → List (Entry Double) → Publication Double

-- What a step leaves behind: the response to go on with, a failure that was published, or an
-- exception.
pub data Progress (Double : Type 0) : Type 0 where
  go_on : List (Entry Double) → Progress Double
  published : Publication Double → Progress Double
  board_thrown : Board.Error → Progress Double
  database_thrown : DatabaseError → Progress Double

module _ {Double : Type 0} where
  unfoldable pub contents : Outcome Double → List (Entry Double)
  contents out = map reported out.report ++ map answered out.response

  judge_delays : List (Entry Double) → List (Bytes × Error) → Progress Double
  judge_delays response [] = go_on response
  judge_delays response (e ∷ es) = published (delay_change_failed response)

  -- The response is the one with the new contents already where it is tested.
  judge_data : List (Entry Double) → List (Bytes × Error) → Progress Double
  judge_data response [] = go_on response
  judge_data response (e ∷ es) = published (data_failed (not (is_empty response)) response)

module _ (platform : Platform) {W : Type 0} (alf : Alf W) where
  open platform use {Double, from_int64}

  delay_step : W → Handler Double → Option DelayChange → W × Handler Double × Progress Double
  unfolding apply judge_delays contents
  delay_step w h none = (w, h, go_on [])
  delay_step w h (some change) =
      let (after, next, out) = apply platform alf w h change false in
      (after, next, judge_delays (contents out) out.report)

  unfoldable pub handle_delays :
      W → Handler Double → ConfigurationInfo → W × Handler Double × Progress Double
  unfolding delay_step
  handle_delays w h info =
      elim (from_electronic_values h.board info.delay_a_value info.delay_c_value) [
        | err e ↦ (w, h, board_thrown e)
        | ok change ↦ delay_step w h change
      ]

  unfoldable pub handle_data :
      W
      → Handler Double
      → ConfigurationInfo
      → List (Entry Double)
      → W × Handler Double × Progress Double
  unfolding judge_data contents
  handle_data w h info response =
      let (after, next, out) = process_sequence_through_handler platform alf w h info.req true in
      (after, next, judge_data (response ++ contents out) out.report)

  -- `handleResetErrors` and the answer, unless the data failed.
  behind_data : W → Handler Double → Progress Double → W × Handler Double × Progress Double
  behind_data w h (go_on response) =
      let (end, last, _) =
        process_sequence_through_handler platform alf w h clear_restarted false in
      (end, last, published (applied response))
  behind_data w h other = (w, h, other)

  behind_delays :
      W
      → Handler Double
      → ConfigurationInfo
      → Progress Double
      → W × Handler Double × Progress Double
  unfolding handle_data behind_data
  behind_delays w h info (go_on response) =
      let (after, next, progress) = handle_data w h info response in behind_data after next progress
  behind_delays w h info other = (w, h, other)

  unfoldable pub apply_configuration :
      W → Handler Double → ConfigurationInfo → W × Handler Double × Progress Double
  unfolding handle_delays behind_delays
  apply_configuration w h info =
      let (after, next, progress) = handle_delays w h info in behind_delays after next info progress

  -- From the request on: the variable that is named after the service is set, and the rows of the
  -- configuration are read.
  unfoldable pub process_request :
      Bytes
      → W
      → Handler Double
      → Bytes
      → Fallible DatabaseError (List ConfigurationValue)
      → W × Handler Double × Progress Double
  unfolding apply_configuration
  process_request service w h request rows =
      elim (set_environment h.board service (from_int64 (pos 1))) [
        | err e ↦ (w, h, board_thrown e)
        | ok board ↦ elim rows [
          | err e ↦ (w, record h { board = board }, database_thrown e)
          | ok values ↦
              apply_configuration w (record h { board = board })
                (parse_configuration_info request values)
        ]
      ]
