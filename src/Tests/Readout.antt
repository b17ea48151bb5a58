-- ===== src/Tests/Readout.antt =====
-- Examples of the theorems on the histograms, the chains of requests and the reset.
use fit_fred.Common.{
  ℕ, suc, ◌+◌, ◌-◌, ◌^◌, ◌≡◌, refl, arith, Bytes, codes, none, [], ◌∷◌, some, List, All, Bool, true,
  false, ◌⊎◌, ltb, if◌then◌else◌, ◌&&◌, not,
}
use fit_fred.Common.Int.{ℤ, pos, negsuc}
use fit_fred.Bits.Fields.{bit}
use fit_fred.Database.Rows.{ConfigurationValue}
use fit_fred.Services.Exchange.{Alf}
use fit_fred.Services.Chain.{Report}
use fit_fred.Services.Configurations.{parse_configuration_info}
use fit_fred.Services.Configurations.Split.{
  written_lines, last_value, parse_configuration_info-split,
}
use fit_fred.Services.DelayChange.{delay_a, delay_c}
use fit_fred.Services.Histograms.Blocks.{BinBlock}
use fit_fred.Services.Histograms.Operations.{select_histograms, elem}
use fit_fred.Services.Histograms.Operations.Covered.{
  registers, channel_registers, select_histograms-covered,
}
use fit_fred.Services.Histograms.Pm.{PmHistograms, read_and_store}
use fit_fred.Services.Histograms.Pm.Sized.{IsSized, layout, read_and_store-IsSized}
use fit_fred.Services.Histograms.Readout.{store_readout_data}
use fit_fred.Services.Histograms.Readout.Stored.{store_readout_data-run}
use fit_fred.Services.Histograms.Tcm.{TcmHistogram}
use fit_fred.Services.Requests.Wake.{WakeEnd, ServiceHandlers, looping, wake, wake-start}
use fit_fred.Services.Resets.{success, failure, reset_errors}
use fit_fred.Services.Resets.Outcomes.{IsReset, reset_errors-outcome}
use fit_fred.Services.ResetFee.Masks.{mask_loop}
use fit_fred.Services.ResetFee.Masks.Bits.{flag}
use fit_fred.Services.ResetFee.Masks.Loop.{mask_loop-bits}
use fit_fred.Services.ResetFee.Run.{Fee, apply_reset_fee}
use fit_fred.Services.ResetFee.Run.Order.{ResetEnd, apply_reset_fee-outcome}
use fit_fred.Tests.Fixtures.{platform, board, unsigned_byte, handler}

-- An ALF that counts the sequences and says that each succeeded.
abbrev counting : Alf ℕ
counting n sequence = (suc n, codes "success\n")

abbrev no_configuration : Bytes → List ConfigurationValue
no_configuration name = []

-- Two blocks of two registers that follow on each other, and one behind a gap.
abbrev block : Bytes → ℕ → BinBlock
block name base = record {
  histogram_name = name;
  base_address = base;
  reg_block_size = 2;
  start_bin = pos 0;
  bins_per_register = 2;
  is_negative_direction = false;
  readout_enabled = true;
  words = 0 ∷ 0 ∷ [];
}

abbrev one_channel : List BinBlock
one_channel = block (codes "TIME") 0 ∷ block (codes "ADC") 2 ∷ block (codes "TIME") 6 ∷ []

select_histograms-covered_example :
    registers (select_histograms 16 (codes "TIME" ∷ []) (one_channel ∷ one_channel ∷ [])).1
    ≡ channel_registers
        (λ b. elem b.histogram_name (codes "TIME" ∷ []))
        16
        0
        (one_channel ∷ one_channel ∷ [])
select_histograms-covered_example =
    select_histograms-covered 16 (codes "TIME" ∷ []) (one_channel ∷ one_channel ∷ [])
      (
        (omega arith, (omega arith, (omega arith, tt))),
        ((omega arith, (omega arith, (omega arith, tt))), tt),
      )
      (omega arith)

store_readout_data-run_example :
    store_readout_data 16 18 (1 ∷ 2 ∷ 3 ∷ 4 ∷ []) (
      one_channel
      ∷ (block (codes "TIME") 0
          ∷ block (codes "ADC") 2
          ∷ block (codes "AMP") 4
          ∷ block (codes "TIME") 6
          ∷ [])
      ∷ [])
    ≡ (
      one_channel
          ∷ (block (codes "TIME") 0
              ∷ record (block (codes "ADC") 2) { words = 1 ∷ 2 ∷ [] }
              ∷ record (block (codes "AMP") 4) { words = 3 ∷ 4 ∷ [] }
              ∷ block (codes "TIME") 6
              ∷ [])
          ∷ [],
      true,
    )
store_readout_data-run_example =
    store_readout_data-run 16 2 (one_channel ∷ []) [] (block (codes "TIME") 0 ∷ [])
      (block (codes "TIME") 6 ∷ []) (block (codes "ADC") 2) (1 ∷ 2 ∷ [])
      ((block (codes "AMP") 4, 3 ∷ 4 ∷ []) ∷ []) (omega arith) ((omega arith, omega arith), tt)
      (refl, refl, refl, omega arith, omega arith, (refl, refl, refl, omega arith, omega arith, tt))

abbrev pm_state : PmHistograms ℤ
pm_state = record {
  channel_base = 16;
  channels = one_channel ∷ one_channel ∷ [];
  operations = record { base_address = 0; regblock_size = 4 } ∷ [];
  fifo_address = 1024;
  handler = handler;
}

read_and_store-IsSized_example :
    let next = (read_and_store platform counting 0 pm_state).1 in
    All (All IsSized) next.channels
    × (layout next.channels ≡ layout pm_state.channels)
    × (next.operations ≡ pm_state.operations)
read_and_store-IsSized_example =
    read_and_store-IsSized platform counting 0 pm_state
      ((refl, (refl, (refl, tt))), ((refl, (refl, (refl, tt))), tt))

abbrev counters : ℕ → TcmHistogram
counters base = record { name = codes "01"; base_address = base; bin_count = 4; words = [] }

reset_errors-outcome_example :
    let result = reset_errors platform counting 0 handler (handler ∷ []) in
    ((result.3 ≡ success ∷ [])
      × IsReset platform counting 0 handler (handler ∷ []) result.0 result.1 result.2)
    ⊎ ((report : Report) × (result.3 ≡ failure report ∷ []))
reset_errors-outcome_example = reset_errors-outcome platform counting 0 handler (handler ∷ [])

abbrev night : List ConfigurationValue
night =
    record { name = codes "LEVEL"; value = pos 3 }
    ∷ record { name = codes "DELAY_A"; value = negsuc 4 }
    ∷ []

parse_configuration_info-split_example :
    let info = parse_configuration_info (codes "NIGHT") night in
    (info.name ≡ codes "NIGHT")
    × (info.req ≡ written_lines night)
    × (info.delay_a_value ≡ last_value delay_a none night)
    × (info.delay_c_value ≡ last_value delay_c none night)
parse_configuration_info-split_example = parse_configuration_info-split (codes "NIGHT") night

-- The links 0 and 11 are there.
abbrev links : List Bool
links =
    true ∷ false ∷ false ∷ false ∷ false ∷ false ∷ false ∷ false ∷ false ∷ false ∷ false ∷ true
    ∷ false ∷ false ∷ false ∷ false ∷ false ∷ false ∷ false ∷ false ∷ []

mask_loop-bits_example :
    let result =
      mask_loop false 0 links
        (record { spi_mask = 2 ^ 22 - 1; channel_mask_a = 0; channel_mask_c = 0 }) in
    (bit 1 result.spi_mask ≡ (if ltb 1 20 && not (flag links 1) then 0 else bit 1 (2 ^ 22 - 1)))
    × (bit 1 result.channel_mask_a ≡ (if ltb 1 10 then bit 1 result.spi_mask else 0))
    × (bit 1 result.channel_mask_c ≡ (if ltb 1 10 then bit (1 + 10) result.spi_mask else 0))
mask_loop-bits_example = mask_loop-bits links (2 ^ 22 - 1) 1 refl (omega arith)

abbrev service : Fee ℕ ℤ
service = record {
  world = 0;
  tcm = handler;
  pms = handler ∷ [];
  enforce_default = false;
  force_local_clock = true;
  initialized = true;
}

-- The TCM with its update rate, 1 s.
abbrev rated_service : Fee ℕ ℤ
rated_service = record service {
  tcm = record handler {
    board = record board {
      parameters =
          record unsigned_byte {
            name = codes "COUNTER_READ_INTERVAL";
            electronic_value = some (pos 4);
          }
          ∷ [];
    };
  };
}

apply_reset_fee-outcome_example :
    ResetEnd platform counting rated_service
      (apply_reset_fee platform counting no_configuration rated_service)
apply_reset_fee-outcome_example =
    apply_reset_fee-outcome platform counting no_configuration rated_service

abbrev no_handlers : ServiceHandlers Bytes ℕ
no_handlers prefix = none

wake-start_example : WakeEnd (looping no_handlers) (codes "RESET" ∷ []) (codes "STOP" ∷ []) (
    wake
      (looping no_handlers)
      (record { stopped = true; inner = 0 })
      (codes "STOP" ∷ codes "START" ∷ codes "RESET" ∷ []))
wake-start_example =
    wake-start no_handlers (codes "STOP" ∷ []) (codes "RESET" ∷ [])
      (record { stopped = true; inner = 0 })
