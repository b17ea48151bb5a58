-- ===== src/Tests/Setup.antt =====
-- Examples of the theorems on what is built from the database.
use fit_fred.Common.{
  ℕ, ◌≡◌, ◌↔◌, All, refl, arith, ok, Bytes, codes, none, some, [], ◌∷◌, List, true, false,
}
use fit_fred.Common.Int.{ℤ, pos, negsuc}
use fit_fred.Board.Defs.{at_address}
use fit_fred.Board.Codes.{IsDescribed}
use fit_fred.Board.Environment.{
  Setting, emplace_setting, find_setting, update_variable, values_of, assign_value, get_variable,
}
use fit_fred.Database.Equations.{parse_equation}
use fit_fred.Database.Equations.RoundTrip.{text, variable, written, parse_equation-written}
use fit_fred.Database.Rows.{ParameterRow, EnvironmentRow, HistogramRow}
use fit_fred.FitData.Parameters.{parse_parameter}
use fit_fred.FitData.Parameters.Described.{parse_parameter-IsDescribed}
use fit_fred.FitData.Devices.{side_a, side_c, board_address, index_of}
use fit_fred.FitData.Devices.Addresses.{IsTcmRegister, board_address-disjoint}
use fit_fred.FitData.Environment.{
  check_environment, parse_env_variables, add_variables, update_variables, required_variables,
}
use fit_fred.FitData.Environment.Checked.{IsNamed, must_exist, check_environment-parsed}
use fit_fred.FitData.Histograms.{
  Histogram, positive, negative, fetch_pm_histogram_structure, add_rows, add_row, set_half,
  all_complete, is_complete,
}
use fit_fred.Services.Histograms.Blocks.{BinBlock, fetch_channel_blocks, replicate, channel_count}
use fit_fred.Services.Histograms.Blocks.Complete.{fetch_channel_blocks-fetched}
use fit_fred.Tests.Fixtures.{platform, empty_equation, signed_byte, unsigned_byte}

parse_equation-written_example :
    parse_equation (written (text (codes "2*") ∷ variable (codes "TDC") ∷ []))
    ≡ ok (record { equation = codes "2*TDC"; variables = codes "TDC" ∷ [] })
parse_equation-written_example =
    parse_equation-written (text (codes "2*") ∷ variable (codes "TDC") ∷ []) (
      (
        ((λ e. absurd (omega arith)), λ e. absurd (omega arith)),
        (((λ e. absurd (omega arith)), λ e. absurd (omega arith)), tt),
      ),
      (
        (
          ((λ e. absurd (omega arith)), λ e. absurd (omega arith)),
          (
            ((λ e. absurd (omega arith)), λ e. absurd (omega arith)),
            (((λ e. absurd (omega arith)), λ e. absurd (omega arith)), tt),
          ),
        ),
        tt,
      ),
    )

-- A signed field of the bits 4 to 11, without limits.
abbrev delay_row : ParameterRow
delay_row = record {
  board_type = codes "TCM";
  name = codes "DELAY";
  base_address = 16;
  start_bit = 4;
  end_bit = 11;
  reg_block_size = 1;
  min_value = none;
  max_value = none;
  is_signed = true;
  is_fifo = false;
  is_read_only = false;
  eq_electronic_to_physic = empty_equation;
  eq_physic_to_electronic = empty_equation;
  refresh_type = some (codes "SYNC");
}

parse_parameter-IsDescribed_example : IsDescribed (parse_parameter {Double = ℤ} delay_row)
parse_parameter-IsDescribed_example =
    parse_parameter-IsDescribed delay_row (omega arith) (omega arith) tt tt

board_address-disjoint_example :
    (¬ IsTcmRegister (at_address signed_byte (board_address side_a 1)).base_address)
    × ((at_address signed_byte (board_address side_a 1)).base_address
          ≡ (at_address unsigned_byte (board_address side_c 9)).base_address
        → (side_a ≡ side_c)
          × (◌≡◌ {A = ℕ} 1 9)
          × (signed_byte.base_address ≡ unsigned_byte.base_address))
unfolding index_of
board_address-disjoint_example =
    board_address-disjoint side_a side_c 1 9 (codes "PMA1") (codes "PMC9") signed_byte unsigned_byte
      refl refl (omega arith) (omega arith)

-- A row without an equation for each of some names.
abbrev rows_of : List Bytes → List EnvironmentRow
rows_of [] = []
rows_of (name ∷ names) = record { name = name; equation = empty_equation } ∷ rows_of names

abbrev settings_of : List Bytes → List (Setting ℤ)
settings_of [] = []
settings_of (name ∷ names) =
    record { name = name; value = pos 0; equation = empty_equation } ∷ settings_of names

parsed_settings :
    parse_env_variables platform (pos 7) (rows_of required_variables)
    ≡ ok (settings_of required_variables)
unfolding parse_env_variables add_variables update_variables update_variable emplace_setting
    find_setting values_of assign_value get_variable
parsed_settings = refl

check_environment-parsed_example :
    (check_environment (settings_of required_variables) ≡ true)
    ↔ All (IsNamed (rows_of required_variables)) must_exist
check_environment-parsed_example =
    check_environment-parsed platform (pos 7) (rows_of required_variables)
      (settings_of required_variables) parsed_settings

-- The two halves of a histogram.
abbrev half : ℤ → Bytes → HistogramRow
half start_bin direction = record {
  histogram_name = codes "TIME";
  base_address = 0;
  reg_block_size = 2;
  start_bin = start_bin;
  bins_per_register = 2;
  direction = direction;
}

abbrev halves : List HistogramRow
halves = half (negsuc 3) (codes "N") ∷ half (pos 0) (codes "P") ∷ []

abbrev time_histograms : List Histogram
time_histograms =
    record {
      name = codes "TIME";
      positive_bins = some (record {
        base_address = 0;
        reg_block_size = 2;
        start_bin = pos 0;
        bins_per_register = 2;
        direction = positive;
      });
      negative_bins = some (record {
        base_address = 0;
        reg_block_size = 2;
        start_bin = negsuc 3;
        bins_per_register = 2;
        direction = negative;
      });
    }
    ∷ []

accepted : fetch_pm_histogram_structure halves ≡ some time_histograms
unfolding fetch_pm_histogram_structure add_rows add_row set_half all_complete is_complete
accepted = refl

fetch_channel_blocks-fetched_example :
    (blocks : List BinBlock) × (fetch_channel_blocks time_histograms
      ≡ some (replicate channel_count blocks))
fetch_channel_blocks-fetched_example = fetch_channel_blocks-fetched halves time_histograms accepted
