-- ===== src/FitData/Histograms.antt =====
-- `FitData::fetchPmHistogramStructure`: the blocks of bins of each histogram.
use fit_fred.Common.{
  ℕ, Bytes, codes, [], ◌∷◌, Option, none, some, List, if◌then◌else◌, Bool, true, false, bytes_eq,
  ◌&&◌,
}
use fit_fred.Common.Int.{ℤ, pos, negsuc}
use fit_fred.Database.Rows.{HistogramRow}

pub data Direction : Type 0 where
  positive negative : Direction

-- `PmHistogramBlock` and `PmHistogram`; the name is the key of the map.
pub record HistogramBlock : Type 0 where
  pub base_address : ℕ
  pub reg_block_size : ℕ
  pub start_bin : ℤ
  pub bins_per_register : ℕ
  pub direction : Direction

pub record Histogram : Type 0 where
  pub name : Bytes
  pub positive_bins : Option HistogramBlock
  pub negative_bins : Option HistogramBlock

abbrev block_of : HistogramRow → HistogramBlock
block_of row = record {
  base_address = row.base_address;
  reg_block_size = row.reg_block_size;
  start_bin = row.start_bin;
  bins_per_register = row.bins_per_register;
  direction = if bytes_eq row.direction (codes "P") then positive else negative;
}

-- A row is the negative or the positive half of its histogram.
unfoldable pub set_half : HistogramRow → Histogram → Histogram
set_half row h = elim row.start_bin [
  | negsuc _ ↦ record h { negative_bins = some (block_of row) }
  | pos _ ↦ record h { positive_bins = some (block_of row) }
]

-- `m_PmHistograms[row.histogramName]`, which is inserted if it is not there.
unfoldable pub add_row : HistogramRow → List Histogram → List Histogram
unfolding set_half
add_row row [] =
    set_half row (record { name = row.histogram_name; positive_bins = none; negative_bins = none })
    ∷ []
add_row row (h ∷ hs) =
    if bytes_eq h.name row.histogram_name then set_half row h ∷ hs else h ∷ add_row row hs

unfoldable pub add_rows : List HistogramRow → List Histogram → List Histogram
unfolding add_row
add_rows [] hs = hs
add_rows (row ∷ rows) hs = add_rows rows (add_row row hs)

unfoldable pub is_complete : Histogram → Bool
is_complete h = elim h.negative_bins [
  | none ↦ false
  | some _ ↦ elim h.positive_bins [ none ↦ false | some _ ↦ true ]
]

unfoldable pub all_complete : List Histogram → Bool
unfolding is_complete
all_complete [] = true
all_complete (h ∷ hs) = is_complete h && all_complete hs

-- `none` is the result `false`.
unfoldable pub fetch_pm_histogram_structure : List HistogramRow → Option (List Histogram)
unfolding add_rows all_complete
fetch_pm_histogram_structure rows =
    let histograms = add_rows rows [] in if all_complete histograms then some histograms else none
