-- ===== src/Services/Histograms/Blocks/Complete.antt =====
-- The histograms that FitData accepts have both halves.
use fit_fred.Common.{
  ◌≡◌, refl, [], ◌∷◌, Option, none, some, Option-cases, List, true, false, Bool-cases, inl, inr,
}
use fit_fred.Database.Rows.{HistogramRow}
use fit_fred.FitData.Histograms.{
  Histogram, add_rows, is_complete, all_complete, fetch_pm_histogram_structure,
}
use fit_fred.Services.Histograms.Blocks.{
  BinBlock, all_blocks, fetch_channel_blocks, replicate, channel_count, sort_blocks, bin_block,
}

all_blocks_of :
    (hs : List Histogram)
    → all_complete hs ≡ true
    → (blocks : List BinBlock) × (all_blocks hs ≡ some blocks)
unfolding all_complete is_complete all_blocks
all_blocks_of [] h = ([], refl)
all_blocks_of (h ∷ hs) complete = elim (Option-cases h.negative_bins) [
  | inl e ↦ let broken : false ≡ true = rw (all_complete, is_complete, e) at complete in cc
  | inr (n, e) ↦ elim (Option-cases h.positive_bins) [
    | inl q ↦ let broken : false ≡ true = rw (all_complete, is_complete, e, q) at complete in cc
    | inr (p, q) ↦
        let rest : all_complete hs ≡ true = rw (all_complete, is_complete, e, q) at complete in
        let (blocks, found) = all_blocks_of hs rest in
        (bin_block h.name n ∷ bin_block h.name p ∷ blocks, rw (all_blocks, e, q, found) refl)
  ]
]

-- Whenever FitData accepts the rows of the structure, the blocks of all channels are there:
-- `fetchChannelBlocks` never looks into a half that is missing.
pub fetch_channel_blocks-fetched :
    (rows : List HistogramRow) (histograms : List Histogram)
    → fetch_pm_histogram_structure rows ≡ some histograms
    → (blocks : List BinBlock) × (fetch_channel_blocks histograms
        ≡ some (replicate channel_count blocks))
unfolding fetch_pm_histogram_structure fetch_channel_blocks
fetch_channel_blocks-fetched rows histograms h =
    elim (Bool-cases (all_complete (add_rows rows []))) [
      | inl complete ↦
          let found : ◌≡◌ {A = Option (List Histogram)} (some (add_rows rows []))
              (some histograms) =
            rw (fetch_pm_histogram_structure, complete) at h in
          let same : add_rows rows [] ≡ histograms = cc in
          let (blocks, all) = all_blocks_of histograms (rw same at complete) in
          (sort_blocks blocks, rw (fetch_channel_blocks, all) refl)
      | inr missing ↦
          let broken : ◌≡◌ {A = Option (List Histogram)} none (some histograms) =
            rw (fetch_pm_histogram_structure, missing) at h in
          cc
    ]
