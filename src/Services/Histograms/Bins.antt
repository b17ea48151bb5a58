-- ===== src/Services/Histograms/Bins.antt =====
-- The bins that PmHistograms (mapi/src/services/histograms/PmHistograms.cpp) publishes.
use fit_fred.Common.{ℕ, ◌%◌, ◌^◌, ◌/◌, [], ◌∷◌, ◌++◌, Option, none, some, List, ◌==◌, if◌then◌else◌}
use fit_fred.Services.Histograms.Blocks.{BinBlock}

-- The bins of a block in the order in which they are published, two to a register.
abbrev upwards : List ℕ → List ℕ
upwards [] = []
upwards (w ∷ ws) = w % 2 ^ 16 ∷ w / 2 ^ 16 ∷ upwards ws

abbrev downwards : List ℕ → List ℕ → List ℕ
downwards bins [] = bins
downwards bins (w ∷ ws) = downwards (w / 2 ^ 16 ∷ w % 2 ^ 16 ∷ bins) ws

unfoldable pub bins_of : BinBlock → List ℕ
bins_of b = if b.is_negative_direction then downwards [] b.words else upwards b.words

-- What is published for one histogram of a channel: its bins, or the number of bins per register of
-- the first block that does not have two.
unfoldable pub published_bins : List BinBlock → List ℕ × Option ℕ
unfolding bins_of
published_bins [] = ([], none)
published_bins (b ∷ bs) =
    let rest = published_bins bs in
    if b.readout_enabled
    then if b.bins_per_register == 2
      then (bins_of b ++ rest.0, rest.1)
      else ([], some b.bins_per_register)
    else rest
