-- ===== src/Services/Histograms/Tcm/Slices.antt =====
-- The words of the TCM's histograms are those of their registers.
use fit_fred.Common.{ℕ, ◌+◌, ◌^◌, ◌≤◌, ◌<◌, [], ◌∷◌, List, map, ltb, if◌then◌else◌, true}
use fit_fred.Services.BlockRead.Packets.{range}
use fit_fred.Services.Histograms.Tcm.{TcmHistogram}

-- What the registers of a range contain.
abbrev pub read_registers : (ℕ → ℕ) → ℕ → ℕ → List ℕ
read_registers contents start n = map contents (range true start n)

-- The histograms, each with the contents of its own registers; none before the start.
abbrev pub with_contents : (ℕ → ℕ) → ℕ → List TcmHistogram → List TcmHistogram
with_contents contents start [] = []
with_contents contents start (h ∷ hs) =
    record h {
      words =
          if ltb h.base_address start
          then []
          else read_registers contents h.base_address h.bin_count;
    }
    ∷ with_contents contents start hs

-- No histogram reaches into the next one, and the last one ends below 2 ^ 32.
abbrev pub IsOrdered : List TcmHistogram → Type 0
IsOrdered [] = Unit
IsOrdered (h ∷ []) = h.base_address + h.bin_count < 2 ^ 32
IsOrdered (h ∷ g ∷ hs) = (h.base_address + h.bin_count ≤ g.base_address) × IsOrdered (g ∷ hs)

abbrev EndsBy : ℕ → TcmHistogram → Type 0
EndsBy end h = h.base_address + h.bin_count ≤ end
