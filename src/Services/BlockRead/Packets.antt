-- ===== src/Services/BlockRead/Packets.antt =====
-- The registers that the packets of a block read cover.
use native.Mathlib.Nat.{mod-eq_of_lt}
use fit_fred.Common.{
  ℕ, zero, suc, ◌+◌, ◌*◌, ◌/◌, ◌%◌, ◌^◌, ◌≤◌, ◌<◌, ◌≡◌, refl, sym, ap, arith, [], ◌∷◌, ◌++◌, List,
  ltb, if◌then◌else◌, Bool, true, false, All, All-append, append-nil, append_assoc, Bool-cases, inl,
  inr,
}
use fit_fred.Swt.Sequence.{Operation, SwtOperation, max_block_read_size}
use fit_fred.Services.BlockRead.{packet, full_packets, block_operations}

-- `n` registers from an address on, or `n` times the same.
unfoldable pub range : Bool → ℕ → ℕ → List ℕ
range incrementing address zero = []
range incrementing address (suc n) =
    address ∷ range incrementing (if incrementing then suc address else address) n

-- The registers that an operation reads: a block read goes upwards from its address, a block read
-- without increment stays at it, and no other operation is a block read.
pub registers_of : SwtOperation → List ℕ
registers_of op = elim op.type [
  | Operation.block_read ↦ range true op.address op.data0
  | Operation.block_read_non_increment ↦ range false op.address op.data0
  | _ ↦ []
]

-- The registers that are read by the block reads of a list.
pub covered : List SwtOperation → List ℕ
unfolding registers_of
covered [] = []
covered (op ∷ ops) = registers_of op ++ covered ops

registers_of-packet :
    (incrementing : Bool) (address n : ℕ)
    → registers_of (packet incrementing address n) ≡ range incrementing address n
unfolding registers_of packet
registers_of-packet true address n = refl
registers_of-packet false address n = refl

abbrev pub advanced : Bool → ℕ → ℕ → ℕ
advanced incrementing address n = if incrementing then address + n else address

pub range-append :
    (incrementing : Bool) (address m n : ℕ)
    → range incrementing address m ++ range incrementing (advanced incrementing address m) n
      ≡ range incrementing address (m + n)
unfolding range
range-append true address zero n =
    let same : address + 0 ≡ address = omega arith in
    let sum : 0 + n ≡ n = omega arith in rw (same, sum)
range-append false address zero n = let same : 0 + n ≡ n = omega arith in rw same
range-append true address (suc m) n =
    let next : address + suc m ≡ suc address + m = omega arith in
    let sum : suc m + n ≡ suc (m + n) = omega arith in
    rw (next, sum) (ap (λ r. address ∷ r) (range-append true (suc address) m n))
range-append false address (suc m) n =
    let sum : suc m + n ≡ suc (m + n) = omega arith in
    rw sum (ap (λ r. address ∷ r) (range-append false address m n))

-- A packet is no larger than a block read can be, 1024 words.
abbrev pub IsPacket : SwtOperation → Type 0
IsPacket op = op.data0 ≤ 1024

range-zero : (incrementing : Bool) (address : ℕ) → range incrementing address 0 ≡ []
unfolding range
range-zero incrementing address = refl

full_packets-covered :
    (incrementing : Bool) (address n : ℕ)
    → address + n * max_block_read_size < 2 ^ 32
    → let result = full_packets incrementing address n in
      (covered result.0 ≡ range incrementing address (n * max_block_read_size))
      × (result.1 ≡ advanced incrementing address (n * max_block_read_size))
      × All IsPacket result.0
unfolding full_packets packet covered
full_packets-covered true address zero h = (sym (range-zero true address), omega arith, tt)
full_packets-covered false address zero h = (sym (range-zero false address), refl, tt)
full_packets-covered true address (suc n) h =
    let next : (address + max_block_read_size) % 2 ^ 32 ≡ address + max_block_read_size =
      mod-eq_of_lt (omega arith) in
    let (cover, end, packets) =
      full_packets-covered true (address + max_block_read_size) n (omega arith) in
    let size : suc n * max_block_read_size ≡ max_block_read_size + n * max_block_read_size =
      omega arith in
    rw (next, size)
      (
        rw cover (range-append true address max_block_read_size (n * max_block_read_size)),
        rw end (omega arith),
        (omega arith, packets),
      )
full_packets-covered false address (suc n) h =
    let (cover, end, packets) = full_packets-covered false address n (omega arith) in
    let size : suc n * max_block_read_size ≡ max_block_read_size + n * max_block_read_size =
      omega arith in
    rw size (
      rw cover (range-append false address max_block_read_size (n * max_block_read_size)),
      end,
      (omega arith, packets),
    )

covered-append :
    (ops more : List SwtOperation) → covered (ops ++ more) ≡ covered ops ++ covered more
unfolding covered
covered-append [] more = refl
covered-append (op ∷ ops) more =
    rw (covered-append ops more) (sym (append_assoc (registers_of op) (covered ops) (covered more)))

-- The full packets and a last one, whatever the test of the source says.
block_operations_lem :
    (base : ℕ) (incrementing : Bool) (words : ℕ)
    → let (full, end) = full_packets incrementing base (words / max_block_read_size) in
      block_operations base incrementing words
      ≡ full ++ (packet incrementing end (words % max_block_read_size) ∷ [])
unfolding block_operations full_packets
block_operations_lem base incrementing words =
    elim (Bool-cases (ltb (words % max_block_read_size) words)) [
      | inl some ↦ rw (block_operations, some)
      | inr less ↦
          let none_full : words / max_block_read_size ≡ 0 = ground arith in
          rw (block_operations, less, none_full)
    ]

-- For a range of registers that ends below 2 ^ 32, the packets of `blockRead` cover exactly the
-- requested words in order and each once: consecutive registers with incrementing block reads, or the
-- same register with block reads that do not increment; and no packet has more than 1024 words.
pub block_operations-covered :
    (base : ℕ) (incrementing : Bool) (words : ℕ)
    → base + words < 2 ^ 32
    → (covered (block_operations base incrementing words) ≡ range incrementing base words)
      × All IsPacket (block_operations base incrementing words)
unfolding packet covered
block_operations-covered base incrementing words h =
    let q = words / max_block_read_size in
    let r = words % max_block_read_size in
    let split : q * max_block_read_size + r ≡ words = omega arith in
    let (cover, end, packets) = full_packets-covered incrementing base q (omega arith) in
    let last = packet incrementing (full_packets incrementing base q).1 r in
    let small : IsPacket last = omega arith in
    rw (block_operations_lem base incrementing words) (
      rw
          (
            covered-append (full_packets incrementing base q).0 (last ∷ []),
            cover,
            end,
            registers_of-packet incrementing (advanced incrementing base (q * max_block_read_size))
                r,
            append-nil
                (range incrementing (advanced incrementing base (q * max_block_read_size)) r),
          )
          (rw (range-append incrementing base (q * max_block_read_size) r, split)),
      All-append _ (full_packets incrementing base q).0 (last ∷ []) packets (small, tt),
    )
