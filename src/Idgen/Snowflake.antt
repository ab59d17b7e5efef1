-- ===== src/Idgen/Snowflake.antt =====
-- common/idgen/snowflake.go. The clock is the sequence of its readings in Unix milliseconds, and the
-- generator counts how many were taken; `waitNextMilli` takes fuel, one unit for each reading.
-- `uint64` shifts wrap at 2 ^ 64.
pub mod Bits
pub mod Order
pub mod Total
pub mod RoundTrip
mod Examples
use Prim.Native.Nat.{bit_or, bit_and}
use game01_server.Prelude.{
  ℕ, zero, suc, ◌+◌, ◌*◌, ◌/◌, ◌%◌, ◌^◌, Bool, true, false, Option, none, some,
}
use game01_server.Prelude.Tests.{ltb, ◌==◌, if◌then◌else◌}
use game01_server.Prelude.Int.{ℤ, pos, negsuc, pos_part, ltb_ℤ, eqb_ℤ, ◌+ℤ◌, ◌-ℤ◌}

abbrev pub node_bits : ℕ
node_bits = 10

abbrev pub sequence_bits : ℕ
sequence_bits = 12

abbrev pub max_node_id : ℕ
max_node_id = 1023

abbrev pub max_sequence : ℕ
max_sequence = 4095

-- `reads` is the number of clock readings taken so far.
pub record Generator : Type 0 where
  pub node_id : ℕ  -- uint16
  pub epoch_milli : ℤ
  pub last_milli : ℤ
  pub sequence : ℕ  -- uint16
  pub reads : ℕ

-- `NewWithClock` with a clock; `none` stands for its error.
unfoldable pub new_with_clock : ℕ → ℤ → Option Generator
new_with_clock node_id epoch =
    if ltb max_node_id node_id
    then none
    else some (record {
      node_id = node_id;
      epoch_milli = epoch;
      last_milli = negsuc 0;
      sequence = 0;
      reads = 0;
    })

-- `uint64(milli)<<(NodeBits+SequenceBits) | uint64(g.nodeID)<<SequenceBits | uint64(g.sequence)`
unfoldable pub pack : ℕ → ℕ → ℕ → ℕ
pack milli node_id sequence =
    bit_or (bit_or (milli * 2 ^ 22 % 2 ^ 64) (node_id * 2 ^ 12 % 2 ^ 64)) sequence

unfoldable pub stamp : ℕ → ℕ → Generator → ℕ × Generator
unfolding pack
stamp milli sequence g =
    (pack milli g.node_id sequence, record g { last_milli = pos milli; sequence = sequence })

unfoldable pub waited : Option (ℕ × Generator) → Option (ℕ × Generator)
unfolding stamp
waited none = none
waited (some (milli, g)) = some (stamp milli 0 g)

module _ (clock : ℕ → ℤ) where
  -- The reading number `i`, from the epoch, at least 0.
  unfoldable pub milli_at : ℤ → ℕ → ℕ
  milli_at epoch i =
      let milli = clock i -ℤ epoch in if ltb_ℤ milli (pos 0) then 0 else pos_part milli

  unfoldable pub current_milli : Generator → ℕ × Generator
  unfolding milli_at
  current_milli g = (milli_at g.epoch_milli g.reads, record g { reads = suc g.reads })

  -- `none` where the fuel runs out.
  unfoldable pub wait_next_milli : ℕ → ℕ → Generator → Option (ℕ × Generator)
  wait_next_milli zero previous g = none
  wait_next_milli (suc fuel) previous g =
      let (milli, g') = current_milli g in
      let rest = wait_next_milli fuel previous g' in
      if ltb previous milli then some (milli, g') else rest

  -- `milli` is not before `lastMilli` here.
  unfoldable pub next_at : ℕ → ℕ → Generator → Option (ℕ × Generator)
  unfolding stamp waited
  next_at fuel milli g =
      let next_milli = wait_next_milli fuel milli g in
      if eqb_ℤ (pos milli) g.last_milli
      then (if g.sequence == max_sequence
          then waited next_milli
          else some (stamp milli (g.sequence + 1) g))
      else some (stamp milli 0 g)

  -- `Next`
  unfoldable pub next : ℕ → Generator → Option (ℕ × Generator)
  unfolding next_at
  next fuel g =
      let (milli, g') = current_milli g in
      next_at fuel (if ltb_ℤ (pos milli) g.last_milli then pos_part g.last_milli else milli) g'

-- `Parse`, with the timestamp in Unix milliseconds.
pub record Parts : Type 0 where
  pub timestamp : ℤ
  pub node_id : ℕ
  pub sequence : ℕ

unfoldable pub parse : Generator → ℕ → Parts
parse g id = record {
  timestamp = g.epoch_milli +ℤ pos (id / 2 ^ 22);
  node_id = bit_and (id / 2 ^ 12) max_node_id;
  sequence = bit_and id max_sequence;
}
