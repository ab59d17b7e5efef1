-- ===== src/Idgen/Snowflake/RoundTrip.antt =====
-- `Parse` takes apart what `Next` packs (common/idgen/snowflake.go).
use game01_server.Prelude.{ℕ, ◌+◌, ◌*◌, ◌/◌, ◌%◌, ◌^◌, ◌<◌, ◌≡◌, arith}
use game01_server.Prelude.Int.{pos, ◌+ℤ◌}
use game01_server.Idgen.Snowflake.{Generator, pack, parse}
use game01_server.Idgen.Snowflake.Bits.{bit_or-add, bit_and-node, bit_and-sequence}

-- In the ranges of its parts, the id is the sum of the three fields, each in its place.
pub pack_sum :
    (milli node_id sequence : ℕ)
    → milli < 2 ^ 42
    → node_id < 1024
    → sequence < 4096
    → pack milli node_id sequence ≡ (milli * 1024 + node_id) * 4096 + sequence
unfolding pack
pack_sum milli node_id sequence hm hn hs =
    let high : milli * 2 ^ 22 % 2 ^ 64 ≡ milli * 2 ^ 22 = omega arith in
    let middle : node_id * 2 ^ 12 % 2 ^ 64 ≡ node_id * 2 ^ 12 = omega arith in
    let both : milli * 2 ^ 22 + node_id * 2 ^ 12 ≡ (milli * 1024 + node_id) * 2 ^ 12 =
      omega arith in
    rw (high, middle, bit_or-add 22 milli (node_id * 2 ^ 12) (omega arith), both)
      (bit_or-add 12 (milli * 1024 + node_id) sequence hs)

-- `Parse` returns the fields that an id was packed from, and the time since the epoch, for a
-- millisecond below 2 ^ 42, a node id of 10 bits and a sequence number of 12 bits.
pub parse-pack :
    (g : Generator) (milli node_id sequence : ℕ)
    → milli < 2 ^ 42
    → node_id < 1024
    → sequence < 4096
    → parse g (pack milli node_id sequence)
      ≡ record { timestamp = g.epoch_milli +ℤ pos milli; node_id = node_id; sequence = sequence }
unfolding parse
parse-pack g milli node_id sequence hm hn hs = rw (pack_sum milli node_id sequence hm hn hs) (
    ground (
      arith,
      bit_and-node (((milli * 1024 + node_id) * 4096 + sequence) / 2 ^ 12),
      bit_and-sequence ((milli * 1024 + node_id) * 4096 + sequence),
    ))
