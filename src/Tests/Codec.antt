-- ===== src/Tests/Codec.antt =====
-- The blocks and their parts.
use btrdb_server.Base.{
  ℕ, All, ◌-◌, ◌^◌, ◌≤◌, ◌≡◌, refl, inl, inr, some, [], ◌∷◌, ◌++◌, arith, length, ◌==◌,
  if◌then◌else◌,
}
use btrdb_server.Base.Word.{Within}
use btrdb_server.Bstore.Consts.{dbsize}
use btrdb_server.Bstore.Huff.{write_signed_huff, read_signed_huff, value}
use btrdb_server.Bstore.Huff.RoundTrip.{read_signed_huff-write}
use btrdb_server.Bstore.Delta.{average}
use btrdb_server.Bstore.Delta.Average.{average-Within}
use btrdb_server.Bstore.Vector
use btrdb_server.Bstore.Vector.{Vectorblock}
use btrdb_server.Bstore.Vector.RoundTrip.{IsPoint, deserialize-serialize}
use btrdb_server.Bstore.Vector.Size.{length-serialize}
use btrdb_server.Bstore.Core
use btrdb_server.Bstore.Core.{Slot, Coreblock}
use btrdb_server.Bstore.Core.Slots.{IsSlot}
use btrdb_server.Bstore.Core.RoundTrip.{restored_all, deserialize-serialize_core}

-- -5, in two's complement.
read_signed_huff-write_example :
    read_signed_huff (write_signed_huff (2 ^ 64 - 5) ++ 7 ∷ [])
    ≡ some (if 2 ^ 64 - 5 == 2 ^ 63 then 0 else 2 ^ 64 - 5, 7 ∷ [], value)
read_signed_huff-write_example = read_signed_huff-write (2 ^ 64 - 5) (7 ∷ []) (omega arith)

average-Within_example : Within 100 (average 3 (100 ∷ (2 ^ 64 - 7) ∷ 30 ∷ []))
average-Within_example =
    average-Within 100 3 (100 ∷ (2 ^ 64 - 7) ∷ 30 ∷ []) (omega arith) (omega arith) (ground arith)

abbrev block : Vectorblock
block = record {
  identifier = 9;
  generation = 3;
  point_width = 8;
  start_time = 0;
  points = (1000, 4607182418800017408) ∷ (2 ^ 64 - 20, 0) ∷ [];
}

abbrev other_block : Vectorblock
other_block = record {
  identifier = 1;
  generation = 1;
  point_width = 16;
  start_time = 0;
  points = [];
}

points-IsPoint : All IsPoint block.points
points-IsPoint = ((inl (omega arith), omega arith), ((inr (omega arith), omega arith), tt))

deserialize-serialize_example :
    Vector.deserialize other_block (Vector.serialize block ++ 255 ∷ [])
    ≡ some (record other_block { points = block.points })
deserialize-serialize_example =
    deserialize-serialize block other_block (255 ∷ []) (omega arith) (omega arith) points-IsPoint

length-serialize_example : length (Vector.serialize block) ≤ dbsize
length-serialize_example = length-serialize block (omega arith) points-IsPoint

abbrev empty_slot : ℕ → Slot
empty_slot g = record { addr = 0; count = 0; min = 0; mean = 0; max = 0; cgeneration = g }

abbrev full_slot : Slot
full_slot = record {
  addr = 70000;
  count = 12;
  min = 4607182418800017408;
  mean = 4607182418800017408;
  max = 4607182418800017409;
  cgeneration = 5;
}

abbrev core_block : Coreblock
core_block = record {
  identifier = 2;
  generation = 5;
  point_width = 50;
  start_time = 0;
  slots = empty_slot 4 ∷ full_slot ∷ empty_slot 5 ∷ empty_slot 5 ∷ [];
}

abbrev blank_core_block : Coreblock
blank_core_block = record core_block {
  slots = empty_slot 0 ∷ empty_slot 0 ∷ empty_slot 0 ∷ empty_slot 0 ∷ [];
}

slots-IsSlot : All IsSlot core_block.slots
slots-IsSlot = (omega arith, (omega arith, (omega arith, (omega arith, tt))))

deserialize-serialize_core_example :
    Core.deserialize blank_core_block (Core.serialize core_block ++ 255 ∷ [])
    ≡ some
        (record blank_core_block { slots = restored_all core_block.slots blank_core_block.slots })
deserialize-serialize_core_example =
    deserialize-serialize_core core_block blank_core_block (255 ∷ []) refl slots-IsSlot
