-- ===== src/Endianness/Tests.antt =====
-- Bytes and records at concrete values.
use task_pool_concurrency_im.Prelude.{◌≡◌, [], ◌∷◌, ◌++◌, some, arith}
use task_pool_concurrency_im.Endianness.{Record, deserialize_record, serialize_record}
use task_pool_concurrency_im.Endianness.RoundTrip.{IsRecord, deserialize_record-serialize}

abbrev a_record : Record
a_record = record { id = 70000; flags = 300; kind = 9 }

a_record-IsRecord : IsRecord a_record
a_record-IsRecord = record {
  id_fits = omega arith;
  flags_fit = omega arith;
  kind_fits = omega arith;
}

deserialize_record-serialize_example :
    deserialize_record (serialize_record a_record ++ 1 ∷ 2 ∷ []) ≡ some a_record
deserialize_record-serialize_example =
    deserialize_record-serialize a_record (1 ∷ 2 ∷ []) a_record-IsRecord
