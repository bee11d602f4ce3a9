-- ===== src/Endianness.antt =====
-- src/foundations/endianness.rs: 16 and 32 bit numbers as bytes in either order, and the record of
-- seven bytes that is made of them. `value & 0xff` is `% 256`, `value >> k` is `/ 2 ^ k`, and a shift
-- to the left keeps the width of its type.
pub mod Bits
pub mod RoundTrip
mod Tests
use Prim.Native.Nat.{bit_or}
use task_pool_concurrency_im.Prelude.{
  ℕ, ◌*◌, ◌/◌, ◌%◌, ◌^◌, List, [], ◌∷◌, ◌++◌, Option, none, some, ltb, if◌then◌else◌, length,
  get_or, take, drop,
}

abbrev pub u16_width : ℕ
u16_width = 2 ^ 16

abbrev pub u32_width : ℕ
u32_width = 2 ^ 32

abbrev pub byte : ℕ
byte = 256

abbrev pub byte_at : List ℕ → ℕ → ℕ
byte_at bytes i = get_or bytes i 0

-- `x << k` in a type whose values are below `width`.
abbrev pub shl : ℕ → ℕ → ℕ → ℕ
shl width x k = x * 2 ^ k % width

pub u16_to_le_bytes : ℕ → List ℕ
u16_to_le_bytes value = value % byte ∷ value / 2 ^ 8 % byte ∷ []

pub u16_to_be_bytes : ℕ → List ℕ
u16_to_be_bytes value = value / 2 ^ 8 % byte ∷ value % byte ∷ []

pub u32_to_le_bytes : ℕ → List ℕ
u32_to_le_bytes value =
    value % byte ∷ value / 2 ^ 8 % byte ∷ value / 2 ^ 16 % byte ∷ value / 2 ^ 24 % byte ∷ []

pub u32_to_be_bytes : ℕ → List ℕ
u32_to_be_bytes value =
    value / 2 ^ 24 % byte ∷ value / 2 ^ 16 % byte ∷ value / 2 ^ 8 % byte ∷ value % byte ∷ []

pub u16_from_le_bytes : List ℕ → Option ℕ
u16_from_le_bytes bytes =
    if ltb (length bytes) 2
    then none
    else some (bit_or (byte_at bytes 0) (shl u16_width (byte_at bytes 1) 8))

pub u16_from_be_bytes : List ℕ → Option ℕ
u16_from_be_bytes bytes =
    if ltb (length bytes) 2
    then none
    else some (bit_or (shl u16_width (byte_at bytes 0) 8) (byte_at bytes 1))

pub u32_from_le_bytes : List ℕ → Option ℕ
u32_from_le_bytes bytes =
    if ltb (length bytes) 4
    then none
    else some (
        bit_or
          (bit_or (bit_or (byte_at bytes 0) (shl u32_width (byte_at bytes 1) 8))
            (shl u32_width (byte_at bytes 2) 16))
          (shl u32_width (byte_at bytes 3) 24))

pub u32_from_be_bytes : List ℕ → Option ℕ
u32_from_be_bytes bytes =
    if ltb (length bytes) 4
    then none
    else some (
        bit_or
          (bit_or (bit_or (shl u32_width (byte_at bytes 0) 24) (shl u32_width (byte_at bytes 1) 16))
            (shl u32_width (byte_at bytes 2) 8))
          (byte_at bytes 3))

pub record Record : Type 0 where
  pub id : ℕ
  pub flags : ℕ
  pub kind : ℕ

pub serialize_record : Record → List ℕ
serialize_record r = u32_to_le_bytes r.id ++ u16_to_le_bytes r.flags ++ r.kind ∷ []

-- `?` on an Option.
infixl 5 ◌>>=◌
abbrev ◌>>=◌ {ℓ κ} : {A : Type ℓ} {B : Type κ} → Option A → (A → Option B) → Option B
none >>= f = none
some a >>= f = f a

pub deserialize_record : List ℕ → Option Record
deserialize_record bytes = if ltb (length bytes) 7 then none else do
  id ← u32_from_le_bytes (take 4 bytes)
  flags ← u16_from_le_bytes (take 2 (drop 4 bytes))
  some (record { id = id; flags = flags; kind = byte_at bytes 6 })
