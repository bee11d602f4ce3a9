-- ===== src/Endianness/RoundTrip.antt =====
-- What is written is read back, in both byte orders, also when more bytes follow.
use Prim.Native.Nat.{bit_or}
use task_pool_concurrency_im.Prelude.{
  ℕ, ◌+◌, ◌*◌, ◌/◌, ◌%◌, ◌^◌, ◌<◌, ◌≡◌, ◌⊎◌, inl, inr, ap, List, [], ◌∷◌, ◌++◌, none, some, arith,
  length, take,
}
use task_pool_concurrency_im.Endianness.{
  Record, u16_width, u32_width, u16_to_le_bytes, u16_to_be_bytes, u32_to_le_bytes, u32_to_be_bytes,
  u16_from_le_bytes, u16_from_be_bytes, u32_from_le_bytes, u32_from_be_bytes, serialize_record,
  deserialize_record, shl,
}
use task_pool_concurrency_im.Endianness.Bits.{bit_or-low, bit_or-high}

-- A list of bytes.
abbrev pub IsBytes : List ℕ → Type 0
IsBytes [] = Unit
IsBytes (b ∷ bs) = (b < 256) × IsBytes bs

-- The four bytes of a number, least significant first.
abbrev value16 : ℕ → ℕ → ℕ
value16 a b = a + b * 256

abbrev value32 : ℕ → ℕ → ℕ → ℕ → ℕ
value32 a b c d = a + b * 256 + c * 65536 + d * 16777216

le16 : (a b : ℕ) → a < 256 → b < 256 → bit_or a (shl u16_width b 8) ≡ value16 a b
le16 a b p q = omega (arith, bit_or-low 8 b a (shl u16_width b 8) (omega arith) (omega arith))

be16 : (a b : ℕ) → a < 256 → b < 256 → bit_or (shl u16_width b 8) a ≡ value16 a b
be16 a b p q = omega (arith, bit_or-high 8 b (shl u16_width b 8) a (omega arith) (omega arith))

le32 :
    (a b c d : ℕ)
    → a < 256
    → b < 256
    → c < 256
    → d < 256
    → bit_or (bit_or (bit_or a (shl u32_width b 8)) (shl u32_width c 16)) (shl u32_width d 24)
      ≡ value32 a b c d
le32 a b c d p q r s =
    let e = bit_or-low 8 b a (shl u32_width b 8) (omega arith) (omega arith) in
    let f =
      bit_or-low 16 c (bit_or a (shl u32_width b 8)) (shl u32_width c 16) (omega (arith, e))
        (omega arith) in
    omega (
      arith,
      e,
      f,
      bit_or-low 24 d (bit_or (bit_or a (shl u32_width b 8)) (shl u32_width c 16))
          (shl u32_width d 24) (omega (arith, e, f)) (omega arith),
    )

be32 :
    (a b c d : ℕ)
    → a < 256
    → b < 256
    → c < 256
    → d < 256
    → bit_or (bit_or (bit_or (shl u32_width d 24) (shl u32_width c 16)) (shl u32_width b 8)) a
      ≡ value32 a b c d
be32 a b c d p q r s =
    let e =
      bit_or-high 24 d (shl u32_width d 24) (shl u32_width c 16) (omega arith) (omega arith) in
    let f =
      bit_or-high 16 (d * 256 + c) (bit_or (shl u32_width d 24) (shl u32_width c 16))
        (shl u32_width b 8) (omega arith) (omega (arith, e)) in
    omega (
      arith,
      e,
      f,
      bit_or-high 8 (d * 65536 + c * 256 + b)
          (bit_or (bit_or (shl u32_width d 24) (shl u32_width c 16)) (shl u32_width b 8)) a
          (omega arith) (omega (arith, e, f)),
    )

pub u16_from_le_bytes-to :
    (v : ℕ) (rest : List ℕ) → v < 2 ^ 16 → u16_from_le_bytes (u16_to_le_bytes v ++ rest) ≡ some v
unfolding u16_from_le_bytes u16_to_le_bytes
u16_from_le_bytes-to v rest h =
    ground (arith, le16 (v % 256) (v / 2 ^ 8 % 256) (omega arith) (omega arith))

pub u16_from_be_bytes-to :
    (v : ℕ) (rest : List ℕ) → v < 2 ^ 16 → u16_from_be_bytes (u16_to_be_bytes v ++ rest) ≡ some v
unfolding u16_from_be_bytes u16_to_be_bytes
u16_from_be_bytes-to v rest h =
    ground (arith, be16 (v % 256) (v / 2 ^ 8 % 256) (omega arith) (omega arith))

pub u32_from_le_bytes-to :
    (v : ℕ) (rest : List ℕ) → v < 2 ^ 32 → u32_from_le_bytes (u32_to_le_bytes v ++ rest) ≡ some v
unfolding u32_from_le_bytes u32_to_le_bytes
u32_from_le_bytes-to v rest h = ground (
  arith,
  le32 (v % 256) (v / 2 ^ 8 % 256) (v / 2 ^ 16 % 256) (v / 2 ^ 24 % 256) (omega arith) (omega arith)
      (omega arith) (omega arith),
)

pub u32_from_be_bytes-to :
    (v : ℕ) (rest : List ℕ) → v < 2 ^ 32 → u32_from_be_bytes (u32_to_be_bytes v ++ rest) ≡ some v
unfolding u32_from_be_bytes u32_to_be_bytes
u32_from_be_bytes-to v rest h = ground (
  arith,
  be32 (v % 256) (v / 2 ^ 8 % 256) (v / 2 ^ 16 % 256) (v / 2 ^ 24 % 256) (omega arith) (omega arith)
      (omega arith) (omega arith),
)

pub record IsRecord (r : Record) : Type 0 where
  pub id_fits : r.id < 2 ^ 32
  pub flags_fit : r.flags < 2 ^ 16
  pub kind_fits : r.kind < 2 ^ 8

-- A number of 16 or of 32 bits is read back from its bytes in the same order, whatever bytes follow.
pub numbers_round_trip :
    (v w : ℕ) (rest : List ℕ)
    → v < 2 ^ 16
    → w < 2 ^ 32
    → (u16_from_le_bytes (u16_to_le_bytes v ++ rest) ≡ some v)
      × (u16_from_be_bytes (u16_to_be_bytes v ++ rest) ≡ some v)
      × (u32_from_le_bytes (u32_to_le_bytes w ++ rest) ≡ some w)
      × (u32_from_be_bytes (u32_to_be_bytes w ++ rest) ≡ some w)
numbers_round_trip v w rest p q = (
  u16_from_le_bytes-to v rest p,
  u16_from_be_bytes-to v rest p,
  u32_from_le_bytes-to w rest q,
  u32_from_be_bytes-to w rest q,
)

-- A record whose fields fit their types is read back from the bytes that it is written as, whatever
-- bytes follow.
pub deserialize_record-serialize :
    (r : Record) (rest : List ℕ)
    → IsRecord r
    → deserialize_record (serialize_record r ++ rest) ≡ some r
unfolding deserialize_record serialize_record u32_to_le_bytes u16_to_le_bytes
deserialize_record-serialize r rest h =
    ground
      (arith, u32_from_le_bytes-to r.id [] h.id_fits, u16_from_le_bytes-to r.flags [] h.flags_fit)

u32_from_le_bytes-four :
    (a b c d : ℕ)
    → IsBytes (a ∷ b ∷ c ∷ d ∷ [])
    → u32_from_le_bytes (a ∷ b ∷ c ∷ d ∷ []) ≡ some (value32 a b c d)
unfolding u32_from_le_bytes
u32_from_le_bytes-four a b c d h = ap some (le32 a b c d h.0 h.1.0 h.1.1.0 h.1.1.1.0)

u16_from_le_bytes-two :
    (a b : ℕ) → IsBytes (a ∷ b ∷ []) → u16_from_le_bytes (a ∷ b ∷ []) ≡ some (value16 a b)
unfolding u16_from_le_bytes
u16_from_le_bytes-two a b h = ap some (le16 a b h.0 h.1.0)

-- Bytes are read as a record exactly when there are at least seven, and the record read is written
-- as the first seven of them.
pub serialize_record-deserialize :
    (bytes : List ℕ)
    → IsBytes bytes
    → ((length bytes < 7) × (deserialize_record bytes ≡ none))
      ⊎ ((r : Record) × (deserialize_record bytes ≡ some r)
          × IsRecord r
          × (serialize_record r ≡ take 7 bytes))
unfolding deserialize_record serialize_record u32_to_le_bytes u16_to_le_bytes
serialize_record-deserialize (a ∷ b ∷ c ∷ d ∷ e ∷ f ∷ g ∷ rest) h = inr (
  record { id = value32 a b c d; flags = value16 e f; kind = g },
  ground (
    arith,
    u32_from_le_bytes-four a b c d (omega arith),
    u16_from_le_bytes-two e f (omega arith),
  ),
  omega arith,
  ground arith,
)
serialize_record-deserialize [] h = inl (ground arith, ground arith)
serialize_record-deserialize _ h = inl (ground arith, ground arith)
