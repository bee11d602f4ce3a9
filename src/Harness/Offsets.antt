-- ===== src/Harness/Offsets.antt =====
-- Where the blocks are that are read.
use task_pool_concurrency_im.Prelude.{
  ℕ, suc, ◌+◌, ◌*◌, ◌/◌, ◌%◌, ◌^◌, ◌≤◌, ◌<◌, ◌≡◌, ap, sym, ◌∙◌, arith, ok, ◌⊎◌, inl, inr,
  ok-injective,
}
use native.Mathlib.Nat.{
  mod-lt, mod-add-div, add-mul-mod_self_left, mod-eq_of_lt, div-mul-le_self, mul-le-mul_right,
  le-div_iff_mul-le, div-le_self, mul-mod_left, mul-div_cancel,
}
use task_pool_concurrency_im.Harness.{
  file_size, AccessPattern, sequential, random, sequential_offset, random_offset, offset,
}

-- How many blocks there are in the file.
abbrev pub blocks_of : ℕ → ℕ
blocks_of block_size = file_size / block_size

-- The block that an operation reads.
abbrev pub block_of : AccessPattern → ℕ → ℕ → ℕ
block_of sequential operation block_size = operation % blocks_of block_size
block_of random operation block_size = operation * 7919 % blocks_of block_size

-- A size that a block of the file can have, and an operation whose product with 7919 is a `u64`.
pub record IsRead (operation block_size : ℕ) : Type 0 where
  pub not_empty : 0 < block_size
  pub fits : block_size ≤ file_size
  pub small : operation * 7919 < 2 ^ 64

blocks_of-pos :
    (block_size : ℕ) → 0 < block_size → block_size ≤ file_size → 0 < blocks_of block_size
blocks_of-pos block_size p h =
    (le-div_iff_mul-le {k = block_size} {x = 1} {y = file_size} p).1 (omega (arith, h))

block_of-lt :
    (pattern : AccessPattern) (operation block_size : ℕ)
    → IsRead operation block_size
    → block_of pattern operation block_size < blocks_of block_size
block_of-lt sequential operation block_size r =
    mod-lt operation (blocks_of-pos block_size r.not_empty r.fits)
block_of-lt random operation block_size r =
    mod-lt (operation * 7919) (blocks_of-pos block_size r.not_empty r.fits)

-- A block lies in the file.
block-fits : (b block_size : ℕ) → b < blocks_of block_size → b * block_size + block_size ≤ file_size
block-fits b block_size h =
    let l = mul-le-mul_right {m = suc b} {n = blocks_of block_size} block_size h in
    let d = div-mul-le_self file_size block_size in omega (arith, l, d)

recovered :
    (blocks inverse c operation : ℕ)
    → 7919 * inverse ≡ 1 + blocks * c
    → operation < blocks
    → operation * 7919 % blocks * inverse % blocks ≡ operation
recovered blocks inverse c operation e h =
    let m = operation * 7919 % blocks in
    let q = operation * 7919 / blocks in
    let split : m * inverse + blocks * (q * inverse) ≡ operation + blocks * (operation * c) =
      omega (
        arith,
        ap (λ x. x * inverse) (mod-add-div (operation * 7919) blocks),
        ap (λ x. operation * x) e,
      ) in
    sym (add-mul-mod_self_left (m * inverse) blocks (q * inverse))
    ∙ ap (λ x. x % blocks) split
    ∙ add-mul-mod_self_left operation blocks (operation * c)
    ∙ mod-eq_of_lt h

offset-block_of :
    (pattern : AccessPattern) (operation block_size : ℕ)
    → IsRead operation block_size
    → offset operation block_size pattern ≡ ok (block_of pattern operation block_size * block_size)
unfolding sequential_offset random_offset
offset-block_of sequential operation block_size r =
    let b = blocks_of-pos block_size r.not_empty r.fits in
    let f =
      block-fits (block_of sequential operation block_size) block_size
        (block_of-lt sequential operation block_size r) in
    ground (arith, r.not_empty, b, f)
offset-block_of random operation block_size r =
    let b = blocks_of-pos block_size r.not_empty r.fits in
    let f =
      block-fits (block_of random operation block_size) block_size
        (block_of-lt random operation block_size r) in
    ground (arith, r.not_empty, r.small, b, f)

-- Where an operation reads a block of at least a byte and at most 4 GiB, and 7919 times its number is a
-- `u64`, the offset is computed without a panic, in both patterns. It is a multiple of the block size, and
-- the whole block lies in the file.
pub offset_lem :
    (pattern : AccessPattern) (operation block_size : ℕ)
    → IsRead operation block_size
    → (start : ℕ) × (offset operation block_size pattern ≡ ok start)
      × (start % block_size ≡ 0)
      × (start + block_size ≤ file_size)
offset_lem pattern operation block_size r =
    let b = block_of pattern operation block_size in
    (
      b * block_size,
      offset-block_of pattern operation block_size r,
      mul-mod_left b block_size,
      block-fits b block_size (block_of-lt pattern operation block_size r),
    )

-- The sizes of `BLOCK_SIZES`.
abbrev pub IsBlockSize : ℕ → Type 0
IsBlockSize block_size = (block_size ≡ 512) ⊎ (block_size ≡ 4096) ⊎ (block_size ≡ 65536)

IsBlockSize-IsRead :
    (operation block_size : ℕ)
    → IsBlockSize block_size
    → operation < blocks_of block_size
    → IsRead operation block_size
IsBlockSize-IsRead operation block_size s h =
    let d = div-le_self file_size block_size in
    record { not_empty = ground (arith, s); fits = ground (arith, s); small = omega (arith, d, h) }

-- From the block, the operation.
abbrev operation_of : AccessPattern → ℕ → ℕ → ℕ
operation_of sequential inverse b = b
operation_of random inverse b = b * inverse

block_of-recovered :
    (pattern : AccessPattern) (operation block_size inverse c : ℕ)
    → 7919 * inverse ≡ 1 + blocks_of block_size * c
    → operation < blocks_of block_size
    → operation_of pattern inverse (block_of pattern operation block_size) % blocks_of block_size
      ≡ operation
block_of-recovered sequential operation block_size inverse c e h =
    ap (λ x. x % blocks_of block_size) (mod-eq_of_lt h) ∙ mod-eq_of_lt h
block_of-recovered random operation block_size inverse c e h =
    recovered (blocks_of block_size) inverse c operation e h

-- 7919 has an inverse modulo the number of blocks, which is a power of two.
has_inverse :
    (block_size : ℕ)
    → IsBlockSize block_size
    → (inverse : ℕ) × ((c : ℕ) × (7919 * inverse ≡ 1 + blocks_of block_size * c))
has_inverse block_size (inl e) = (6606863, (6237, ap (λ s. 1 + blocks_of s * 6237) (sym e)))
has_inverse block_size (inr (inl e)) = (315407, (2382, ap (λ s. 1 + blocks_of s * 2382) (sym e)))
has_inverse block_size (inr (inr e)) = (53263, (6436, ap (λ s. 1 + blocks_of s * 6436) (sym e)))

-- With a block size of the harness, no block is read twice before every block has been read once, in
-- order or scattered: two operations below the number of blocks with the same offset are the same.
pub offset-IsInjective :
    (pattern : AccessPattern) (i j block_size : ℕ)
    → IsBlockSize block_size
    → i < blocks_of block_size
    → j < blocks_of block_size
    → offset i block_size pattern ≡ offset j block_size pattern
    → i ≡ j
offset-IsInjective pattern i j block_size s h k e =
    let r = IsBlockSize-IsRead i block_size s h in
    let q = IsBlockSize-IsRead j block_size s k in
    let same : block_of pattern i block_size * block_size
        ≡ block_of pattern j block_size * block_size =
      ok-injective (
        sym (offset-block_of pattern i block_size r)
        ∙ e
        ∙ offset-block_of pattern j block_size q) in
    let blocks : block_of pattern i block_size ≡ block_of pattern j block_size =
      sym (mul-div_cancel (block_of pattern i block_size) r.not_empty)
      ∙ ap (λ x. x / block_size) same
      ∙ mul-div_cancel (block_of pattern j block_size) r.not_empty in
    let (inverse, (c, u)) = has_inverse block_size s in
    sym (block_of-recovered pattern i block_size inverse c u h)
    ∙ ap (λ b. operation_of pattern inverse b % blocks_of block_size) blocks
    ∙ block_of-recovered pattern j block_size inverse c u k
