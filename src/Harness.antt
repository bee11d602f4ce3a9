-- ===== src/Harness.antt =====
-- src/bin/nvme_harness.rs: a file of 4 GiB is made, and blocks of it are read, in order or scattered. The
-- file system is the standard library's, a parameter: a world of files, with the calls that change it.
pub mod Offsets
pub mod Files
pub mod Benchmark
mod Tests
use task_pool_concurrency_im.Prelude.{
  ℕ, ◌*◌, ◌/◌, ◌%◌, ◌^◌, List, [], ◌∷◌, Bool, true, false, not, Outcome, ok, err, panic, IoError,
  ◌>>=◌, ◌>>◌, assert, length, replicate, ltb, leb, ◌==◌, if◌then◌else◌,
}

abbrev pub file_size : ℕ
file_size = 4 * 1024 * 1024 * 1024

abbrev pub block_sizes : List ℕ
block_sizes = 512 ∷ 4096 ∷ 64 * 1024 ∷ []

pub data AccessPattern : Type 0 where
  sequential random : AccessPattern

abbrev u64_mod : ℕ
u64_mod = 2 ^ 64

-- A division, or a remainder, by 0 is a panic.
abbrev div_rem : (ℕ → ℕ → ℕ) → ℕ → ℕ → Outcome IoError ℕ
div_rem f a b = assert (not (b == 0)) >> ok (f a b)

-- A product of two `u64`.
abbrev times : ℕ → ℕ → Outcome IoError ℕ
times a b = assert (ltb (a * b) u64_mod) >> ok (a * b)

unfoldable pub random_offset : ℕ → ℕ → Outcome IoError ℕ
random_offset operation block_size = do
  blocks ← div_rem ◌/◌ file_size block_size
  product ← times operation 7919
  block ← div_rem ◌%◌ product blocks
  times block block_size

unfoldable pub sequential_offset : ℕ → ℕ → Outcome IoError ℕ
sequential_offset operation block_size = do
  blocks ← div_rem ◌/◌ file_size block_size
  block ← div_rem ◌%◌ operation blocks
  times block block_size

abbrev pub offset : ℕ → ℕ → AccessPattern → Outcome IoError ℕ
offset operation block_size sequential = sequential_offset operation block_size
offset operation block_size random = random_offset operation block_size

pub record FileSystem : Type 1 where
  pub World : Type 0
  pub PathName : Type 0
  pub File : Type 0
  pub exists : World → PathName → Bool
  -- `fs::metadata(path)?.len()`
  pub metadata_len : World → PathName → Outcome IoError ℕ
  pub open_to_write : World → PathName → World × Outcome IoError File
  pub open_to_read : World → PathName → World × Outcome IoError File
  pub set_len : World → File → ℕ → World × Outcome IoError (Unit {0})
  pub sync_all : World → File → World × Outcome IoError (Unit {0})
  pub seek : World → File → ℕ → World × Outcome IoError (Unit {0})
  -- The buffer is the caller's, and comes back.
  pub read_exact : World → File → List ℕ → World × List ℕ × Outcome IoError (Unit {0})

module _ (fs : FileSystem) where
  open fs use {
    World, PathName, File, exists, metadata_len, open_to_write, open_to_read, set_len, sync_all,
    seek, read_exact,
  }

  -- What follows a call, unless it fails.
  abbrev pub then_call {ℓ κ} :
      {A : Type ℓ} {B : Type κ}
      → World × Outcome IoError A
      → (World → A → World × Outcome IoError B)
      → World × Outcome IoError B
  then_call (w, ok a) f = f w a
  then_call (w, err e) f = (w, err e)
  then_call (w, panic) f = (w, panic)

  -- `Ok(buffer.len())`
  abbrev pub buffer_len : World × List ℕ × Outcome IoError (Unit {0}) → World × Outcome IoError ℕ
  buffer_len (w, buffer, ok u) = (w, ok (length buffer))
  buffer_len (w, buffer, err e) = (w, err e)
  buffer_len (w, buffer, panic) = (w, panic)

  unfoldable pub read_block : World → PathName → ℕ → ℕ → AccessPattern → World × Outcome IoError ℕ
  read_block w path operation block_size pattern = then_call (open_to_read w path) λ w file.
      then_call (w, offset operation block_size pattern)
        λ w start.
          then_call (seek w file start)
            λ w u. buffer_len (read_exact w file (replicate block_size 0))

  -- Whether the file is there, and has its size already.
  abbrev pub large_enough : World → PathName → Outcome IoError Bool
  large_enough w path =
      if exists w path then (metadata_len w path >>= λ len. ok (leb file_size len)) else ok false

  unfoldable pub prepare_file : World → PathName → World × Outcome IoError (Unit {0})
  prepare_file w path =
      then_call (w, large_enough w path)
        λ w large.
          if large
          then (w, ok tt)
          else then_call (open_to_write w path)
              λ w file. then_call (set_len w file file_size) λ w u. sync_all w file
