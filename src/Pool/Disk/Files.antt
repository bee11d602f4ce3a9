-- ===== src/Pool/Disk/Files.antt =====
-- What the disk code relies on of files, as the standard library documents it.
use task_pool_concurrency_im.Prelude.{
  ℕ, ◌+◌, ◌-◌, ◌≤◌, ◌<◌, ◌≡◌, ◌≢◌, List, ok, panic, length, get_or, ltb, leb, if◌then◌else◌,
}
use task_pool_concurrency_im.Pool.Disk.{FileCalls}

-- A file has a byte at each offset, 0 past its end, and a position. A call that succeeds has done what
-- it says: `read` gives bytes from the position on, and none only at the end of the file; `write_all`
-- writes at the position; no call panics.
pub record IsFile (calls : FileCalls) (byte : calls.File → ℕ → ℕ) (pos : calls.File → ℕ)
    : Type 0 where
  pub seek_ok :
      (f g : calls.File) (n : ℕ)
      → calls.seek f n ≡ (g, ok tt)
      → (pos g ≡ n) × ((j : ℕ) → byte g j ≡ byte f j)
  pub read_ok :
      (f g : calls.File) (n : ℕ) (bytes : List ℕ)
      → calls.read f n ≡ (g, ok bytes)
      → (length bytes ≤ n)
        × (pos g ≡ pos f + length bytes)
        × ((j : ℕ) → byte g j ≡ byte f j)
        × ((k : ℕ) → k < length bytes → get_or bytes k 0 ≡ byte f (pos f + k))
        × (length bytes ≡ 0 → 0 < n → (j : ℕ) → pos f ≤ j → byte f j ≡ 0)
  pub write_ok :
      (f g : calls.File) (bytes : List ℕ)
      → calls.write_all f bytes ≡ (g, ok tt)
      → (j : ℕ)
      → byte g j ≡ (
          if leb (pos f) j
          then (if ltb j (pos f + length bytes) then get_or bytes (j - pos f) 0 else byte f j)
          else byte f j)
  pub sync_ok : (f g : calls.File) → calls.sync_all f ≡ (g, ok tt) → (j : ℕ) → byte g j ≡ byte f j
  pub seek_ends : (f : calls.File) (n : ℕ) → (calls.seek f n).1 ≢ panic
  pub read_ends : (f : calls.File) (n : ℕ) → (calls.read f n).1 ≢ panic
