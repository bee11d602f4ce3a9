-- ===== src/Pool/Disk.antt =====
-- src/storage/buffer_pool/disk.rs: pages of a file. The file is `std::fs::File`, a parameter: a handle,
-- with the calls that the code makes of it, each of which returns the handle as it leaves it. Fuel
-- counts the calls of `read`.
pub mod Files
pub mod Pages
mod Tests
use task_pool_concurrency_im.Prelude.{
  ℕ, zero, suc, ◌+◌, ◌-◌, ◌*◌, List, Bool, true, false, not, Outcome, ok, err, panic, IoError,
  invalid_input, ltb, ◌==◌, if◌then◌else◌, length, replicate, page_size,
}
use task_pool_concurrency_im.Page.{copy_into}

pub record FileCalls : Type 1 where
  pub File : Type 0
  pub open_file : List ℕ → Outcome IoError File
  pub seek : File → ℕ → File × Outcome IoError (Unit {0})
  -- Into a buffer of so many bytes: those that were read.
  pub read : File → ℕ → File × Outcome IoError (List ℕ)
  pub write_all : File → List ℕ → File × Outcome IoError (Unit {0})
  pub sync_all : File → File × Outcome IoError (Unit {0})

module _ (calls : FileCalls) where
  open calls use {File, open_file, seek, read, write_all, sync_all}

  pub record DiskManager : Type 0 where
    pub file : File

  -- The file, the caller's buffer, and how the call ends.
  abbrev pub Reading : Type 0
  Reading = File × List ℕ × Outcome IoError (Unit {0})

  pub new : List ℕ → Outcome IoError DiskManager
  new path = elim (open_file path) [
    | ok file ↦ ok (record { file = file })
    | err e ↦ err e
    | panic ↦ panic
  ]

  abbrev pub offset : ℕ → ℕ
  offset page_id = page_id * page_size

  -- `while total_read < PAGE_SIZE`
  unfoldable pub read_loop : ℕ → File → List ℕ → ℕ → Reading
  read_loop zero file buf total_read = (file, buf, panic)
  read_loop (suc fuel) file buf total_read = elim (ltb total_read page_size) [
    | false ↦ (file, buf, ok tt)
    | true ↦
        let (file', result) = read file (page_size - total_read) in
        elim result [
          | err e ↦ (file', buf, err e)
          | panic ↦ (file', buf, panic)
          | ok bytes ↦ elim (length bytes == 0) [
            | true ↦ (file', buf, ok tt)
            | false ↦
                read_loop fuel file' (copy_into buf total_read bytes) (total_read + length bytes)
          ]
        ]
  ]

  -- After `seek`, the buffer is zeroed.
  abbrev pub fill : File × Outcome IoError (Unit {0}) → List ℕ → Reading
  fill (file, ok u) buf = read_loop (page_size + 1) file (replicate (length buf) 0) 0
  fill (file, err e) buf = (file, buf, err e)
  fill (file, panic) buf = (file, buf, panic)

  unfoldable pub read_page : DiskManager → ℕ → List ℕ → Reading
  read_page d page_id buf =
      if not (length buf == page_size)
      then (d.file, buf, err invalid_input)
      else fill (seek d.file (offset page_id)) buf

  -- One call after another that succeeds.
  abbrev pub then_file :
      File × Outcome IoError (Unit {0})
      → (File → File × Outcome IoError (Unit {0}))
      → File × Outcome IoError (Unit {0})
  then_file (file, ok u) call = call file
  then_file (file, err e) call = (file, err e)
  then_file (file, panic) call = (file, panic)

  unfoldable pub write_page : DiskManager → ℕ → List ℕ → File × Outcome IoError (Unit {0})
  write_page d page_id buf =
      if not (length buf == page_size)
      then (d.file, err invalid_input)
      else then_file (then_file (seek d.file (offset page_id)) (λ file. write_all file buf))
          sync_all
