-- ===== src/Harness/Tests.antt =====
-- A file in memory, and a benchmark with one read.
use task_pool_concurrency_im.Prelude.{
  ℕ, zero, suc, ◌+◌, ◌%◌, ◌≤◌, ◌≡◌, refl, ap, sym, some, List, [], ◌∷◌, arith, Outcome, ok, IoError,
  ltb, inr, ok-injective,
}
use task_pool_concurrency_im.Tasks.{running, finished}
use task_pool_concurrency_im.Tasks.Counter.{counter, counter-IsSemaphore}
use task_pool_concurrency_im.Harness.{
  FileSystem, file_size, random, offset, prepare_file, read_block,
}
use task_pool_concurrency_im.Harness.Offsets.{IsRead, offset_lem, offset-IsInjective}
use task_pool_concurrency_im.Harness.Files.{IsFileSystem, Serves, read_block-prepare_file}
use task_pool_concurrency_im.Harness.Benchmark.{
  Main, spawning, summing, returned, Read, Run, run_benchmark, result, advance_from, advance, Step,
  advances, ends, Steps, start, then_step,
}
use task_pool_concurrency_im.Harness.Benchmark.Reads.{read_all}
use task_pool_concurrency_im.Harness.Benchmark.Total.{running_count-queue_depth}
use task_pool_concurrency_im.Harness.Benchmark.Answer.{Answered, run_benchmark-read_all}

seven : IsRead 7 4096
seven = record { not_empty = omega arith; fits = omega arith; small = omega arith }

offset_lem_example :
    (start : ℕ) × (offset 7 4096 random ≡ ok start)
    × (start % 4096 ≡ 0)
    × (start + 4096 ≤ file_size)
offset_lem_example = offset_lem random 7 4096 seven

offset-IsInjective_example : ◌≡◌ {A = ℕ} 65535 65535
offset-IsInjective_example =
    offset-IsInjective random 65535 65535 65536 (inr (inr refl)) (omega arith) (omega arith) refl

-- One file, with its size and the position of its handle.
record OneFile : Type 0 where
  file_len : ℕ
  position : ℕ

abbrev in_memory : FileSystem
in_memory = record {
  World = OneFile;
  PathName = Unit {0};
  File = Unit {0};
  exists = λ w path. ltb 0 w.file_len;
  metadata_len = λ w path. ok w.file_len;
  open_to_write = λ w path. (w, ok tt);
  open_to_read = λ w path. (w, ok tt);
  set_len = λ w file n. (record w { file_len = n }, ok tt);
  sync_all = λ w file. (w, ok tt);
  seek = λ w file n. (record w { position = n }, ok tt);
  read_exact = λ w file buffer. (w, buffer, ok tt);
}

abbrev size_of : OneFile → Unit {0} → ℕ
size_of w path = w.file_len

in_memory-IsFileSystem : IsFileSystem in_memory size_of (λ f. f)
in_memory-IsFileSystem = record {
  metadata_ok = λ w path n e. ok-injective e;
  open_ok = λ w w' path file e. refl;
  set_len_ok = λ w w' file n e. sym (ap (λ r. r.0.file_len) e);
  sync_ok = λ w w' file path e. sym (ap (λ r. r.0.file_len) e);
}

in_memory-Serves : Serves in_memory size_of (λ f. f) (λ w f. w.position)
in_memory-Serves = record {
  opens = λ w path h. (w, tt, refl, refl, refl);
  seeks = λ w file n. (record w { position = n }, refl, refl, refl);
  reads = λ w file buffer h. (w, buffer, refl, refl);
}

abbrev empty_file : OneFile
empty_file = record { file_len = 0; position = 0 }

abbrev prepared_file : OneFile
prepared_file = record { file_len = file_size; position = 0 }

prepares : prepare_file in_memory empty_file tt ≡ (prepared_file, ok tt)
unfolding prepare_file
prepares = refl

read_block-prepare_file_example :
    (file_size ≤ file_size)
    × ((x : OneFile) × (read_block in_memory prepared_file tt 7 4096 random ≡ (x, ok 4096)))
read_block-prepare_file_example =
    read_block-prepare_file in_memory size_of (λ f. f) (λ w f. w.position) in_memory-IsFileSystem
      in_memory-Serves empty_file prepared_file tt 7 4096 random prepares seven

-- A read gives 512 bytes.
abbrev whole : ℕ → Outcome IoError ℕ
whole operation = ok 512

abbrev at : ℕ → List Read → Main → Run counter
at s hs m = record { semaphore = s; handles = hs; main = m }

abbrev begun : Run counter
begun = at 1 [] (spawning 0)

abbrev read_once : Run counter
read_once = at 1 (finished (some (ok 512)) ∷ []) (spawning 1)

abbrev summed : Run counter
summed = at 1 (finished (some (ok 512)) ∷ []) (summing 1 512)

abbrev ended : Run counter
ended = at 1 (finished (some (ok 512)) ∷ []) (returned (result counter random 512 1 1 512))

begins : run_benchmark counter random 512 1 1 ≡ some begun
unfolding run_benchmark
begins = refl

abbrev Moves : Run counter → Run counter → Type 0
Moves = Step counter random 512 1 1 whole

moves :
    (r r' : Run counter)
    → advance_from counter random 512 1 1 r.main r.semaphore r.handles ≡ some r'
    → Moves r r'
unfolding advance
moves r r' e = advances r' e

full_run : Steps counter random 512 1 1 whole begun 5 ended
full_run =
    then_step
      (then_step
        (then_step
          (then_step (then_step start (moves begun (at 0 (running 0 ∷ []) (spawning 1)) refl))
            (ends 0 0 refl))
          (moves read_once (at 1 (finished (some (ok 512)) ∷ []) (summing 0 0)) refl))
        (moves (at 1 (finished (some (ok 512)) ∷ []) (summing 0 0)) summed refl))
      (moves summed ended refl)

stands_still : (r : Run counter) → ¬ Moves ended r
unfolding advance
stands_still r (advances _ e) = absurd (ground (arith, e))
stands_still _ (ends zero operation e) = absurd (ground (arith, e))
stands_still _ (ends (suc i) operation e) = absurd (ground (arith, e))

running_count-queue_depth_example : (0 ≤ 1) × (5 ≤ 5)
running_count-queue_depth_example =
    running_count-queue_depth counter 100 (λ n. n) counter-IsSemaphore random 512 1 1 whole 5 begun
      ended (omega arith) begins full_run

run_benchmark-read_all_example :
    Answered (result counter random 512 1 1) (read_all whole 1 0 0) ended.main
run_benchmark-read_all_example =
    run_benchmark-read_all counter 100 (λ n. n) counter-IsSemaphore random 512 1 1 whole 5 begun
      ended (omega arith) (omega arith) begins full_run stands_still
