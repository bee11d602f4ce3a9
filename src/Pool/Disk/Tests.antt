-- ===== src/Pool/Disk/Tests.antt =====
-- A file in memory, and a page written to it.
use task_pool_concurrency_im.Prelude.{
  ℕ, zero, suc, ◌+◌, ◌-◌, ◌≤◌, ◌<◌, ◌≡◌, refl, ap, subst, subst₂, ◌∙◌, List, [], ◌∷◌, Outcome, ok,
  IoError, arith, length, get_or, ltb, leb, if◌then◌else◌, page_size, replicate, length-replicate,
  min,
}
use task_pool_concurrency_im.Pool.Disk.{FileCalls, DiskManager, read_page, write_page}
use task_pool_concurrency_im.Pool.Disk.Files.{IsFile}
use task_pool_concurrency_im.Pool.Disk.Pages.{ReadsBack, read_page-write_page}

record MemoryFile : Type 0 where
  content : ℕ → ℕ
  size : ℕ
  position : ℕ

abbrev byte : MemoryFile → ℕ → ℕ
byte f j = if ltb j f.size then f.content j else 0

abbrev bytes_from : (ℕ → ℕ) → ℕ → ℕ → List ℕ
bytes_from content start zero = []
bytes_from content start (suc n) = content start ∷ bytes_from content (start + 1) n

abbrev written : MemoryFile → List ℕ → ℕ → ℕ
written f bytes j =
    if leb f.position j
    then (if ltb j (f.position + length bytes) then get_or bytes (j - f.position) 0 else byte f j)
    else byte f j

abbrev larger : ℕ → ℕ → ℕ
larger a b = if ltb a b then b else a

abbrev memory : FileCalls
memory = record {
  File = MemoryFile;
  open_file = λ path. ok (record { content = λ j. 0; size = 0; position = 0 });
  seek = λ f n. (record f { position = n }, ok tt);
  read = λ f n. (
    record f { position = f.position + min n (f.size - f.position) },
    ok (bytes_from f.content f.position (min n (f.size - f.position))),
  );
  write_all = λ f bytes. (
    record {
      content = written f bytes;
      size = larger f.size (f.position + length bytes);
      position = f.position + length bytes;
    },
    ok tt,
  );
  sync_all = λ f. (f, ok tt);
}

length-bytes_from : (c : ℕ → ℕ) (start n : ℕ) → length (bytes_from c start n) ≡ n
length-bytes_from c start zero = refl
length-bytes_from c start (suc n) = ap suc (length-bytes_from c (start + 1) n)

get_or-bytes_from :
    (c : ℕ → ℕ) (start n k : ℕ) → k < n → get_or (bytes_from c start n) k 0 ≡ c (start + k)
get_or-bytes_from c start zero k h = absurd (omega arith)
get_or-bytes_from c start (suc n) zero h = ground arith
get_or-bytes_from c start (suc n) (suc k) h =
    let e : start + 1 + k ≡ start + suc k = omega arith in
    ground (arith, get_or-bytes_from c (start + 1) n k, e)

abbrev chunk : MemoryFile → ℕ → List ℕ
chunk f n = bytes_from f.content f.position (min n (f.size - f.position))

abbrev moved : MemoryFile → ℕ → MemoryFile
moved f n = record f { position = f.position + min n (f.size - f.position) }

-- What a read does in memory.
abbrev ReadOk : MemoryFile → ℕ → MemoryFile → List ℕ → Type 0
ReadOk f n g bytes =
    (length bytes ≤ n)
    × (g.position ≡ f.position + length bytes)
    × ((j : ℕ) → byte g j ≡ byte f j)
    × ((k : ℕ) → k < length bytes → get_or bytes k 0 ≡ byte f (f.position + k))
    × (length bytes ≡ 0 → 0 < n → (j : ℕ) → f.position ≤ j → byte f j ≡ 0)

chunk-ReadOk : (f : MemoryFile) (n : ℕ) → ReadOk f n (moved f n) (chunk f n)
chunk-ReadOk f n =
    let m : ℕ = min n (f.size - f.position) in
    let l = length-bytes_from f.content f.position m in
    (
      omega (arith, l),
      omega (arith, l),
      λ j. refl,
      λ k h. get_or-bytes_from f.content f.position m k (omega (arith, l)) ∙ ground (arith, l),
      λ z p j q. ground (arith, l),
    )

memory_read-ReadOk :
    (f g : MemoryFile) (n : ℕ) (bytes : List ℕ)
    → memory.read f n ≡ (g, ok bytes)
    → ReadOk f n g bytes
memory_read-ReadOk f g n bytes h =
    let same_file : moved f n ≡ g = ap (λ (x : MemoryFile × Outcome IoError (List ℕ)). x.0) h in
    let same_bytes : chunk f n ≡ bytes = ground arith in
    subst₂ (ReadOk f n) same_file same_bytes (chunk-ReadOk f n)

memory_write :
    (f g : MemoryFile) (bytes : List ℕ)
    → memory.write_all f bytes ≡ (g, ok tt)
    → (j : ℕ) → byte g j ≡ written f bytes j
memory_write f g bytes h j =
    let same : (memory.write_all f bytes).0 ≡ g =
      ap (λ (x : MemoryFile × Outcome IoError (Unit {0})). x.0) h in
    subst (λ (g : MemoryFile). byte g j ≡ written f bytes j) same (ground arith)

memory-IsFile : IsFile memory byte (λ f. f.position)
memory-IsFile = record {
  seek_ok = λ f g n h. (ground arith, λ j. ground arith);
  read_ok = λ f g n bytes h. memory_read-ReadOk f g n bytes h;
  write_ok = λ f g bytes h j. memory_write f g bytes h j;
  sync_ok = λ f g h j. ground arith;
  seek_ends = λ f n h. cc;
  read_ends = λ f n h. cc;
}

-- A page of sevens, written to page 1 of an empty file.
abbrev sevens : List ℕ
sevens = replicate page_size 7

abbrev empty_disk : DiskManager memory
empty_disk = record { file = record { content = λ j. 0; size = 0; position = 0 } }

abbrev after : MemoryFile
after = (write_page memory empty_disk 1 sevens).0

sevens_written : write_page memory empty_disk 1 sevens ≡ (after, ok tt)
unfolding write_page
sevens_written = ground (arith, length-replicate {A = ℕ} page_size 7)

read_page-write_page_example :
    ReadsBack memory byte
      (λ f. f.position)
      memory-IsFile
      empty_disk
      1
      sevens
      1
      (read_page memory (record { file = after }) 1 (replicate page_size 0))
read_page-write_page_example =
    read_page-write_page memory byte (λ f. f.position) memory-IsFile empty_disk after 1 sevens 1
      (replicate page_size 0) sevens_written (length-replicate page_size 0)
