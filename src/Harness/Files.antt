-- ===== src/Harness/Files.antt =====
-- The test file: how it is made, and that its blocks can be read.
use task_pool_concurrency_im.Prelude.{
  ℕ, ◌+◌, ◌≤◌, ◌<◌, ◌≡◌, refl, ap, sym, ◌∙◌, subst, arith, List, Bool, true, false, Outcome, ok,
  err, panic, IoError, length, length-replicate, replicate, leb, if◌then◌else◌, ok-injective, ◌>>=◌,
}
use task_pool_concurrency_im.Harness.{
  FileSystem, file_size, AccessPattern, then_call, read_block, large_enough, prepare_file,
}
use task_pool_concurrency_im.Harness.Offsets.{IsRead, offset_lem}

-- What the standard library documents: `metadata` tells the size of a file, `set_len` sets it, and
-- `sync_all` keeps it. A handle is one of a path.
pub record IsFileSystem (fs : FileSystem) (size : fs.World → fs.PathName → ℕ)
    (path_of : fs.File → fs.PathName) : Type 0 where
  pub metadata_ok :
      (w : fs.World) (path : fs.PathName) (n : ℕ) → fs.metadata_len w path ≡ ok n → size w path ≡ n
  pub open_ok :
      (w w' : fs.World) (path : fs.PathName) (file : fs.File)
      → fs.open_to_write w path ≡ (w', ok file)
      → path_of file ≡ path
  pub set_len_ok :
      (w w' : fs.World) (file : fs.File) (n : ℕ)
      → fs.set_len w file n ≡ (w', ok tt)
      → size w' (path_of file) ≡ n
  pub sync_ok :
      (w w' : fs.World) (file : fs.File) (path : fs.PathName)
      → fs.sync_all w file ≡ (w', ok tt)
      → size w' path ≡ size w path

-- Of a device without errors: a file that is there can be opened and its position be set, which changes no
-- size, and `read_exact` fills a buffer with what follows the position, where the file has so much.
pub record Serves (fs : FileSystem) (size : fs.World → fs.PathName → ℕ)
    (path_of : fs.File → fs.PathName) (pos : fs.World → fs.File → ℕ) : Type 0 where
  pub opens :
      (w : fs.World) (path : fs.PathName)
      → 0 < size w path
      → (w' : fs.World) × (file : fs.File) × (fs.open_to_read w path ≡ (w', ok file))
        × (path_of file ≡ path)
        × (size w' path ≡ size w path)
  pub seeks :
      (w : fs.World) (file : fs.File) (n : ℕ)
      → (w' : fs.World) × (fs.seek w file n ≡ (w', ok tt))
        × (pos w' file ≡ n)
        × (size w' (path_of file) ≡ size w (path_of file))
  pub reads :
      (w : fs.World) (file : fs.File) (buffer : List ℕ)
      → pos w file + length buffer ≤ size w (path_of file)
      → (w' : fs.World) × (filled : List ℕ) × (fs.read_exact w file buffer ≡ (w', filled, ok tt))
        × (length filled ≡ length buffer)

read_block_lem :
    (fs : FileSystem) (size : fs.World → fs.PathName → ℕ) (path_of : fs.File → fs.PathName)
    (pos : fs.World → fs.File → ℕ)
    → Serves fs size path_of pos
    → (w : fs.World) (path : fs.PathName) (operation block_size : ℕ) (pattern : AccessPattern)
    → file_size ≤ size w path
    → IsRead operation block_size
    → (w' : fs.World) × (read_block fs w path operation block_size pattern ≡ (w', ok block_size))
unfolding read_block
read_block_lem fs size path_of pos serves w path operation block_size pattern h r =
    let (start, at, _, inside) = offset_lem pattern operation block_size r in
    let (w₁, file, e₁, of, s₁) = serves.opens w path (omega (arith, h)) in
    let (w₂, e₂, p, s₂) = serves.seeks w₁ file start in
    let l = length-replicate {A = ℕ} block_size 0 in
    let room : pos w₂ file + length (replicate block_size 0) ≤ size w₂ (path_of file) =
      omega (arith, p, l, s₂, ap (size w₁) of, s₁, h, inside) in
    let (w₃, filled, e₃, n) = serves.reads w₂ file (replicate block_size 0) room in
    (w₃, rw (e₁, at, e₂, e₃) (ap (λ k. (w₃, ok k)) (n ∙ l)))

-- A call that ends well has got past its first part.
then_call-ok :
    (fs : FileSystem) {A B : Type 0} (r : fs.World × Outcome IoError A)
    (f : fs.World → A → fs.World × Outcome IoError B) (w' : fs.World) (b : B)
    → then_call fs r f ≡ (w', ok b)
    → (w : fs.World) × (a : A) × (r ≡ (w, ok a)) × (f w a ≡ (w', ok b))
then_call-ok fs (w, ok a) f w' b e = (w, a, refl, e)
then_call-ok fs (w, err x) f w' b e = absurd (ground (arith, e))
then_call-ok fs (w, panic) f w' b e = absurd (ground (arith, e))

module _ (fs : FileSystem) (size : fs.World → fs.PathName → ℕ) (path_of : fs.File → fs.PathName)
    (is : IsFileSystem fs size path_of) where
  made-size :
      (w w' : fs.World) (path : fs.PathName)
      → then_call fs
          (fs.open_to_write w path)
          (λ w file. then_call fs (fs.set_len w file file_size) (λ w u. fs.sync_all w file))
        ≡ (w', ok tt)
      → size w' path ≡ file_size
  made-size w w' path e =
      let (w₁, file, o, e₁) = then_call-ok fs (fs.open_to_write w path) _ w' tt e in
      let (w₂, u, l, e₂) = then_call-ok fs (fs.set_len w₁ file file_size) _ w' tt e₁ in
      is.sync_ok w₂ w' file path e₂
      ∙ ap (size w₂) (sym (is.open_ok w w₁ path file o))
      ∙ is.set_len_ok w₁ w₂ file file_size l

  large_enough-size :
      (w : fs.World) (path : fs.PathName)
      → large_enough fs w path ≡ ok true
      → file_size ≤ size w path
  large_enough-size w path e = measured (fs.exists w path) (fs.metadata_len w path) refl e
    where
      measured :
          (there : Bool) (r : Outcome IoError ℕ)
          → fs.metadata_len w path ≡ r
          → (if there then (r >>= λ len. ok (leb file_size len)) else ok false) ≡ ok true
          → file_size ≤ size w path
      measured false r m e = absurd (ground (arith, ok-injective e))
      measured true (ok n) m e = ground (arith, ok-injective e, is.metadata_ok w path n m)
      measured true (err x) m e = absurd (ground (arith, e))
      measured true panic m e = absurd (ground (arith, e))

  pub prepared-size :
      (w w' : fs.World) (path : fs.PathName)
      → prepare_file fs w path ≡ (w', ok tt)
      → file_size ≤ size w' path
  unfolding prepare_file
  prepared-size w w' path e =
      let (w₁, large, l, e₁) = then_call-ok fs (w, large_enough fs w path) _ w' tt e in
      by_size large (ap (λ r. r.1) l) (
        subst
          (λ v.
            (if large
              then (v, ok tt)
              else then_call fs (fs.open_to_write v path) (λ w file.
                then_call fs (fs.set_len w file file_size) (λ w u. fs.sync_all w file)))
            ≡ (w', ok tt))
          (sym (ap (λ r. r.0) l)) e₁)
    where
      by_size :
          (large : Bool)
          → large_enough fs w path ≡ ok large
          → (if large
              then (w, ok tt)
              else then_call fs (fs.open_to_write w path) (λ w file.
                then_call fs (fs.set_len w file file_size) (λ w u. fs.sync_all w file)))
            ≡ (w', ok tt)
          → file_size ≤ size w' path
      by_size true l e =
          subst (λ v. file_size ≤ size v path) (ap (λ r. r.0) e) (large_enough-size w path l)
      by_size false l e = omega (arith, made-size w w' path e)

-- After a `prepare_file` that succeeds, the file has at least 4 GiB, whether it was there before or not;
-- and on a device without errors, `read_block` then reads a whole block, in both patterns, for a size of
-- blocks that is not 0 and at most 4 GiB, and an operation whose product with 7919 is below 2 ^ 64.
pub read_block-prepare_file :
    (fs : FileSystem) (size : fs.World → fs.PathName → ℕ) (path_of : fs.File → fs.PathName)
    (pos : fs.World → fs.File → ℕ)
    → IsFileSystem fs size path_of
    → Serves fs size path_of pos
    → (w w' : fs.World) (path : fs.PathName) (operation block_size : ℕ) (pattern : AccessPattern)
    → prepare_file fs w path ≡ (w', ok tt)
    → IsRead operation block_size
    → (file_size ≤ size w' path)
      × ((x : fs.World) × (read_block fs w' path operation block_size pattern ≡ (x, ok block_size)))
read_block-prepare_file fs size path_of pos is serves w w' path operation block_size pattern e r =
    let h = prepared-size fs size path_of is w w' path e in
    (h, read_block_lem fs size path_of pos serves w' path operation block_size pattern h r)
