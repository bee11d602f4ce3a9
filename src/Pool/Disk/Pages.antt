-- ===== src/Pool/Disk/Pages.antt =====
-- Reading and writing whole pages of a file.
use task_pool_concurrency_im.Prelude.{
  ℕ, zero, suc, ◌+◌, ◌-◌, ◌≤◌, ◌<◌, ◌≡◌, ◌≢◌, ◌⊎◌, ◌∙◌, sym, ap, inl, inr, refl, List, true,
  Outcome, ok, err, panic, IoError, arith, length, get_or, ltb, leb, page_size, ◌==◌, dec_lt,
  if◌then◌else◌, Outcome-cases, ℕ_discrete, replicate, length-replicate, get_or-replicate,
  get_or_ext,
}
use task_pool_concurrency_im.Page.{copy_into}
use task_pool_concurrency_im.Page.Bytes.{
  length-copy_into, get_or-copy_into_other, get_or-copy_into_self,
}
use task_pool_concurrency_im.Pool.Disk.{
  FileCalls, DiskManager, Reading, read_loop, read_page, write_page, offset, then_file,
}
use task_pool_concurrency_im.Pool.Disk.Files.{IsFile}

module _ (calls : FileCalls) (byte : calls.File → ℕ → ℕ) (pos : calls.File → ℕ)
    (lawful : IsFile calls byte pos) where
  open lawful use {read_ok, read_ends, seek_ok, seek_ends, write_ok, sync_ok}

  -- A buffer has the bytes of the file `f` from an offset on, and the file `g` has the bytes of `f`.
  abbrev pub Holds : calls.File → ℕ → calls.File → List ℕ → Type 0
  Holds f start g buf =
      (length buf ≡ page_size)
      × ((k : ℕ) → k < page_size → get_or buf k 0 ≡ byte f (start + k))
      × ((j : ℕ) → byte g j ≡ byte f j)

  -- A read ends; with an error, or with the buffer filled.
  abbrev pub Reads : calls.File → ℕ → Reading calls → Type 0
  Reads f start (g, buf, ok u) = Holds f start g buf
  Reads f start (g, buf, err e) = Unit
  Reads f start (g, buf, panic) = ⊥

  -- The loop, when `total` bytes have been read.
  record Loop (f : calls.File) (start : ℕ) (g : calls.File) (buf : List ℕ) (total : ℕ)
      : Type 0 where
    sized : length buf ≡ page_size
    within : total ≤ page_size
    placed : pos g ≡ start + total
    same : (j : ℕ) → byte g j ≡ byte f j
    got : (k : ℕ) → k < total → get_or buf k 0 ≡ byte f (start + k)
    blank : (k : ℕ) → total ≤ k → get_or buf k 0 ≡ 0

  chunk-Loop :
      (f : calls.File) (start : ℕ) (g g' : calls.File) (buf bytes : List ℕ) (total : ℕ)
      → Loop f start g buf total
      → calls.read g (page_size - total) ≡ (g', ok bytes)
      → Loop f start g' (copy_into buf total bytes) (total + length bytes)
  chunk-Loop f start g g' buf bytes total l r =
      let (few, moved, kept, new, _) = read_ok g g' (page_size - total) bytes r in
      let fits : total + length bytes ≤ length buf = omega (arith, l.within, l.sized) in
      record {
        sized = length-copy_into buf total bytes ∙ l.sized;
        within = omega (arith, l.sized);
        placed = omega (arith, l.placed);
        same = λ j. kept j ∙ l.same j;
        got = λ k p. elim (dec_lt k total) [
          | yes q ↦ get_or-copy_into_other buf total bytes k fits (inl q) ∙ l.got k q
          | no q ↦
              let e : total + (k - total) ≡ k = omega arith in
              let here : pos g + (k - total) ≡ start + k = omega (arith, l.placed) in
              let inside : k - total < length bytes = omega arith in
              ap (λ (i : ℕ). get_or (copy_into buf total bytes) i 0) (sym e)
              ∙ get_or-copy_into_self buf total bytes (k - total) fits inside
              ∙ new (k - total) inside
              ∙ ap (byte g) here
              ∙ l.same (start + k)
        ];
        blank =
            λ k p. get_or-copy_into_other buf total bytes k fits (inr p) ∙ l.blank k (omega arith);
      }

  full-Holds :
      (f : calls.File) (start : ℕ) (g g' : calls.File) (buf : List ℕ) (total : ℕ)
      → Loop f start g buf total
      → ((j : ℕ) → byte g' j ≡ byte g j)
      → (total ≡ page_size) ⊎ ((j : ℕ) → pos g ≤ j → byte g j ≡ 0)
      → Holds f start g' buf
  full-Holds f start g g' buf total l kept end = (
    l.sized,
    λ k p. elim (dec_lt k total) [
      | yes q ↦ l.got k q
      | no q ↦ elim end [
        | inl e ↦ absurd (omega arith)
        | inr past ↦
            l.blank k (omega arith)
            ∙ sym (past (start + k) (omega (arith, l.placed)))
            ∙ l.same (start + k)
      ]
    ],
    λ j. kept j ∙ l.same j,
  )

  read_loop-Reads :
      (fuel : ℕ) (f : calls.File) (start : ℕ) (g : calls.File) (buf : List ℕ) (total : ℕ)
      → page_size - total < fuel
      → Loop f start g buf total
      → Reads f start (read_loop calls fuel g buf total)
  unfolding read_loop
  read_loop-Reads zero f start g buf total w l = absurd (omega arith)
  read_loop-Reads (suc fuel) f start g buf total w l = elim (dec_lt total page_size) [
    | no p ↦
        let all : total ≡ page_size = omega (arith, l.within) in
        let run : read_loop calls (suc fuel) g buf total ≡ (g, buf, ok tt) = ground arith in
        rw run (full-Holds f start g g buf total l (λ j. refl) (inl all))
    | yes p ↦
        let n : ℕ = page_size - total in
        let g' = (calls.read g n).0 in
        elim (Outcome-cases (calls.read g n).1) [
          | inl (bytes, e) ↦
              let ran : calls.read g n ≡ (g', ok bytes) =
                ap (λ (x : Outcome IoError (List ℕ)). (g', x)) e in
              let (few, moved, kept, new, eof) = read_ok g g' n bytes ran in
              elim (ℕ_discrete (length bytes) 0) [
                | yes z ↦
                    let run : read_loop calls (suc fuel) g buf total ≡ (g', buf, ok tt) =
                      ground (arith, e) in
                    rw run (full-Holds f start g g' buf total l kept (inr (eof z (omega arith))))
                | no z ↦
                    let buf' = copy_into buf total bytes in
                    let run : read_loop calls (suc fuel) g buf total
                        ≡ read_loop calls fuel g' buf' (total + length bytes) =
                      ground (arith, e) in
                    rw run (
                      read_loop-Reads fuel f start g' buf' (total + length bytes) (omega arith)
                        (chunk-Loop f start g g' buf bytes total l ran))
              ]
          | inr (inl (x, e)) ↦
              let run : read_loop calls (suc fuel) g buf total ≡ (g', buf, err x) =
                ground (arith, e) in
              rw run tt
          | inr (inr e) ↦ absurd (read_ends g n e)
        ]
  ]

  start_Loop :
      (f g : calls.File) (start n : ℕ)
      → n ≡ page_size
      → pos g ≡ start
      → ((j : ℕ) → byte g j ≡ byte f j)
      → Loop f start g (replicate n 0) 0
  start_Loop f g start n e at kept = record {
    sized = length-replicate n 0 ∙ e;
    within = omega arith;
    placed = omega arith;
    same = kept;
    got = λ k p. absurd (omega arith);
    blank = λ k p. get_or-replicate n k 0;
  }

  -- `read_page` into a buffer of a page ends; unless the file gives an error, it fills the buffer with
  -- the bytes of the page, zeros past the end of the file, and leaves the file's bytes alone.
  pub read_page-Reads :
      (d : DiskManager calls) (page_id : ℕ) (buf : List ℕ)
      → length buf ≡ page_size
      → Reads d.file (offset calls page_id) (read_page calls d page_id buf)
  unfolding read_page
  read_page-Reads d page_id buf e =
      let test : (length buf == page_size) ≡ true = ground arith in
      let start = offset calls page_id in
      let g = (calls.seek d.file start).0 in
      rw test (elim (Outcome-cases (calls.seek d.file start).1) [
        | inl (u, s) ↦
            let ran : calls.seek d.file start ≡ (g, ok tt) =
              ap (λ (x : Outcome IoError (Unit {0})). (g, x)) s in
            let (at, kept) = seek_ok d.file g start ran in
            rw ran (
              read_loop-Reads (page_size + 1) d.file start g (replicate (length buf) 0) 0
                (omega arith) (start_Loop d.file g start (length buf) e at kept))
        | inr (inl (x, s)) ↦
            let ran : calls.seek d.file start ≡ (g, err x) =
              ap (λ (x : Outcome IoError (Unit {0})). (g, x)) s in
            rw ran tt
        | inr (inr s) ↦ absurd (seek_ends d.file start s)
      ])

  -- The bytes of a file after a page has been written to it.
  abbrev with_page : calls.File → ℕ → List ℕ → ℕ → ℕ
  with_page f start buf j =
      if leb start j
      then (if ltb j (start + length buf) then get_or buf (j - start) 0 else byte f j)
      else byte f j

  then_file-ok :
      (r : calls.File × Outcome IoError (Unit {0}))
      (call : calls.File → calls.File × Outcome IoError (Unit {0})) (g : calls.File)
      → then_file calls r call ≡ (g, ok tt)
      → (f : calls.File) × (r ≡ (f, ok tt)) × (call f ≡ (g, ok tt))
  then_file-ok (f, ok u) call g h = (f, refl, h)
  then_file-ok (f, err e) call g h = absurd (ground arith)
  then_file-ok (f, panic) call g h = absurd (ground arith)

  write_page_lem :
      (d : DiskManager calls) (g : calls.File) (page_id : ℕ) (buf : List ℕ)
      → write_page calls d page_id buf ≡ (g, ok tt)
      → (length buf ≡ page_size)
        × ((j : ℕ) → byte g j ≡ with_page d.file (offset calls page_id) buf j)
  unfolding write_page
  write_page_lem d g page_id buf h = elim (ℕ_discrete (length buf) page_size) [
    | no n ↦ absurd (ground arith)
    | yes e ↦
        let start = offset calls page_id in
        let both = then_file calls (calls.seek d.file start) (λ file. calls.write_all file buf) in
        let ran : then_file calls both calls.sync_all ≡ (g, ok tt) = ground arith in
        let (f2, first, synced) = then_file-ok both calls.sync_all g ran in
        let (f1, sought, wrote) =
          then_file-ok (calls.seek d.file start) (λ file. calls.write_all file buf) f2 first in
        let (at, kept) = seek_ok d.file f1 start sought in
        let new = write_ok f1 f2 buf wrote in
        (e, λ j. sync_ok f2 g synced j ∙ new j ∙ ground (arith, at, kept j))
  ]

  -- What a read of page `q` gives once page `p` has been written with these bytes.
  abbrev pub ReadsBack : DiskManager calls → ℕ → List ℕ → ℕ → Reading calls → Type 0
  ReadsBack d p bytes q (g, buf, ok u) =
      ((q ≡ p) × (buf ≡ bytes))
      ⊎ ((q ≢ p) × ((k : ℕ) → k < page_size → get_or buf k 0 ≡ byte d.file (offset calls q + k)))
  ReadsBack d p bytes q (g, buf, err e) = Unit
  ReadsBack d p bytes q (g, buf, panic) = ⊥

  Reads-ReadsBack :
      (d : DiskManager calls) (g : calls.File) (p : ℕ) (bytes : List ℕ) (q : ℕ) (r : Reading calls)
      → length bytes ≡ page_size
      → ((j : ℕ) → byte g j ≡ with_page d.file (offset calls p) bytes j)
      → Reads g (offset calls q) r
      → ReadsBack d p bytes q r
  Reads-ReadsBack d g p bytes q (g', buf, err e) l w h = tt
  Reads-ReadsBack d g p bytes q (g', buf, panic) l w h = elim h [ ]
  Reads-ReadsBack d g p bytes q (g', buf, ok u) l w (sized, read, kept) = elim (ℕ_discrete q p) [
    | yes e ↦ inl (
      e,
      get_or_ext 0 buf bytes (sized ∙ sym l) (λ k h.
          read k (omega arith) ∙ ground (arith, w (offset calls q + k), ap (get_or bytes) e, e)),
    )
    | no n ↦ inr (n, λ k h. read k h ∙ ground (arith, w (offset calls q + k)))
  ]

  -- On a file that does what `IsFile` says: once `write_page` has succeeded, `read_page` into a buffer of
  -- a page gives that page as it was written and every other page as it was, or an error.
  pub read_page-write_page :
      (d : DiskManager calls) (g : calls.File) (p : ℕ) (bytes : List ℕ) (q : ℕ) (buf : List ℕ)
      → write_page calls d p bytes ≡ (g, ok tt)
      → length buf ≡ page_size
      → ReadsBack d p bytes q (read_page calls (record { file = g }) q buf)
  read_page-write_page d g p bytes q buf h e =
      let (l, w) = write_page_lem d g p bytes h in
      Reads-ReadsBack d g p bytes q (read_page calls (record { file = g }) q buf) l w
        (read_page-Reads (record { file = g }) q buf e)
