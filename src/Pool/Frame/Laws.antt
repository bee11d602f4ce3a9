-- ===== src/Pool/Frame/Laws.antt =====
-- What `load_page` does, and when a frame is well-formed.
use task_pool_concurrency_im.Prelude.{
  ℕ, ◌≤◌, ◌≡◌, ◌≢◌, ◌⊎◌, inl, inr, refl, List, true, false, none, some, ok, err, invalid_data,
  arith, page_size, length, ℕ_discrete,
}
use task_pool_concurrency_im.Pool.Frame.{
  Frame, PageMeta, resident, load_page, is_dirty, is_pinned, is_referenced, is_resident,
  get_page_id, read_data,
}

-- A frame holds a page of bytes, its pin count fits a byte, and a resident frame has a page.
pub record IsFrame (f : Frame) : Type 0 where
  pub sized : length f.bytes ≡ page_size
  pub counted : (meta : PageMeta) → f.metadata ≡ some meta → meta.pin_count ≤ 255
  pub owned : f.state ≡ resident → f.metadata ≢ none

-- `load_page` takes exactly a page of bytes. The frame is then resident, holds the page's bytes and
-- its number, and is clean, unpinned and unreferenced; any other number of bytes is an error.
pub load_page_lem :
    (f : Frame) (page_id : ℕ) (bytes : List ℕ)
    → ((length bytes ≢ page_size) × (load_page f page_id bytes ≡ err invalid_data))
      ⊎ ((g : Frame) × (length bytes ≡ page_size)
          × (load_page f page_id bytes ≡ ok g)
          × IsFrame g
          × (get_page_id g ≡ ok page_id)
          × (read_data g ≡ bytes)
          × (is_resident g ≡ true)
          × (is_dirty g ≡ false)
          × (is_pinned g ≡ false)
          × (is_referenced g ≡ false))
unfolding load_page get_page_id read_data is_resident is_dirty is_pinned is_referenced
load_page_lem f page_id bytes = elim (ℕ_discrete (length bytes) page_size) [
  | yes e ↦ inr (
    loaded,
    e,
    ground arith,
    record { sized = e; counted = λ meta h. ground arith; owned = λ _ h. cc },
    refl,
    refl,
    refl,
    refl,
    refl,
    refl,
  )
  | no e ↦ inl (e, ground arith)
]
  where
    loaded : Frame
    loaded = record {
      bytes = bytes;
      metadata =
          some (record { page_id = page_id; pin_count = 0; dirty = false; reference = false });
      state = resident;
    }
