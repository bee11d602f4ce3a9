-- ===== src/Fsm/Bucket.antt =====
-- The buckets: eighths of a page.
use task_pool_concurrency_im.Prelude.{
  ℕ, ◌/◌, ◌≤◌, ◌<◌, ◌≡◌, ◌⊎◌, inl, inr, ok, err, arith, dec_lt, page_size,
}
use task_pool_concurrency_im.Fsm.{invalid_free_space, get_bucket_id}

-- A free space below the page size has the bucket of its eighth of a page, one of eight; any other free
-- space is refused.
pub get_bucket_id_lem :
    (free_space : ℕ)
    → ((free_space < page_size)
        × (get_bucket_id free_space ≡ ok (free_space / 512))
        × (free_space / 512 < 8))
      ⊎ ((page_size ≤ free_space) × (get_bucket_id free_space ≡ err invalid_free_space))
unfolding get_bucket_id
get_bucket_id_lem free_space = elim (dec_lt free_space page_size) [
  | yes h ↦ inl (h, ground arith, omega arith)
  | no h ↦ inr (omega arith, ground arith)
]
