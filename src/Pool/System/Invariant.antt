-- ===== src/Pool/System/Invariant.antt =====
-- Which frame is whose: every frame has a role, and the pool, the threads and the roles agree.
use task_pool_concurrency_im.Prelude.{
  ℕ, ◌<◌, ◌≡◌, ◌⊎◌, List, [], ◌∷◌, Bool, true, false, Option, none, some, length, ◌==◌,
  if◌then◌else◌,
}
use task_pool_concurrency_im.Prelude.Maps.{contains_key}
use task_pool_concurrency_im.Pool.Frame.{Frame, free, reserved, resident, is_pinned}
use task_pool_concurrency_im.Pool.Clock.Scan.{frame_at}
use task_pool_concurrency_im.Pool.PageTable.Laws.{frame_of}
use task_pool_concurrency_im.Pool.Manager.{BufferPoolManager}
use task_pool_concurrency_im.Pool.System.{
  Job, idle, loading, filled, evicting, flushing, deleting, creating,
}

abbrev pub page_of : Frame → Option ℕ
page_of f = elim f.metadata [ none ↦ none | some meta ↦ some meta.page_id ]

-- A frame is free; or it has a page of the table, and may be reserved by a thread that replaces it; or
-- a thread has it for a page that is not in the table yet.
pub data Role : Type 0 where
  vacant : Role
  mapped : ℕ → Role
  busy : ℕ → ℕ → Role
  held : ℕ → Role
  full : ℕ → ℕ → Role

abbrev pub role_page : Role → Option ℕ
role_page (mapped p) = some p
role_page (busy p t) = some p
role_page _ = none

abbrev pub owner : Role → Option ℕ
owner (busy p t) = some t
owner (held t) = some t
owner (full p t) = some t
owner _ = none

abbrev pub queued : ℕ → List ℕ → Bool
queued i [] = false
queued i (j ∷ js) = if i == j then true else queued i js

abbrev pub Distinct : List ℕ → Type 0
Distinct [] = Unit
Distinct (i ∷ is) = (queued i is ≡ false) × Distinct is

abbrev pub Fits : BufferPoolManager → ℕ → Frame → Role → Type 0
Fits s i f vacant = (f.state ≡ free) × (queued i s.free_frames.guarded ≡ true)
Fits s i f (mapped p) =
    (f.state ≡ resident) × (page_of f ≡ some p) × (frame_of s.page_table p ≡ some i)
Fits s i f (busy p t) =
    (f.state ≡ reserved) × (page_of f ≡ some p) × (frame_of s.page_table p ≡ some i)
Fits s i f (held t) = f.state ≡ reserved
Fits s i f (full p t) = (f.state ≡ resident) × (page_of f ≡ some p) × (is_pinned f ≡ true)

-- The page that a thread is about to bring in is not in the table, and nobody else may bring it in.
abbrev pub Awaited : BufferPoolManager → ℕ → Type 0
Awaited s p =
    (frame_of s.page_table p ≡ none)
    × (contains_key s.in_flight_loads p ≡ true)
    × (p < s.next_page_id)

abbrev pub JobFits : BufferPoolManager → (ℕ → Role) → ℕ → Job → Type 0
JobFits s roles t idle = Unit
JobFits s roles t (loading p i) = (roles i ≡ held t) × (i < length s.frames) × Awaited s p
JobFits s roles t (filled p i) = (roles i ≡ full p t) × (i < length s.frames) × Awaited s p
JobFits s roles t (evicting p v) =
    (roles v.frame_id ≡ busy v.old_page_id t) × (v.frame_id < length s.frames) × Awaited s p
JobFits s roles t (flushing p i) = (roles i ≡ busy p t) × (i < length s.frames)
JobFits s roles t (deleting p i) = (roles i ≡ busy p t) × (i < length s.frames)
JobFits s roles t (creating n v) =
    (roles v.frame_id ≡ busy v.old_page_id t)
    × (v.frame_id < length s.frames)
    × (n ≡ s.next_page_id)

abbrev pub load_of : Job → Option ℕ
load_of (loading p i) = some p
load_of (filled p i) = some p
load_of (evicting p v) = some p
load_of _ = none

pub record IsSound (s : BufferPoolManager) (jobs : ℕ → Job) (roles : ℕ → Role) : Type 0 where
  pub table_sound : s.page_table.poisoned ≡ false
  pub queue_sound : s.free_frames.poisoned ≡ false
  pub hand : (s.frames ≡ []) ⊎ (s.clock_replacer.clock_hand < length s.frames)
  pub frames : (i : ℕ) → i < length s.frames → Fits s i (frame_at s.frames i) (roles i)
  pub pages :
      (p i : ℕ)
      → frame_of s.page_table p ≡ some i
      → (i < length s.frames) × (role_page (roles i) ≡ some p)
  pub queue :
      (i : ℕ) → queued i s.free_frames.guarded ≡ true → (i < length s.frames) × (roles i ≡ vacant)
  pub distinct : Distinct s.free_frames.guarded
  pub threads : (t : ℕ) → JobFits s roles t (jobs t)
  pub loads : (t u p : ℕ) → load_of (jobs t) ≡ some p → load_of (jobs u) ≡ some p → t ≡ u
  pub below : (p i : ℕ) → frame_of s.page_table p ≡ some i → p < s.next_page_id
