-- ===== src/Page/Bytes.antt =====
-- Reading bytes back: a write is seen where it was made, and nowhere else.
use native.Mathlib.Nat.{add-zero}
use native.Mathlib.Numerals.{add-one}
use task_pool_concurrency_im.Prelude.{
  ℕ, zero, suc, ◌+◌, ◌≤◌, ◌<◌, ◌≡◌, ◌⊎◌, ◌∙◌, refl, ap, List, [], ◌∷◌, arith, length, get_or, set,
  length-set, get_or-set, u16_mod,
}
use task_pool_concurrency_im.Page.{slice, copy_into, u16_at, u16_bytes, write_u16}

pub length-copy_into : (d : List ℕ) (o : ℕ) (bs : List ℕ) → length (copy_into d o bs) ≡ length d
unfolding copy_into
length-copy_into d o [] = refl
length-copy_into d o (b ∷ bs) = length-copy_into (set d o b) (suc o) bs ∙ length-set d o b

-- Two stretches of bytes do not meet.
abbrev pub Apart : ℕ → ℕ → ℕ → ℕ → Type 0
Apart o m a n = (a + n ≤ o) ⊎ (o + m ≤ a)

pub get_or-copy_into_other :
    (d : List ℕ) (o : ℕ) (bs : List ℕ) (j : ℕ)
    → o + length bs ≤ length d
    → (j < o) ⊎ (o + length bs ≤ j)
    → get_or (copy_into d o bs) j 0 ≡ get_or d j 0
unfolding copy_into
get_or-copy_into_other d o [] j h a = refl
get_or-copy_into_other d o (b ∷ bs) j h a =
    get_or-copy_into_other (set d o b) (suc o) bs j (omega (arith, length-set d o b)) (omega arith)
    ∙ ground (arith, get_or-set d o j b 0)

pub get_or-copy_into_self :
    (d : List ℕ) (o : ℕ) (bs : List ℕ) (k : ℕ)
    → o + length bs ≤ length d
    → k < length bs
    → get_or (copy_into d o bs) (o + k) 0 ≡ get_or bs k 0
unfolding copy_into
get_or-copy_into_self d o [] k h p = absurd (omega arith)
get_or-copy_into_self d o (b ∷ bs) zero h p =
    get_or-copy_into_other (set d o b) (suc o) bs (o + zero) (omega (arith, length-set d o b))
      (omega arith)
    ∙ ground (arith, get_or-set d o (o + zero) b 0)
get_or-copy_into_self d o (b ∷ bs) (suc k) h p =
    let e : o + suc k ≡ suc o + k = omega arith in
    rw e (
      get_or-copy_into_self (set d o b) (suc o) bs k (omega (arith, length-set d o b))
        (omega arith))

-- Equal bytes make equal slices.
pub slice_ext :
    (n : ℕ) (d e : List ℕ) (o a : ℕ)
    → ((k : ℕ) → k < n → get_or d (o + k) 0 ≡ get_or e (a + k) 0)
    → slice d o n ≡ slice e a n
unfolding slice
slice_ext zero d e o a h = refl
slice_ext (suc n) d e o a h =
    let head : get_or d o 0 ≡ get_or e a 0 = ground (arith, h 0) in
    rw head (
      ap (λ (l : List ℕ). get_or e a 0 ∷ l)
        (slice_ext n d e (suc o) (suc a) (λ k p. ground (arith, h (suc k)))))

slice-cons : (b : ℕ) (bs : List ℕ) (o n : ℕ) → slice (b ∷ bs) (suc o) n ≡ slice bs o n
unfolding slice
slice-cons b bs o zero = refl
slice-cons b bs o (suc n) = ap (λ (l : List ℕ). get_or bs o 0 ∷ l) (slice-cons b bs (suc o) n)

slice_whole : (bs : List ℕ) → slice bs 0 (length bs) ≡ bs
unfolding slice
slice_whole [] = refl
slice_whole (b ∷ bs) = ap (λ (l : List ℕ). b ∷ l) (slice-cons b bs 0 (length bs) ∙ slice_whole bs)

pub length-slice : (d : List ℕ) (o n : ℕ) → length (slice d o n) ≡ n
unfolding slice
length-slice d o zero = refl
length-slice d o (suc n) = ap suc (length-slice d (suc o) n)

pub slice-copy_into_other :
    (d : List ℕ) (o : ℕ) (bs : List ℕ) (a n : ℕ)
    → o + length bs ≤ length d
    → Apart o (length bs) a n
    → slice (copy_into d o bs) a n ≡ slice d a n
slice-copy_into_other d o bs a n h p =
    slice_ext n (copy_into d o bs) d a a
      (λ k q. get_or-copy_into_other d o bs (a + k) h (omega arith))

pub slice-copy_into_self :
    (d : List ℕ) (o : ℕ) (bs : List ℕ)
    → o + length bs ≤ length d
    → slice (copy_into d o bs) o (length bs) ≡ bs
slice-copy_into_self d o bs h =
    slice_ext (length bs) (copy_into d o bs) bs o 0
      (λ k q. get_or-copy_into_self d o bs k h q ∙ ground arith)
    ∙ slice_whole bs

pub u16_at-copy_into_other :
    (d : List ℕ) (o : ℕ) (bs : List ℕ) (a : ℕ)
    → o + length bs ≤ length d
    → Apart o (length bs) a 2
    → u16_at (copy_into d o bs) a ≡ u16_at d a
unfolding u16_at
u16_at-copy_into_other d o bs a h p = ground (
  arith,
  get_or-copy_into_other d o bs a h (omega arith),
  get_or-copy_into_other d o bs (suc a) h (omega arith),
)

pub length-write_u16 : (d : List ℕ) (o v : ℕ) → length (write_u16 d o v) ≡ length d
unfolding write_u16
length-write_u16 d o v = length-copy_into d o (u16_bytes v)

pub u16_at-write_u16_self :
    (d : List ℕ) (o v : ℕ) → o + 2 ≤ length d → v < u16_mod → u16_at (write_u16 d o v) o ≡ v
unfolding write_u16 u16_at
u16_at-write_u16_self d o v h p =
    let bs = u16_bytes v in
    omega (
      arith,
      ap (λ (j : ℕ). get_or (copy_into d o bs) j 0) (add-zero o),
      ap (λ (j : ℕ). get_or (copy_into d o bs) j 0) (add-one o),
      get_or-copy_into_self d o bs 0 (omega arith) (omega arith),
      get_or-copy_into_self d o bs 1 (omega arith) (omega arith),
    )

pub u16_at-write_u16_other :
    (d : List ℕ) (o v a : ℕ)
    → o + 2 ≤ length d
    → Apart o 2 a 2
    → u16_at (write_u16 d o v) a ≡ u16_at d a
unfolding write_u16
u16_at-write_u16_other d o v a h p = u16_at-copy_into_other d o (u16_bytes v) a (omega arith) p

pub slice-write_u16_other :
    (d : List ℕ) (o v a n : ℕ)
    → o + 2 ≤ length d
    → Apart o 2 a n
    → slice (write_u16 d o v) a n ≡ slice d a n
unfolding write_u16
slice-write_u16_other d o v a n h p = slice-copy_into_other d o (u16_bytes v) a n (omega arith) p
