-- ===== src/Prelude/Calls.antt =====
-- How a Rust call ends: `Ok`, `Err`, or a panic (an index out of range, an arithmetic overflow, an
-- `unwrap` of nothing), under overflow checks, as in a debug build.
use Prim.Native.Nat.{ℕ}
use mathlib.Core.Path.{◌≡◌, refl, ap}
use mathlib.Core.Bool.{Bool, true, false}
use mathlib.Core.Logic.{◌⊎◌, inl, inr}
use task_pool_concurrency_im.Prelude.Tests.{if◌then◌else◌}

pub data Outcome {ℓ κ} (E : Type ℓ) (A : Type κ) : Type (ℓ ⊔ κ) where
  ok : A → Outcome E A
  err : E → Outcome E A
  panic : Outcome E A

infixl 5 ◌>>=◌ ◌>>◌
abbrev pub ◌>>=◌ {ℓ κ μ} :
    {E : Type ℓ} {A : Type κ} {B : Type μ} → Outcome E A → (A → Outcome E B) → Outcome E B
ok a >>= f = f a
err e >>= f = err e
panic >>= f = panic

abbrev pub ◌>>◌ {ℓ μ} : {E : Type ℓ} {B : Type μ} → Outcome E (Unit {0}) → Outcome E B → Outcome E B
m >> k = m >>= λ _. k

-- Rust's `map_err`.
abbrev pub map_err {ℓ κ μ} :
    {E : Type ℓ} {F : Type κ} {A : Type μ} → (E → F) → Outcome E A → Outcome F A
map_err f (ok a) = ok a
map_err f (err e) = err (f e)
map_err f panic = panic

abbrev pub guard {ℓ} : {E : Type ℓ} → Bool → E → Outcome E (Unit {0})
guard true e = ok tt
guard false e = err e

-- What may panic: the test is the condition under which it does not.
abbrev pub assert {ℓ} : {E : Type ℓ} → Bool → Outcome E (Unit {0})
assert true = ok tt
assert false = panic

-- `std::io::Error`, told apart by its kind; the message texts are left out.
pub data IoError : Type 0 where
  invalid_input invalid_data not_found other : IoError

abbrev pub u16_mod : ℕ
u16_mod = 65536

abbrev pub page_size : ℕ
page_size = 4096

-- What a `Mutex` or an `RwLock` guards. A lock is poisoned when a thread panicked while it held it,
-- and whoever asks for it then gets an error.
pub record Lock {ℓ} (A : Type ℓ) : Type ℓ where
  pub poisoned : Bool
  pub guarded : A

abbrev pub acquire {ℓ κ} : {E : Type ℓ} {A : Type κ} → Lock A → E → Outcome E A
acquire l e = if l.poisoned then err e else ok l.guarded

-- The call returns `Ok`, with a value that satisfies `P`.
abbrev pub Returns {ℓ κ} : {E : Type ℓ} {A : Type κ} → (A → Type 0) → Outcome E A → Type 0
Returns P (ok a) = P a
Returns P (err e) = ⊥
Returns P panic = ⊥

pub Returns-map {ℓ κ} :
    {E : Type ℓ} {A : Type κ} (P Q : A → Type 0) (r : Outcome E A)
    → ((a : A) → P a → Q a)
    → Returns P r
    → Returns Q r
Returns-map P Q (ok a) f h = f a h
Returns-map P Q (err e) f h = h
Returns-map P Q panic f h = h

-- A call that returns has a value.
pub Returns-value {ℓ κ} :
    {E : Type ℓ} {A : Type κ} (P : A → Type 0) (r : Outcome E A)
    → Returns P r
    → (a : A) × (r ≡ ok a) × P a
Returns-value P (ok a) h = (a, refl, h)
Returns-value P (err e) h = absurd h
Returns-value P panic h = absurd h

pub Outcome-cases {ℓ κ} :
    {E : Type ℓ} {A : Type κ} (r : Outcome E A)
    → ((a : A) × (r ≡ ok a)) ⊎ ((e : E) × (r ≡ err e)) ⊎ (r ≡ panic)
Outcome-cases (ok a) = inl (a, refl)
Outcome-cases (err e) = inr (inl (e, refl))
Outcome-cases panic = inr (inr refl)

abbrev value_or {ℓ κ} : {E : Type ℓ} {A : Type κ} → A → Outcome E A → A
value_or d (ok a) = a
value_or d (err e) = d
value_or d panic = d

pub ok-injective {ℓ κ} :
    {E : Type ℓ} {A : Type κ} {a b : A} → ◌≡◌ {A = Outcome E A} (ok a) (ok b) → a ≡ b
ok-injective {a = a} e = ap (value_or a) e
