-- ===== src/Semaphore/System/Invariant/Balance.antt =====
-- kernel/semaphore.c: count, bound and units taken of one semaphore.
use lab_so.Prelude.{ℕ, zero, suc, ◌+◌, ◌-◌, ◌≡◌, refl, ap, ◌≢◌, update, fun_ext, arith}
use lab_so.Prelude.Int.{ℤ, pos, negsuc, ◌+ℤ◌, ◌-ℤ◌}
use lab_so.Semaphore.Defs.{closed}

-- Not open, or `count` and the units taken make up `bound`, all of them 0 or more.
abbrev pub Balanced : ℤ → ℤ → ℕ → Type 0
Balanced (pos c) (pos b) k = c + k ≡ b
Balanced (pos c) (negsuc b) k = ⊥
Balanced (negsuc zero) b k = Unit
Balanced (negsuc (suc n)) b k = ⊥

pub positive :
    (c b : ℤ) (k : ℕ) → Balanced c b k → c ≢ pos 0 → c ≢ closed → (n : ℕ) × (c ≡ pos (suc n))
positive (pos zero) b k h z l = absurd (z refl)
positive (pos (suc n)) b k h z l = (n, refl)
positive (negsuc zero) b k h z l = absurd (l refl)
positive (negsuc (suc n)) b k h z l = absurd h

pub lower :
    (c b : ℤ) (k : ℕ) → Balanced c b k → c ≢ pos 0 → c ≢ closed → Balanced (c -ℤ pos 1) b (k + 1)
lower (pos zero) b k h z l = absurd (z refl)
lower (pos (suc n)) (pos b) k h z l = ground arith
lower (pos (suc n)) (negsuc b) k h z l = absurd h
lower (negsuc zero) b k h z l = absurd (l refl)
lower (negsuc (suc n)) b k h z l = absurd h

pub raise :
    (c b : ℤ) (k : ℕ) → Balanced c b k → c ≢ b → c ≢ closed → Balanced (c +ℤ pos 1) b (k - 1)
raise (pos c) (pos b) zero h z l = absurd (z (ap pos (omega arith)))
raise (pos c) (pos b) (suc k) h z l = ground arith
raise (pos c) (negsuc b) k h z l = absurd h
raise (negsuc zero) b k h z l = absurd (l refl)
raise (negsuc (suc n)) b k h z l = absurd h

pub raise_open : (c b : ℤ) (k : ℕ) → Balanced c b k → c ≢ closed → c +ℤ pos 1 ≢ closed
raise_open (pos c) b k h l = λ q. ground arith
raise_open (negsuc zero) b k h l = absurd (l refl)
raise_open (negsuc (suc n)) b k h l = absurd h

pub open_free : {c : ℤ} → c ≡ pos 0 → c ≢ closed
open_free z = λ q. cc

pub update_id : (f : ℕ → ℕ) (i : ℕ) → update f i (f i) ≡ f
update_id f i = fun_ext (λ x. ground arith)

pub Balanced-open :
    (c b : ℤ) (k : ℕ)
    → Balanced c b k
    → c ≢ closed
    → (m n : ℕ) × (c ≡ pos m) × (b ≡ pos n) × (m + k ≡ n)
Balanced-open (pos c) (pos b) k h l = (c, b, refl, refl, h)
Balanced-open (pos c) (negsuc b) k h l = absurd h
Balanced-open (negsuc zero) b k h l = absurd (l refl)
Balanced-open (negsuc (suc n)) b k h l = absurd h
