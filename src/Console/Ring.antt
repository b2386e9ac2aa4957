-- ===== src/Console/Ring.antt =====
-- kernel/console.c: the bytes between two indices of the ring, over the wrap of the indices.
use lab_so.Prelude.{
  ℕ, zero, suc, ◌+◌, ◌%◌, ◌<◌, ◌≡◌, refl, ap, ap₂, List, [], ◌∷◌, ◌++◌, length, update, update_eq,
  update_other, arith,
}
use lab_so.Console.Defs.{input_buf_size, add_uint, sub_uint, Cons}

abbrev pub window : (ℕ → ℕ) → ℕ → ℕ → List ℕ
window buf r zero = []
window buf r (suc n) = buf (r % input_buf_size) ∷ window buf (add_uint r 1) n

pub length-window : (buf : ℕ → ℕ) (r n : ℕ) → length (window buf r n) ≡ n
length-window buf r zero = refl
length-window buf r (suc n) = ap suc (length-window buf (add_uint r 1) n)

-- Two windows, one behind the other.
pub window_append :
    (buf : ℕ → ℕ) (r s m n k : ℕ)
    → r < 4294967296
    → s ≡ add_uint r m
    → k ≡ m + n
    → window buf r k ≡ window buf r m ++ window buf s n
window_append buf r s zero n k l e f = ap₂ (window buf) (omega arith) (omega arith)
window_append buf r s (suc m) n zero l e f = absurd (omega arith)
window_append buf r s (suc m) n (suc k) l e f =
    ap (λ v. buf (r % input_buf_size) ∷ v)
      (window_append buf (add_uint r 1) s m n k (omega arith) (omega arith) (omega arith))

-- A byte that is kept behind a window.
pub window_other :
    (buf : ℕ → ℕ) (x n r i k : ℕ)
    → r < 4294967296
    → i ≡ add_uint r (n + k) % input_buf_size
    → n + k < input_buf_size
    → window (update buf i x) r n ≡ window buf r n
window_other buf x zero r i k l e h = refl
window_other buf x (suc n) r i k l e h =
    ap₂ ◌∷◌ (update_other buf i (r % input_buf_size) x (omega arith))
      (window_other buf x n (add_uint r 1) i k (omega arith) (omega arith) (omega arith))

-- The byte behind a window, stored and taken in.
pub window_put :
    (buf : ℕ → ℕ) (x n r i : ℕ)
    → r < 4294967296
    → i ≡ add_uint r n % input_buf_size
    → n < input_buf_size
    → window (update buf i x) r (suc n) ≡ window buf r n ++ x ∷ []
window_put buf x zero r i l e h =
    ap (λ v. v ∷ []) (update_eq buf i (r % input_buf_size) x (omega arith))
window_put buf x (suc n) r i l e h =
    ap₂ ◌∷◌ (update_other buf i (r % input_buf_size) x (omega arith))
      (window_put buf x n (add_uint r 1) i (omega arith) (omega arith) (omega arith))

-- The bytes ready to be read, and those of the line being typed.
abbrev pub ready : Cons → List ℕ
ready cons = window cons.buf cons.r (sub_uint cons.w cons.r)

abbrev pub line : Cons → List ℕ
line cons = window cons.buf cons.w (sub_uint cons.e cons.w)
