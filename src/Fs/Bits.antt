-- ===== src/Fs/Bits.antt =====
-- kernel/fs.c: `1 << k`, and the bits of a byte.
use lab_so.Prelude.{ℕ, zero, suc, ◌+◌, ◌-◌, ◌/◌, ◌%◌, ◌<◌, ◌≡◌, ◌≢◌, arith}

-- `1 << k` for `k` below 8
abbrev pub mask : ℕ → ℕ
mask zero = 1
mask (suc zero) = 2
mask (suc (suc zero)) = 4
mask (suc (suc (suc zero))) = 8
mask (suc (suc (suc (suc zero)))) = 16
mask (suc (suc (suc (suc (suc zero))))) = 32
mask (suc (suc (suc (suc (suc (suc zero)))))) = 64
mask (suc (suc (suc (suc (suc (suc (suc k))))))) = 128

-- Bit `k` of `b`: 0 exactly where `b & (1 << k)` is 0.
abbrev pub bit : ℕ → ℕ → ℕ
bit k b = b / mask k % 2

-- `b | (1 << k)` where bit `k` is 0 is the sum, and `b & ~(1 << k)` where it is 1 the difference.

pub bit-set_self : (k b : ℕ) → k < 8 → bit k b ≡ 0 → bit k (b + mask k) ≡ 1
bit-set_self zero b h e = omega arith
bit-set_self (suc zero) b h e = omega arith
bit-set_self (suc (suc zero)) b h e = omega arith
bit-set_self (suc (suc (suc zero))) b h e = omega arith
bit-set_self (suc (suc (suc (suc zero)))) b h e = omega arith
bit-set_self (suc (suc (suc (suc (suc zero))))) b h e = omega arith
bit-set_self (suc (suc (suc (suc (suc (suc zero)))))) b h e = omega arith
bit-set_self (suc (suc (suc (suc (suc (suc (suc n))))))) b h e = omega arith

pub bit-clear_self : (k b : ℕ) → k < 8 → bit k b ≡ 1 → bit k (b - mask k) ≡ 0
bit-clear_self zero b h e = omega arith
bit-clear_self (suc zero) b h e = omega arith
bit-clear_self (suc (suc zero)) b h e = omega arith
bit-clear_self (suc (suc (suc zero))) b h e = omega arith
bit-clear_self (suc (suc (suc (suc zero)))) b h e = omega arith
bit-clear_self (suc (suc (suc (suc (suc zero))))) b h e = omega arith
bit-clear_self (suc (suc (suc (suc (suc (suc zero)))))) b h e = omega arith
bit-clear_self (suc (suc (suc (suc (suc (suc (suc n))))))) b h e = omega arith

pub bit-set_other : (k j b : ℕ) → k < 8 → j < 8 → bit k b ≡ 0 → k ≢ j → bit j (b + mask k) ≡ bit j b
bit-set_other zero zero b h l e n' = omega arith
bit-set_other zero (suc zero) b h l e n' = omega arith
bit-set_other zero (suc (suc zero)) b h l e n' = omega arith
bit-set_other zero (suc (suc (suc zero))) b h l e n' = omega arith
bit-set_other zero (suc (suc (suc (suc zero)))) b h l e n' = omega arith
bit-set_other zero (suc (suc (suc (suc (suc zero))))) b h l e n' = omega arith
bit-set_other zero (suc (suc (suc (suc (suc (suc zero)))))) b h l e n' = omega arith
bit-set_other zero (suc (suc (suc (suc (suc (suc (suc m))))))) b h l e n' = omega arith
bit-set_other (suc zero) zero b h l e n' = omega arith
bit-set_other (suc zero) (suc zero) b h l e n' = omega arith
bit-set_other (suc zero) (suc (suc zero)) b h l e n' = omega arith
bit-set_other (suc zero) (suc (suc (suc zero))) b h l e n' = omega arith
bit-set_other (suc zero) (suc (suc (suc (suc zero)))) b h l e n' = omega arith
bit-set_other (suc zero) (suc (suc (suc (suc (suc zero))))) b h l e n' = omega arith
bit-set_other (suc zero) (suc (suc (suc (suc (suc (suc zero)))))) b h l e n' = omega arith
bit-set_other (suc zero) (suc (suc (suc (suc (suc (suc (suc m))))))) b h l e n' = omega arith
bit-set_other (suc (suc zero)) zero b h l e n' = omega arith
bit-set_other (suc (suc zero)) (suc zero) b h l e n' = omega arith
bit-set_other (suc (suc zero)) (suc (suc zero)) b h l e n' = omega arith
bit-set_other (suc (suc zero)) (suc (suc (suc zero))) b h l e n' = omega arith
bit-set_other (suc (suc zero)) (suc (suc (suc (suc zero)))) b h l e n' = omega arith
bit-set_other (suc (suc zero)) (suc (suc (suc (suc (suc zero))))) b h l e n' = omega arith
bit-set_other (suc (suc zero)) (suc (suc (suc (suc (suc (suc zero)))))) b h l e n' = omega arith
bit-set_other (suc (suc zero)) (suc (suc (suc (suc (suc (suc (suc m))))))) b h l e n' = omega arith
bit-set_other (suc (suc (suc zero))) zero b h l e n' = omega arith
bit-set_other (suc (suc (suc zero))) (suc zero) b h l e n' = omega arith
bit-set_other (suc (suc (suc zero))) (suc (suc zero)) b h l e n' = omega arith
bit-set_other (suc (suc (suc zero))) (suc (suc (suc zero))) b h l e n' = omega arith
bit-set_other (suc (suc (suc zero))) (suc (suc (suc (suc zero)))) b h l e n' = omega arith
bit-set_other (suc (suc (suc zero))) (suc (suc (suc (suc (suc zero))))) b h l e n' = omega arith
bit-set_other (suc (suc (suc zero))) (suc (suc (suc (suc (suc (suc zero)))))) b h l e n' =
    omega arith
bit-set_other (suc (suc (suc zero))) (suc (suc (suc (suc (suc (suc (suc m))))))) b h l e n' =
    omega arith
bit-set_other (suc (suc (suc (suc zero)))) zero b h l e n' = omega arith
bit-set_other (suc (suc (suc (suc zero)))) (suc zero) b h l e n' = omega arith
bit-set_other (suc (suc (suc (suc zero)))) (suc (suc zero)) b h l e n' = omega arith
bit-set_other (suc (suc (suc (suc zero)))) (suc (suc (suc zero))) b h l e n' = omega arith
bit-set_other (suc (suc (suc (suc zero)))) (suc (suc (suc (suc zero)))) b h l e n' = omega arith
bit-set_other (suc (suc (suc (suc zero)))) (suc (suc (suc (suc (suc zero))))) b h l e n' =
    omega arith
bit-set_other (suc (suc (suc (suc zero)))) (suc (suc (suc (suc (suc (suc zero)))))) b h l e n' =
    omega arith
bit-set_other (suc (suc (suc (suc zero)))) (suc (suc (suc (suc (suc (suc (suc m))))))) b h l e n' =
    omega arith
bit-set_other (suc (suc (suc (suc (suc zero))))) zero b h l e n' = omega arith
bit-set_other (suc (suc (suc (suc (suc zero))))) (suc zero) b h l e n' = omega arith
bit-set_other (suc (suc (suc (suc (suc zero))))) (suc (suc zero)) b h l e n' = omega arith
bit-set_other (suc (suc (suc (suc (suc zero))))) (suc (suc (suc zero))) b h l e n' = omega arith
bit-set_other (suc (suc (suc (suc (suc zero))))) (suc (suc (suc (suc zero)))) b h l e n' =
    omega arith
bit-set_other (suc (suc (suc (suc (suc zero))))) (suc (suc (suc (suc (suc zero))))) b h l e n' =
    omega arith
bit-set_other (suc (suc (suc (suc (suc zero))))) (suc (suc (suc (suc (suc (suc zero)))))) b h l e
      n' =
    omega arith
bit-set_other (suc (suc (suc (suc (suc zero))))) (suc (suc (suc (suc (suc (suc (suc m))))))) b h l e
      n' =
    omega arith
bit-set_other (suc (suc (suc (suc (suc (suc zero)))))) zero b h l e n' = omega arith
bit-set_other (suc (suc (suc (suc (suc (suc zero)))))) (suc zero) b h l e n' = omega arith
bit-set_other (suc (suc (suc (suc (suc (suc zero)))))) (suc (suc zero)) b h l e n' = omega arith
bit-set_other (suc (suc (suc (suc (suc (suc zero)))))) (suc (suc (suc zero))) b h l e n' =
    omega arith
bit-set_other (suc (suc (suc (suc (suc (suc zero)))))) (suc (suc (suc (suc zero)))) b h l e n' =
    omega arith
bit-set_other (suc (suc (suc (suc (suc (suc zero)))))) (suc (suc (suc (suc (suc zero))))) b h l e
      n' =
    omega arith
bit-set_other (suc (suc (suc (suc (suc (suc zero)))))) (suc (suc (suc (suc (suc (suc zero)))))) b h
      l e n' =
    omega arith
bit-set_other (suc (suc (suc (suc (suc (suc zero)))))) (suc (suc (suc (suc (suc (suc (suc m))))))) b
      h l e n' =
    omega arith
bit-set_other (suc (suc (suc (suc (suc (suc (suc n))))))) zero b h l e n' = omega arith
bit-set_other (suc (suc (suc (suc (suc (suc (suc n))))))) (suc zero) b h l e n' = omega arith
bit-set_other (suc (suc (suc (suc (suc (suc (suc n))))))) (suc (suc zero)) b h l e n' = omega arith
bit-set_other (suc (suc (suc (suc (suc (suc (suc n))))))) (suc (suc (suc zero))) b h l e n' =
    omega arith
bit-set_other (suc (suc (suc (suc (suc (suc (suc n))))))) (suc (suc (suc (suc zero)))) b h l e n' =
    omega arith
bit-set_other (suc (suc (suc (suc (suc (suc (suc n))))))) (suc (suc (suc (suc (suc zero))))) b h l e
      n' =
    omega arith
bit-set_other (suc (suc (suc (suc (suc (suc (suc n))))))) (suc (suc (suc (suc (suc (suc zero)))))) b
      h l e n' =
    omega arith
bit-set_other (suc (suc (suc (suc (suc (suc (suc n)))))))
      (suc (suc (suc (suc (suc (suc (suc m))))))) b h l e n' =
    omega arith

pub bit-clear_other :
    (k j b : ℕ) → k < 8 → j < 8 → bit k b ≡ 1 → k ≢ j → bit j (b - mask k) ≡ bit j b
bit-clear_other zero zero b h l e n' = omega arith
bit-clear_other zero (suc zero) b h l e n' = omega arith
bit-clear_other zero (suc (suc zero)) b h l e n' = omega arith
bit-clear_other zero (suc (suc (suc zero))) b h l e n' = omega arith
bit-clear_other zero (suc (suc (suc (suc zero)))) b h l e n' = omega arith
bit-clear_other zero (suc (suc (suc (suc (suc zero))))) b h l e n' = omega arith
bit-clear_other zero (suc (suc (suc (suc (suc (suc zero)))))) b h l e n' = omega arith
bit-clear_other zero (suc (suc (suc (suc (suc (suc (suc m))))))) b h l e n' = omega arith
bit-clear_other (suc zero) zero b h l e n' = omega arith
bit-clear_other (suc zero) (suc zero) b h l e n' = omega arith
bit-clear_other (suc zero) (suc (suc zero)) b h l e n' = omega arith
bit-clear_other (suc zero) (suc (suc (suc zero))) b h l e n' = omega arith
bit-clear_other (suc zero) (suc (suc (suc (suc zero)))) b h l e n' = omega arith
bit-clear_other (suc zero) (suc (suc (suc (suc (suc zero))))) b h l e n' = omega arith
bit-clear_other (suc zero) (suc (suc (suc (suc (suc (suc zero)))))) b h l e n' = omega arith
bit-clear_other (suc zero) (suc (suc (suc (suc (suc (suc (suc m))))))) b h l e n' = omega arith
bit-clear_other (suc (suc zero)) zero b h l e n' = omega arith
bit-clear_other (suc (suc zero)) (suc zero) b h l e n' = omega arith
bit-clear_other (suc (suc zero)) (suc (suc zero)) b h l e n' = omega arith
bit-clear_other (suc (suc zero)) (suc (suc (suc zero))) b h l e n' = omega arith
bit-clear_other (suc (suc zero)) (suc (suc (suc (suc zero)))) b h l e n' = omega arith
bit-clear_other (suc (suc zero)) (suc (suc (suc (suc (suc zero))))) b h l e n' = omega arith
bit-clear_other (suc (suc zero)) (suc (suc (suc (suc (suc (suc zero)))))) b h l e n' = omega arith
bit-clear_other (suc (suc zero)) (suc (suc (suc (suc (suc (suc (suc m))))))) b h l e n' =
    omega arith
bit-clear_other (suc (suc (suc zero))) zero b h l e n' = omega arith
bit-clear_other (suc (suc (suc zero))) (suc zero) b h l e n' = omega arith
bit-clear_other (suc (suc (suc zero))) (suc (suc zero)) b h l e n' = omega arith
bit-clear_other (suc (suc (suc zero))) (suc (suc (suc zero))) b h l e n' = omega arith
bit-clear_other (suc (suc (suc zero))) (suc (suc (suc (suc zero)))) b h l e n' = omega arith
bit-clear_other (suc (suc (suc zero))) (suc (suc (suc (suc (suc zero))))) b h l e n' = omega arith
bit-clear_other (suc (suc (suc zero))) (suc (suc (suc (suc (suc (suc zero)))))) b h l e n' =
    omega arith
bit-clear_other (suc (suc (suc zero))) (suc (suc (suc (suc (suc (suc (suc m))))))) b h l e n' =
    omega arith
bit-clear_other (suc (suc (suc (suc zero)))) zero b h l e n' = omega arith
bit-clear_other (suc (suc (suc (suc zero)))) (suc zero) b h l e n' = omega arith
bit-clear_other (suc (suc (suc (suc zero)))) (suc (suc zero)) b h l e n' = omega arith
bit-clear_other (suc (suc (suc (suc zero)))) (suc (suc (suc zero))) b h l e n' = omega arith
bit-clear_other (suc (suc (suc (suc zero)))) (suc (suc (suc (suc zero)))) b h l e n' = omega arith
bit-clear_other (suc (suc (suc (suc zero)))) (suc (suc (suc (suc (suc zero))))) b h l e n' =
    omega arith
bit-clear_other (suc (suc (suc (suc zero)))) (suc (suc (suc (suc (suc (suc zero)))))) b h l e n' =
    omega arith
bit-clear_other (suc (suc (suc (suc zero)))) (suc (suc (suc (suc (suc (suc (suc m))))))) b h l e
      n' =
    omega arith
bit-clear_other (suc (suc (suc (suc (suc zero))))) zero b h l e n' = omega arith
bit-clear_other (suc (suc (suc (suc (suc zero))))) (suc zero) b h l e n' = omega arith
bit-clear_other (suc (suc (suc (suc (suc zero))))) (suc (suc zero)) b h l e n' = omega arith
bit-clear_other (suc (suc (suc (suc (suc zero))))) (suc (suc (suc zero))) b h l e n' = omega arith
bit-clear_other (suc (suc (suc (suc (suc zero))))) (suc (suc (suc (suc zero)))) b h l e n' =
    omega arith
bit-clear_other (suc (suc (suc (suc (suc zero))))) (suc (suc (suc (suc (suc zero))))) b h l e n' =
    omega arith
bit-clear_other (suc (suc (suc (suc (suc zero))))) (suc (suc (suc (suc (suc (suc zero)))))) b h l e
      n' =
    omega arith
bit-clear_other (suc (suc (suc (suc (suc zero))))) (suc (suc (suc (suc (suc (suc (suc m))))))) b h l
      e n' =
    omega arith
bit-clear_other (suc (suc (suc (suc (suc (suc zero)))))) zero b h l e n' = omega arith
bit-clear_other (suc (suc (suc (suc (suc (suc zero)))))) (suc zero) b h l e n' = omega arith
bit-clear_other (suc (suc (suc (suc (suc (suc zero)))))) (suc (suc zero)) b h l e n' = omega arith
bit-clear_other (suc (suc (suc (suc (suc (suc zero)))))) (suc (suc (suc zero))) b h l e n' =
    omega arith
bit-clear_other (suc (suc (suc (suc (suc (suc zero)))))) (suc (suc (suc (suc zero)))) b h l e n' =
    omega arith
bit-clear_other (suc (suc (suc (suc (suc (suc zero)))))) (suc (suc (suc (suc (suc zero))))) b h l e
      n' =
    omega arith
bit-clear_other (suc (suc (suc (suc (suc (suc zero)))))) (suc (suc (suc (suc (suc (suc zero)))))) b
      h l e n' =
    omega arith
bit-clear_other (suc (suc (suc (suc (suc (suc zero)))))) (suc (suc (suc (suc (suc (suc (suc m)))))))
      b h l e n' =
    omega arith
bit-clear_other (suc (suc (suc (suc (suc (suc (suc n))))))) zero b h l e n' = omega arith
bit-clear_other (suc (suc (suc (suc (suc (suc (suc n))))))) (suc zero) b h l e n' = omega arith
bit-clear_other (suc (suc (suc (suc (suc (suc (suc n))))))) (suc (suc zero)) b h l e n' =
    omega arith
bit-clear_other (suc (suc (suc (suc (suc (suc (suc n))))))) (suc (suc (suc zero))) b h l e n' =
    omega arith
bit-clear_other (suc (suc (suc (suc (suc (suc (suc n))))))) (suc (suc (suc (suc zero)))) b h l e
      n' =
    omega arith
bit-clear_other (suc (suc (suc (suc (suc (suc (suc n))))))) (suc (suc (suc (suc (suc zero))))) b h l
      e n' =
    omega arith
bit-clear_other (suc (suc (suc (suc (suc (suc (suc n))))))) (suc (suc (suc (suc (suc (suc zero))))))
      b h l e n' =
    omega arith
bit-clear_other (suc (suc (suc (suc (suc (suc (suc n)))))))
      (suc (suc (suc (suc (suc (suc (suc m))))))) b h l e n' =
    omega arith
