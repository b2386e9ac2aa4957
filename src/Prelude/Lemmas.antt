-- ===== src/Prelude/Lemmas.antt =====
-- Maps as functions of a number, and membership in a list by recursion.
use Prim.Native.Nat.{ℕ}
use mathlib.Core.Path.{◌≡◌}
use mathlib.Core.Logic.{◌≢◌}
use mathlib.Core.Bool.{Bool, true, false}
use mathlib.Core.List.{List, [], ◌∷◌}
use native.Mathlib.Omega.{arith}
use lab_so.Prelude.Tests.{◌==◌, if◌then◌else◌}
use lab_so.Prelude.Lists.{All}

-- `f` with the value at `k` replaced.
abbrev pub update {ℓ} : {A : Type ℓ} → (ℕ → A) → ℕ → A → ℕ → A
update f k v j = if k == j then v else f j

abbrev pub mem : ℕ → List ℕ → Bool
mem a [] = false
mem a (x ∷ xs) = if x == a then true else mem a xs

-- No number occurs twice.
abbrev pub Distinct : List ℕ → Type 0
Distinct [] = Unit
Distinct (x ∷ xs) = (mem x xs ≡ false) × Distinct xs

pub update_self {ℓ} : {A : Type ℓ} (f : ℕ → A) (k : ℕ) (v : A) → update f k v k ≡ v
update_self f k v = ground arith

pub update_ne {ℓ} : {A : Type ℓ} (f : ℕ → A) {k j : ℕ} (v : A) → k ≢ j → update f k v j ≡ f j
update_ne f v h = ground arith

pub mem-All_ne : (a : ℕ) (xs : List ℕ) → mem a xs ≡ false → All (λ x. x ≢ a) xs
mem-All_ne a [] h = tt
mem-All_ne a (x ∷ xs) h = (ground arith, mem-All_ne a xs (ground arith))

pub update_eq {ℓ} : {A : Type ℓ} (f : ℕ → A) (i j : ℕ) (a : A) → i ≡ j → update f i a j ≡ a
update_eq f i j a e = ground arith

pub update_other {ℓ} : {A : Type ℓ} (f : ℕ → A) (i j : ℕ) (a : A) → i ≢ j → update f i a j ≡ f j
update_other f i j a n = ground arith
