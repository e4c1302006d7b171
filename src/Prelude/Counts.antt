-- ===== src/Prelude/Counts.antt =====
-- Membership and multiplicity of numbers in lists.
use safe_agent.Prelude.Tests.{◌==◌, if◌then◌else◌}
use safe_agent.Prelude.Lists.{length}
use Prim.Native.Nat.{ℕ, ◌+◌, ◌≤◌}
use mathlib.Core.Path.{◌≡◌}
use mathlib.Core.Bool.{Bool, true, false, ◌||◌}
use mathlib.Core.List.{List, [], ◌∷◌}
use native.Mathlib.Omega.{arith}

-- `x in xs`
unfoldable pub mem : ℕ → List ℕ → Bool
mem x [] = false
mem x (y ∷ ys) = y == x || mem x ys

unfoldable pub count : ℕ → List ℕ → ℕ
count x [] = 0
count x (y ∷ ys) = (if y == x then 1 else 0) + count x ys

pub mem-count : (x : ℕ) (xs : List ℕ) → mem x xs ≡ true → 1 ≤ count x xs
unfolding mem count
mem-count x [] h = ground arith
mem-count x (y ∷ ys) h = ground (arith, mem-count x ys)

pub count-mem : (x : ℕ) (xs : List ℕ) → 1 ≤ count x xs → mem x xs ≡ true
unfolding mem count
count-mem x [] h = absurd (omega arith)
count-mem x (y ∷ ys) h = ground (arith, count-mem x ys)

-- `xs` without the first `x`
remove : ℕ → List ℕ → List ℕ
remove x [] = []
remove x (y ∷ ys) = if y == x then ys else y ∷ remove x ys

count-remove :
    (x y : ℕ) (ys : List ℕ)
    → 1 ≤ count x ys
    → count y (remove x ys) + (if x == y then 1 else 0) ≡ count y ys
unfolding count remove
count-remove x y [] h = absurd (omega arith)
count-remove x y (z ∷ ys) h = ground (arith, count-remove x y ys)

length-remove : (x : ℕ) (ys : List ℕ) → 1 ≤ count x ys → length (remove x ys) + 1 ≡ length ys
unfolding count remove
length-remove x [] h = absurd (omega arith)
length-remove x (y ∷ ys) h = ground (arith, length-remove x ys)

-- The pigeonhole principle: a list that holds nothing more often than another is no longer.
pub length-le_of_count :
    (xs ys : List ℕ) → ((x : ℕ) → count x xs ≤ count x ys) → length xs ≤ length ys
unfolding count
length-le_of_count [] ys h = omega arith
length-le_of_count (x ∷ xs) ys h =
    let here : 1 ≤ count x ys = ground (arith, h x) in
    omega (
      arith,
      length-remove x ys here,
      length-le_of_count xs (remove x ys) (λ y. ground (arith, h y, count-remove x y ys here)),
    )
