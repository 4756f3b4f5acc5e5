-- ===== src/Container/Heap/Cells.antt =====
-- The elements by their index, the swap, and the order that the kind of heap gives.
use ytlib.Base.{ℕ, ◌≤◌, ◌≡◌, Bool, true, false, arith}
use ytlib.Container.Heap.{beats}

-- `a` may stand above `b`.
abbrev pub IsAbove : Bool → ℕ → ℕ → Type 0
IsAbove true a b = a ≤ b
IsAbove false a b = b ≤ a

pub IsAbove-refl : (m : Bool) (a : ℕ) → IsAbove m a a
IsAbove-refl true a = omega arith
IsAbove-refl false a = omega arith

pub IsAbove-trans : (m : Bool) (a b c : ℕ) → IsAbove m a b → IsAbove m b c → IsAbove m a c
IsAbove-trans true a b c h k = omega arith
IsAbove-trans false a b c h k = omega arith

pub beats-IsAbove : (m : Bool) (a b : ℕ) → beats m a b ≡ true → IsAbove m a b
beats-IsAbove true a b h = ground arith
beats-IsAbove false a b h = ground arith

pub beats_not-IsAbove : (m : Bool) (a b : ℕ) → beats m a b ≡ false → IsAbove m b a
beats_not-IsAbove true a b h = ground arith
beats_not-IsAbove false a b h = ground arith
