-- ===== src/Base/Division.antt =====
-- Quotients by a variable.
use Prim.Native.Nat.{ℕ, ◌+◌, ◌-◌, ◌*◌, ◌/◌, ◌%◌, ◌≤◌, ◌<◌}
use mathlib.Core.Path.{◌≡◌}
use native.Mathlib.Omega.{arith}

pub div-mul-le : (p b : ℕ) → (p / b) * b ≤ p
div-mul-le p b = grind arith

pub lt-div-mul-add : (p b : ℕ) → 0 < b → p < (p / b) * b + b
lt-div-mul-add p b pos = grind arith

-- Blocks of `b` are disjoint.
pub block_unique : (i j p b : ℕ) → i * b ≤ p → p < i * b + b → j * b ≤ p → p < j * b + b → i ≡ j
block_unique i j p b h1 h2 h3 h4 = grind arith

-- The number of started blocks bounds the number of the block of each position.
pub div-lt-ceil : (p size b : ℕ) → 0 < b → p < size → p / b < (size + b - 1) / b
div-lt-ceil p size b pos lt = grind arith

pub mul-lt-size : (i size b : ℕ) → 0 < b → i < (size + b - 1) / b → i * b < size
mul-lt-size i size b pos lt = grind arith

-- A block that starts before the end is a started one.
pub lt-ceil_of_mul-lt : (i size b : ℕ) → 0 < b → i * b < size → i < (size + b - 1) / b
lt-ceil_of_mul-lt i size b pos lt = grind arith

-- The started blocks of a multiple of `b`.
pub ceil-mul : (m b : ℕ) → 0 < b → (m * b + b - 1) / b ≡ m
ceil-mul m b pos = grind arith

-- A block before the number `n` ends before the block `n`.
pub mul-block-le : (i n b : ℕ) → i < n → i * b + b ≤ n * b
mul-block-le i n b lt =
    let (k, e) : (k : ℕ) × (n ≡ i + 1 + k) = (n - (i + 1), omega arith) in rw e (grind arith)

pub add-mod_self : (i n : ℕ) → 0 < n → (i + n) % n ≡ i % n
add-mod_self i n pos = grind arith
