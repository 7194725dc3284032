-- ===== src/Common/Arith.antt =====
-- Facts about products, quotients and remainders by a variable, such as a block size.
use Prim.Native.Nat.{ℕ, suc, ◌+◌, ◌-◌, ◌*◌, ◌/◌, ◌%◌, ◌≤◌, ◌<◌}
use native.Mathlib.Nat.{
  mul-add-mod_self_left, div-add-mod, div-mul-le_self, lt-div-mul-add, mul-le-mul_right,
}
use mathlib.Core.Path.{◌≡◌, sym, ap, ◌∙◌}
use mathlib.Core.Bool.{true, false}
use native.Mathlib.Omega.{arith}
use emile.Common.Tests.{ltb, ◌==◌}

pub mod-lt_of_pos : (n d : ℕ) → 0 < d → n % d < d
mod-lt_of_pos n d h = omega arith

pub div-lt_of_lt_mul : (p d c : ℕ) → 0 < d → p < d * c → p / d < c
div-lt_of_lt_mul p d c h lt = grind arith

pub mod-sub_mul : (p d c : ℕ) → d * c ≤ p → (p - d * c) % d ≡ p % d
mod-sub_mul p d c le = sym (mul-add-mod_self_left d c (p - d * c)) ∙ ap (λ x. x % d) (omega arith)

-- The rest of the block that holds position `p` lies in the range that `p` lies in.
pub block_rest : (p d c i : ℕ) → 0 < d → p < d * c → i < d - p % d → p + i < d * c
block_rest p d c i h lt li = grind arith

pub block_split : (p d : ℕ) → 0 < d → (p / d) * d + p % d ≡ p
block_split p d h = grind arith

-- The next multiple of `d`.
abbrev pub round_up : ℕ → ℕ → ℕ
round_up d n = (n + d - 1) / d * d

pub round_up-le_mul : (n d k : ℕ) → 0 < d → n ≤ d * k → round_up d n ≤ d * k
round_up-le_mul n d k h le = grind arith

-- A position below `n` lies in a block that ends at or before the next multiple.
pub block_end-le-round_up : (p n d : ℕ) → 0 < d → p < n → p + (d - p % d) ≤ round_up d n
block_end-le-round_up p n d h lt = grind arith

-- The end of the block of `p` is the next multiple, if it is not below `n`.
pub block_end-eq-round_up :
    (p n d : ℕ) → 0 < d → p < n → n ≤ p + (d - p % d) → round_up d n ≡ p + (d - p % d)
block_end-eq-round_up p n d h lt le = grind arith

-- A remainder may be taken early.
pub mod-mul_add : (x y z w : ℕ) → (x % w * y + z) % w ≡ (x * y + z) % w
mod-mul_add x y z w =
    sym (mul-add-mod_self_left w (x / w * y) (x % w * y + z))
    ∙ ap (λ t. t % w) (omega (arith, ap (λ t. t * y) (div-add-mod x w)))

-- The block of a position, from the base block on, begins at or before it and ends behind it.
pub group_bounds :
    (base off bs k : ℕ)
    → 0 < bs
    → 0 < k
    → ((base + off / bs) / k * k * bs ≤ base * bs + off)
      × (base * bs + off < (base + off / bs) / k * k * bs + k * bs)
group_bounds base off bs k hb hk =
    let block = base + off / bs in
    let low : block / k * k ≤ block = div-mul-le_self block k in
    let high : block < block / k * k + k = lt-div-mul-add hk in
    let low' : off / bs * bs ≤ off = div-mul-le_self off bs in
    let high' : off < off / bs * bs + bs = lt-div-mul-add hb in
    let scaled : block / k * k * bs ≤ block * bs = mul-le-mul_right bs low in
    let scaled' : suc block * bs ≤ (block / k * k + k) * bs = mul-le-mul_right bs high in
    (omega arith, omega arith)

pub div_mono : (m n d : ℕ) → 0 < d → m ≤ n → m / d ≤ n / d
div_mono m n d h le = grind arith

-- The quotient and the remainder of a number that is given by both.
pub quotient_of : (b l i : ℕ) → i < b → (l * b + i) / b ≡ l
quotient_of b l i lt = grind arith

pub remainder_of : (b l i : ℕ) → i < b → (l * b + i) % b ≡ i
remainder_of b l i lt = grind arith

pub ltb-lt : (m n : ℕ) → ltb m n ≡ true → m < n
ltb-lt m n h = ground arith

pub ltb-ge : (m n : ℕ) → ltb m n ≡ false → n ≤ m
ltb-ge m n h = ground arith

pub equal_of_test : (m n : ℕ) → m == n ≡ true → m ≡ n
equal_of_test m n h = ground arith
