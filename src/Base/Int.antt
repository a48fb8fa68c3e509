-- ===== src/Base/Int.antt =====
-- Signed integers over the native numbers, under the library's names (its ℤ stands on the unary ℕ),
-- and the signed 32-bit arithmetic of the source. Sums and orders go through the two parts of an
-- integer, which are numbers that `omega` reads.
use hypr_rdp.Base.{
  ℕ, suc, ◌+◌, ◌-◌, ◌%◌, ◌≤◌, ◌<◌, ◌≡◌, Bool, arith, ltb, leb, if◌then◌else◌, ◌&&◌, ◌==◌,
}

-- `negsuc n` is -(n + 1).
pub data ℤ : Type 0 where
  pos : ℕ → ℤ
  negsuc : ℕ → ℤ

abbrev pub pos_part : ℤ → ℕ
pos_part (pos n) = n
pos_part (negsuc n) = 0

abbrev pub neg_part : ℤ → ℕ
neg_part (pos n) = 0
neg_part (negsuc n) = suc n

-- a - b, as an integer.
abbrev pub sub_ℕ : ℕ → ℕ → ℤ
sub_ℕ a b = if leb b a then pos (a - b) else negsuc (b - a - 1)

infixl 65 ◌+ℤ◌ ◌-ℤ◌
infix 50 ◌≤ℤ◌ ◌<ℤ◌
unfoldable pub ◌+ℤ◌ : ℤ → ℤ → ℤ
a +ℤ b = sub_ℕ (pos_part a + pos_part b) (neg_part a + neg_part b)

unfoldable pub ◌-ℤ◌ : ℤ → ℤ → ℤ
a -ℤ b = sub_ℕ (pos_part a + neg_part b) (neg_part a + pos_part b)

abbrev pub ◌≤ℤ◌ : ℤ → ℤ → Type 0
a ≤ℤ b = pos_part a + neg_part b ≤ pos_part b + neg_part a

abbrev pub ◌<ℤ◌ : ℤ → ℤ → Type 0
a <ℤ b = pos_part a + neg_part b < pos_part b + neg_part a

abbrev pub ltb_ℤ : ℤ → ℤ → Bool
ltb_ℤ a b = ltb (pos_part a + neg_part b) (pos_part b + neg_part a)

abbrev pub leb_ℤ : ℤ → ℤ → Bool
leb_ℤ a b = leb (pos_part a + neg_part b) (pos_part b + neg_part a)

abbrev pub eqb_ℤ : ℤ → ℤ → Bool
eqb_ℤ a b = pos_part a == pos_part b && neg_part a == neg_part b

abbrev pub min_ℤ : ℤ → ℤ → ℤ
min_ℤ a b = if leb_ℤ a b then a else b

abbrev pub max_ℤ : ℤ → ℤ → ℤ
max_ℤ a b = if leb_ℤ a b then b else a

-- `x.clamp(lo, hi)` of the signed types.
abbrev pub clamp_ℤ : ℤ → ℤ → ℤ → ℤ
clamp_ℤ x lo hi = if ltb_ℤ x lo then lo else if ltb_ℤ hi x then hi else x

abbrev pub i32_max : ℕ
i32_max = 2147483647

-- A value of type i32.
abbrev pub IsI32 : ℤ → Type 0
IsI32 a = (pos_part a ≤ i32_max) × (neg_part a ≤ i32_max + 1)

abbrev pub sat_i32 : ℤ → ℤ
sat_i32 (pos n) = if ltb i32_max n then pos i32_max else pos n
sat_i32 (negsuc n) = if ltb i32_max n then negsuc i32_max else negsuc n

-- `saturating_add`, `saturating_sub` of i32.
unfoldable pub sat_add : ℤ → ℤ → ℤ
unfolding ◌+ℤ◌
sat_add a b = sat_i32 (a +ℤ b)

unfoldable pub sat_sub : ℤ → ℤ → ℤ
unfolding ◌-ℤ◌
sat_sub a b = sat_i32 (a -ℤ b)

-- `-` and `+` of i32 in a build without overflow checks: the result wraps.
unfoldable pub wrap_i32 : ℤ → ℤ
wrap_i32 (pos n) =
    let m = n % 4294967296 in if ltb i32_max m then negsuc (4294967295 - m) else pos m
wrap_i32 (negsuc n) =
    let m = n % 4294967296 in if ltb i32_max m then pos (4294967295 - m) else negsuc m

unfoldable pub sub_i32 : ℤ → ℤ → ℤ
unfolding wrap_i32 ◌-ℤ◌
sub_i32 a b = wrap_i32 (a -ℤ b)

-- One lemma for each operation lets `omega` work with the operations shut, at any depth.
pub +ℤ_parts :
    (a b : ℤ)
    → pos_part (a +ℤ b) + neg_part a + neg_part b ≡ neg_part (a +ℤ b) + pos_part a + pos_part b
unfolding ◌+ℤ◌
+ℤ_parts a b = ground arith

pub -ℤ_parts :
    (a b : ℤ)
    → pos_part (a -ℤ b) + neg_part a + pos_part b ≡ neg_part (a -ℤ b) + pos_part a + neg_part b
unfolding ◌-ℤ◌
-ℤ_parts a b = ground arith

pub eq_of_parts : (a b : ℤ) → pos_part a + neg_part b ≡ pos_part b + neg_part a → a ≡ b
eq_of_parts a b h = ground arith

pub ruleset int_laws = (arith, +ℤ_parts, -ℤ_parts)
