-- ===== src/Prelude/Int.antt =====
-- Python's `int`, signed and unbounded, over the native numbers.
use Prim.Native.Nat.{ℕ, suc, ◌+◌, ◌-◌, ◌*◌, ◌/◌, ◌≤◌, ◌<◌}
use mathlib.Core.Path.{◌≡◌, ap}
use mathlib.Core.Bool.{Bool}
use native.Mathlib.Omega.{arith}
use pypoc.Prelude.Tests.{ltb, leb, if◌then◌else◌}

-- `negsuc n` is -(n + 1).
pub data ℤ : Type 0 where
  pos : ℕ → ℤ
  negsuc : ℕ → ℤ

abbrev pub pos_part : ℤ → ℕ
pos_part (pos n) = n
pos_part (negsuc n) = 0

abbrev pub neg_part : ℤ → ℕ
neg_part (pos n) = 0
neg_part (negsuc n) = suc n

-- a - b, as an integer.
abbrev pub sub_ℕ : ℕ → ℕ → ℤ
sub_ℕ a b = if leb b a then pos (a - b) else negsuc (b - a - 1)

infixl 65 ◌+ℤ◌ ◌-ℤ◌
infixl 70 ◌*ℤ◌
infix 50 ◌≤ℤ◌ ◌<ℤ◌
unfoldable pub ◌+ℤ◌ : ℤ → ℤ → ℤ
a +ℤ b = sub_ℕ (pos_part a + pos_part b) (neg_part a + neg_part b)

unfoldable pub ◌-ℤ◌ : ℤ → ℤ → ℤ
a -ℤ b = sub_ℕ (pos_part a + neg_part b) (neg_part a + pos_part b)

unfoldable pub ◌*ℤ◌ : ℤ → ℤ → ℤ
a *ℤ b =
    sub_ℕ (pos_part a * pos_part b + neg_part a * neg_part b)
      (pos_part a * neg_part b + neg_part a * pos_part b)

abbrev pub ◌≤ℤ◌ : ℤ → ℤ → Type 0
a ≤ℤ b = pos_part a + neg_part b ≤ pos_part b + neg_part a

abbrev pub ◌<ℤ◌ : ℤ → ℤ → Type 0
a <ℤ b = pos_part a + neg_part b < pos_part b + neg_part a

abbrev pub ltb_ℤ : ℤ → ℤ → Bool
ltb_ℤ a b = ltb (pos_part a + neg_part b) (pos_part b + neg_part a)

abbrev pub leb_ℤ : ℤ → ℤ → Bool
leb_ℤ a b = leb (pos_part a + neg_part b) (pos_part b + neg_part a)

abbrev pub min_ℤ : ℤ → ℤ → ℤ
min_ℤ a b = if ltb_ℤ b a then b else a

abbrev pub max_ℤ : ℤ → ℤ → ℤ
max_ℤ a b = if ltb_ℤ a b then b else a

-- One lemma for each operation lets `omega` work with the operations shut, at any depth.
pub +ℤ_parts :
    (a b : ℤ)
    → pos_part (a +ℤ b) + neg_part a + neg_part b ≡ neg_part (a +ℤ b) + pos_part a + pos_part b
unfolding ◌+ℤ◌
+ℤ_parts a b = ground arith

pub -ℤ_parts :
    (a b : ℤ)
    → pos_part (a -ℤ b) + neg_part a + pos_part b ≡ neg_part (a -ℤ b) + pos_part a + neg_part b
unfolding ◌-ℤ◌
-ℤ_parts a b = ground arith

pub *ℤ_parts :
    (a b : ℤ)
    → pos_part (a *ℤ b) + (pos_part a * neg_part b + neg_part a * pos_part b)
      ≡ neg_part (a *ℤ b) + (pos_part a * pos_part b + neg_part a * neg_part b)
unfolding ◌*ℤ◌
*ℤ_parts a b = ground arith

pub eq_of_parts : (a b : ℤ) → pos_part a + neg_part b ≡ pos_part b + neg_part a → a ≡ b
eq_of_parts a b h = ground arith

pub ruleset int_laws = (arith, +ℤ_parts, -ℤ_parts, eq_of_parts)

-- Products distribute: the equations of the parts, multiplied by both parts of `q`.
pub *ℤ-sub : (q a b : ℤ) → q *ℤ (a -ℤ b) ≡ q *ℤ a -ℤ q *ℤ b
*ℤ-sub q a b = eq_of_parts _ _ (
    omega (
      arith,
      -ℤ_parts (q *ℤ a) (q *ℤ b),
      *ℤ_parts q (a -ℤ b),
      *ℤ_parts q a,
      *ℤ_parts q b,
      ap (λ (t : ℕ). pos_part q * t) (-ℤ_parts a b),
      ap (λ (t : ℕ). neg_part q * t) (-ℤ_parts a b),
    ))

pub *ℤ-add : (q a b : ℤ) → q *ℤ (a +ℤ b) ≡ q *ℤ a +ℤ q *ℤ b
*ℤ-add q a b = eq_of_parts _ _ (
    omega (
      arith,
      +ℤ_parts (q *ℤ a) (q *ℤ b),
      *ℤ_parts q (a +ℤ b),
      *ℤ_parts q a,
      *ℤ_parts q b,
      ap (λ (t : ℕ). pos_part q * t) (+ℤ_parts a b),
      ap (λ (t : ℕ). neg_part q * t) (+ℤ_parts a b),
    ))

pub add-*ℤ : (q r a : ℤ) → (q +ℤ r) *ℤ a ≡ q *ℤ a +ℤ r *ℤ a
add-*ℤ q r a = eq_of_parts _ _ (
    omega (
      arith,
      +ℤ_parts (q *ℤ a) (r *ℤ a),
      *ℤ_parts (q +ℤ r) a,
      *ℤ_parts q a,
      *ℤ_parts r a,
      ap (λ (t : ℕ). pos_part a * t) (+ℤ_parts q r),
      ap (λ (t : ℕ). neg_part a * t) (+ℤ_parts q r),
    ))

pub sub-*ℤ : (q r a : ℤ) → (q -ℤ r) *ℤ a ≡ q *ℤ a -ℤ r *ℤ a
sub-*ℤ q r a = eq_of_parts _ _ (
    omega (
      arith,
      -ℤ_parts (q *ℤ a) (r *ℤ a),
      *ℤ_parts (q -ℤ r) a,
      *ℤ_parts q a,
      *ℤ_parts r a,
      ap (λ (t : ℕ). pos_part a * t) (-ℤ_parts q r),
      ap (λ (t : ℕ). neg_part a * t) (-ℤ_parts q r),
    ))

pub *ℤ_comm : (a b : ℤ) → a *ℤ b ≡ b *ℤ a
*ℤ_comm a b = eq_of_parts _ _ (omega (arith, *ℤ_parts a b, *ℤ_parts b a))

-- `int // int` for a positive divisor: it rounds down, also below zero.
unfoldable pub floor_ℤ : ℤ → ℕ → ℤ
floor_ℤ (pos n) m = pos (n / m)
floor_ℤ (negsuc n) m = negsuc (n / m)

scale_mono : (a b k : ℕ) → a ≤ b → a * k ≤ b * k
scale_mono a b k h = grind arith

pub *ℤ-mono : (q a u : ℤ) → pos 0 ≤ℤ u → q ≤ℤ a → q *ℤ u ≤ℤ a *ℤ u
*ℤ-mono q a (pos k) h le = omega (
  arith,
  *ℤ_parts q (pos k),
  *ℤ_parts a (pos k),
  scale_mono (pos_part q + neg_part a) (pos_part a + neg_part q) k le,
)
*ℤ-mono q a (negsuc k) h le = absurd (omega arith)

pub zero-*ℤ : (u : ℤ) → pos 0 *ℤ u ≡ pos 0
zero-*ℤ u = eq_of_parts _ _ (omega (arith, *ℤ_parts (pos 0) u))
