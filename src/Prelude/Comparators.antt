-- ===== src/Prelude/Comparators.antt =====
-- Comparators built from integer keys by subtraction and by `if (gap !== 0) return gap`.
use Prim.Native.Nat.{◌≤◌, ◌<◌}
use mathlib.Core.Path.{◌≡◌}
use native.Mathlib.Omega.{arith}
use urwhaturead.Prelude.Tests.{nat_beq, if◌then◌else◌}
use urwhaturead.Prelude.Int.{ℤ, pos_part, neg_part, ◌-ℤ◌, -ℤ_parts}
use urwhaturead.Prelude.Sort.{IsComparator}

-- The sign of what a comparator returns.
abbrev pub IsNeg : ℤ → Type 0
IsNeg g = pos_part g < neg_part g

abbrev pub IsZero : ℤ → Type 0
IsZero g = pos_part g ≡ neg_part g

abbrev pub IsNonpos : ℤ → Type 0
IsNonpos g = pos_part g ≤ neg_part g

-- `if (gap !== 0) return gap` before `rest`
unfoldable pub then_by : ℤ → ℤ → ℤ
then_by gap rest = if nat_beq (pos_part gap) (neg_part gap) then rest else gap

module _ {ℓ} {A : Type ℓ} where
  -- A comparator whose ties are an equivalence that its order respects.
  pub record IsWeakOrder (cmp : A → A → ℤ) : Type ℓ where
    pub flip_pos : (a b : A) → ¬ IsNonpos (cmp a b) → IsNeg (cmp b a)
    pub zero_sym : (a b : A) → IsZero (cmp a b) → IsZero (cmp b a)
    pub zero_trans : (a b c : A) → IsZero (cmp a b) → IsZero (cmp b c) → IsZero (cmp a c)
    pub neg_trans : (a b c : A) → IsNeg (cmp a b) → IsNonpos (cmp b c) → IsNeg (cmp a c)
    pub nonpos_neg : (a b c : A) → IsNonpos (cmp a b) → IsNeg (cmp b c) → IsNeg (cmp a c)

  -- `key(b) - key(a)` orders by falling keys.
  abbrev pub by_desc : (A → ℤ) → A → A → ℤ
  by_desc key a b = key b -ℤ key a

  pub by_desc-IsWeakOrder : (key : A → ℤ) → IsWeakOrder (by_desc key)
  by_desc-IsWeakOrder key = record {
    flip_pos = λ a b h. omega (arith, -ℤ_parts);
    zero_sym = λ a b h. omega (arith, -ℤ_parts);
    zero_trans = λ a b c h k. omega (arith, -ℤ_parts);
    neg_trans = λ a b c h k. omega (arith, -ℤ_parts);
    nonpos_neg = λ a b c h k. omega (arith, -ℤ_parts);
  }

  -- `key(a) - key(b)` orders by rising keys.
  abbrev pub by_asc : (A → ℤ) → A → A → ℤ
  by_asc key a b = key a -ℤ key b

  pub by_asc-IsWeakOrder : (key : A → ℤ) → IsWeakOrder (by_asc key)
  by_asc-IsWeakOrder key = record {
    flip_pos = λ a b h. omega (arith, -ℤ_parts);
    zero_sym = λ a b h. omega (arith, -ℤ_parts);
    zero_trans = λ a b c h k. omega (arith, -ℤ_parts);
    neg_trans = λ a b c h k. omega (arith, -ℤ_parts);
    nonpos_neg = λ a b c h k. omega (arith, -ℤ_parts);
  }

  abbrev pub lexicographic : (A → A → ℤ) → (A → A → ℤ) → A → A → ℤ
  lexicographic f g a b = then_by (f a b) (g a b)

  module _ {f g : A → A → ℤ} (u : IsWeakOrder f) (v : IsWeakOrder g) where
    flip_pos_lex : (a b : A) → ¬ IsNonpos (lexicographic f g a b) → IsNeg (lexicographic f g b a)
    unfolding then_by
    flip_pos_lex a b h =
        ground (arith, u.flip_pos a b, u.zero_sym a b, u.zero_sym b a, v.flip_pos a b)

    IsZero-sym_lex : (a b : A) → IsZero (lexicographic f g a b) → IsZero (lexicographic f g b a)
    unfolding then_by
    IsZero-sym_lex a b h = ground (arith, u.zero_sym a b, v.zero_sym a b)

    IsZero-trans_lex :
        (a b c : A)
        → IsZero (lexicographic f g a b)
        → IsZero (lexicographic f g b c)
        → IsZero (lexicographic f g a c)
    unfolding then_by
    IsZero-trans_lex a b c h k = ground (arith, u.zero_trans a b c, v.zero_trans a b c)

    IsNeg-trans_lex :
        (a b c : A)
        → IsNeg (lexicographic f g a b)
        → IsNonpos (lexicographic f g b c)
        → IsNeg (lexicographic f g a c)
    unfolding then_by
    IsNeg-trans_lex a b c h k =
        ground (arith, u.zero_trans a b c, u.neg_trans a b c, u.nonpos_neg a b c, v.neg_trans a b c)

    nonpos-IsNeg_lex :
        (a b c : A)
        → IsNonpos (lexicographic f g a b)
        → IsNeg (lexicographic f g b c)
        → IsNeg (lexicographic f g a c)
    unfolding then_by
    nonpos-IsNeg_lex a b c h k =
        ground
          (arith, u.zero_trans a b c, u.neg_trans a b c, u.nonpos_neg a b c, v.nonpos_neg a b c)

    pub lexicographic-IsWeakOrder : IsWeakOrder (lexicographic f g)
    lexicographic-IsWeakOrder = record {
      flip_pos = flip_pos_lex;
      zero_sym = IsZero-sym_lex;
      zero_trans = IsZero-trans_lex;
      neg_trans = IsNeg-trans_lex;
      nonpos_neg = nonpos-IsNeg_lex;
    }

  module _ {cmp : A → A → ℤ} (w : IsWeakOrder cmp) where
    IsNonpos-trans : (a b c : A) → IsNonpos (cmp a b) → IsNonpos (cmp b c) → IsNonpos (cmp a c)
    IsNonpos-trans a b c h k =
        ground (arith, w.zero_trans a b c, w.neg_trans a b c, w.nonpos_neg a b c)

    pub IsWeakOrder-IsComparator : IsComparator cmp
    IsWeakOrder-IsComparator = record {
      keeps_total = λ a b h. ground (arith, w.flip_pos a b);
      keeps_trans = λ a b c h k. ground (arith, IsNonpos-trans a b c);
    }
