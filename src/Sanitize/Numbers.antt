-- ===== src/Sanitize/Numbers.antt =====
-- The sizes that the sanitizer lets through.
use urwhaturead.Prelude.{
  ℕ, ◌+◌, ◌-◌, ◌*◌, ◌≤◌, ◌≡◌, refl, sym, ap, ◌∙◌, ◌⊎◌, ◌≢◌, inl, inr, Bool, true, false, Option,
  none, some, [], ◌∷◌, All, leb, ltb, Text, trim_start, is_white_space, is_empty, arith, Bool-cases,
}
use urwhaturead.Prelude.Decimal.{decimal, read_decimal, read-decimal, IsDigit, decimal-digits}
use urwhaturead.Sanitize.{read_digits, parse_int, attribute_of_int, sanitize_positive_int_attribute}

abbrev pub IsSize : Text → Type 0
IsSize s = (s ≡ []) ⊎ ((n : ℕ) × (s ≡ decimal n) × (1 ≤ n) × (n ≤ 4000))

attribute_of_int-IsSize : (p : Bool × Option ℕ) → IsSize (attribute_of_int p)
attribute_of_int-IsSize (negative, none) = inl refl
attribute_of_int-IsSize (true, some n) = inl refl
attribute_of_int-IsSize (false, some n) = elim (Bool-cases (leb n 0)) [
  | inl e ↦ inl (ground arith)
  | inr e ↦ elim (Bool-cases (ltb 4000 n)) [
    | inl f ↦ inl (ground arith)
    | inr f ↦ inr (n, ground arith, ground arith, ground arith)
  ]
]

-- A size attribute is absent or a decimal number from 1 to 4000, whatever the page wrote.
pub sanitize_positive_int_attribute-IsSize :
    (raw : Option Text) → IsSize (sanitize_positive_int_attribute raw)
unfolding sanitize_positive_int_attribute
sanitize_positive_int_attribute-IsSize none = inl refl
sanitize_positive_int_attribute-IsSize (some raw) = elim (Bool-cases (is_empty raw)) [
  | inl e ↦ rw e (inl refl)
  | inr e ↦ rw e (attribute_of_int-IsSize (parse_int raw))
]

read_digits-digits :
    (n : ℕ) (ds : Text) → All IsDigit ds → read_digits (some n) ds ≡ some (read_decimal n ds)
unfolding read_digits read_decimal
read_digits-digits n [] h = refl
read_digits-digits n (d ∷ ds) h = ground (arith, read_digits-digits (n * 10 + (d - 48)) ds h.1, h.0)

pub digit-not_white_space : (c : ℕ) → IsDigit c → is_white_space c ≡ false
unfolding is_white_space
digit-not_white_space c h = ground arith

-- A printed number is read back: it begins with no white space and no sign.
parse_int-digits :
    (d : ℕ) (ds : Text)
    → All IsDigit (d ∷ ds)
    → parse_int (d ∷ ds) ≡ (false, some (read_decimal 0 (d ∷ ds)))
unfolding parse_int trim_start read_digits read_decimal
parse_int-digits d ds h =
    ground (arith, digit-not_white_space d h.0, read_digits-digits (d - 48) ds h.1, h.0)

pub decimal-ne-nil : (n : ℕ) → 1 ≤ n → decimal n ≢ []
unfolding read_decimal
decimal-ne-nil n h e = absurd (omega (arith, sym (read-decimal n) ∙ ap (read_decimal 0) e))

pub decimal-parse_int :
    (s : Text) → All IsDigit s → s ≢ [] → parse_int s ≡ (false, some (read_decimal 0 s))
decimal-parse_int [] h ne = absurd (ne refl)
decimal-parse_int (d ∷ ds) h ne = parse_int-digits d ds h

-- A size that is in range passes unchanged, so sanitizing again changes no size.
pub sanitize_positive_int_attribute-decimal :
    (n : ℕ) → 1 ≤ n → n ≤ 4000 → sanitize_positive_int_attribute (some (decimal n)) ≡ decimal n
unfolding sanitize_positive_int_attribute
sanitize_positive_int_attribute-decimal n low high = ground (
  arith,
  decimal-parse_int (decimal n) (decimal-digits n) (decimal-ne-nil n low),
  read-decimal n,
  decimal-ne-nil n low,
)
