-- ===== src/Text/Number.antt =====
-- Decimal numbers in texts: `%d`, strconv.Itoa and strconv.ParseInt for an int64.
use auto_gardener.Base.{
  Bool, Option, [], ap, arith, false, if◌then◌else◌, is_nil, leb, ltb, none, some, suc, true, zero,
  ℕ, ◌%◌, ◌&&◌, ◌*◌, ◌++◌, ◌+◌, ◌-◌, ◌/◌, ◌==◌, ◌↔◌, ◌∷◌, ◌≡◌,
}
use auto_gardener.Base.Dict.{Key}
use auto_gardener.Text.{Text}

-- Twenty rounds are enough for the digits of a 64-bit number.
itoa_fuel : ℕ → ℕ → Text
itoa_fuel zero n = []
itoa_fuel (suc f) n =
    let rest = itoa_fuel f (n / 10) ++ (b'0' + n % 10) ∷ [] in
    if ltb n 10 then (b'0' + n) ∷ [] else rest

unfoldable pub itoa : ℕ → Text
unfolding itoa_fuel
itoa n = itoa_fuel 20 n

abbrev pub max_int64 : ℕ
max_int64 = 0x7fffffffffffffff

abbrev pub is_digit : ℕ → Bool
is_digit c = leb b'0' c && leb c b'9'

-- The value of the digits, `none` where a rune is none.
parse_digits : ℕ → Text → Option ℕ
parse_digits acc [] = some acc
parse_digits acc (c ∷ s) =
    let rest = parse_digits (acc * 10 + (c - b'0')) s in if is_digit c then rest else none

unfoldable pub parse_unsigned : Text → Option ℕ
unfolding parse_digits
parse_unsigned s = if is_nil s then none else parse_digits 0 s

-- `negsuc n` is -(n + 1).
pub data ℤ : Type 0 where
  pos : ℕ → ℤ
  negsuc : ℕ → ℤ

abbrev pub negate : ℕ → ℤ
negate zero = pos 0
negate (suc n) = negsuc n

signed : Bool → Option ℕ → Option ℤ
signed minus none = none
signed false (some n) = if leb n max_int64 then some (pos n) else none
signed true (some n) = if leb n (max_int64 + 1) then some (negate n) else none

-- strconv.ParseInt(s, 10, 64), `none` for every error
unfoldable pub parse_int : Text → Option ℤ
unfolding signed parse_unsigned
parse_int [] = none
parse_int (c ∷ s) =
    if c == b'-'
    then signed true (parse_unsigned s)
    else if c == b'+'
    then signed false (parse_unsigned s)
    else signed false (parse_unsigned (c ∷ s))

-- The equality of integers, for a map with integer keys.
abbrev pub int_eq : ℤ → ℤ → Bool
int_eq (pos a) (pos b) = a == b
int_eq (negsuc a) (negsuc b) = a == b
int_eq _ _ = false

int_eq→≡ : (a b : ℤ) → int_eq a b ≡ true → a ≡ b
int_eq→≡ (pos a) (pos b) h = ap pos (ground arith)
int_eq→≡ (negsuc a) (negsuc b) h = ap negsuc (ground arith)
int_eq→≡ (pos a) (negsuc b) h = ground arith
int_eq→≡ (negsuc a) (pos b) h = ground arith

pub int_eq_refl : (a : ℤ) → int_eq a a ≡ true
int_eq_refl (pos a) = ground arith
int_eq_refl (negsuc a) = ground arith

pub int_eq_iff : (a b : ℤ) → (int_eq a b ≡ true) ↔ (a ≡ b)
int_eq_iff a b = (int_eq→≡ a b, λ h. rw h (int_eq_refl b))

instance abbrev pub int_key : Key ℤ
int_key = record { same = int_eq; same_iff = int_eq_iff }
