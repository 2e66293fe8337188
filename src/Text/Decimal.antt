-- ===== src/Text/Decimal.antt =====
-- `std::to_string` on natural numbers, `strtol` in base ten, and that they fit together.
use bybit_cpp_api.Base.{
  ℕ, zero, suc, ◌+◌, ◌-◌, ◌*◌, ◌/◌, ◌%◌, ◌^◌, ◌≤◌, ◌<◌, min, ◌≡◌, ap, ◌∙◌, Bool, true, false, ◌&&◌,
  ◌||◌, List, [], ◌∷◌, ◌++◌, append_assoc, arith, ltb, leb, ◌==◌, if◌then◌else◌, Bool-cases, inl,
  inr,
}

abbrev pub is_digit : ℕ → Bool
is_digit c = leb b'0' c && leb c b'9'

-- Space, tab, line feed, vertical tab, form feed, carriage return.
abbrev pub is_space : ℕ → Bool
is_space c = c == 32 || (leb 9 c && leb c 13)

digits_from : ℕ → ℕ → List ℕ
digits_from zero n = (b'0' + n) ∷ []
digits_from (suc fuel) n = elim (ltb n 10) [
  | true ↦ (b'0' + n) ∷ []
  | false ↦ digits_from fuel (n / 10) ++ (b'0' + n % 10) ∷ []
]

-- The decimal text of a number. The number itself is fuel enough.
unfoldable pub digits : ℕ → List ℕ
unfolding digits_from
digits n = digits_from n n

unfoldable pub scan : List ℕ → ℕ → ℕ
scan [] n = n
scan (c ∷ s) n = if is_digit c then scan s (n * 10 + (c - b'0')) else n

abbrev pub long_max : ℕ
long_max = 2 ^ 63 - 1

-- The number at the head of a text, as sign and size; a size past the range is the range's end.
unfoldable pub signed : List ℕ → Bool × ℕ
unfolding scan
signed [] = (false, 0)
signed (c ∷ s) =
    if c == b'-'
    then (true, min (scan s 0) (long_max + 1))
    else if c == b'+'
    then (false, min (scan s 0) long_max)
    else (false, min (scan (c ∷ s) 0) long_max)

unfoldable pub strtol : List ℕ → Bool × ℕ
unfolding signed
strtol [] = (false, 0)
strtol (c ∷ s) = if is_space c then strtol s else signed (c ∷ s)

digit-strtol :
    (n : ℕ) (r : List ℕ) → n < 10 → strtol ((b'0' + n) ∷ r) ≡ (false, min (scan r n) long_max)
unfolding strtol
digit-strtol n r h = ground arith

scan_next : (n : ℕ) (r : List ℕ) → scan ((b'0' + n % 10) ∷ r) (n / 10) ≡ scan r n
unfolding scan
scan_next n r =
    let digit : is_digit (b'0' + n % 10) ≡ true = ground arith in
    rw digit (ap (scan r) (omega arith))

digits_from-strtol :
    (fuel n : ℕ) (r : List ℕ)
    → n ≤ fuel
    → strtol (digits_from fuel n ++ r) ≡ (false, min (scan r n) long_max)
unfolding digits_from
digits_from-strtol zero n r h = digit-strtol n r (omega arith)
digits_from-strtol (suc fuel) n r h = elim (Bool-cases (ltb n 10)) [
  | inl small ↦ rw (small, digits_from) (digit-strtol n r (ground arith))
  | inr large ↦
      rw (large, digits_from, append_assoc)
        (digits_from-strtol fuel (n / 10) ((b'0' + n % 10) ∷ r) (ground arith)
          ∙ ap (λ x. (false, min x long_max)) (scan_next n r))
]

-- What `to_string` prints is read back, whatever stands behind it, if that begins with no digit.
pub strtol-digits :
    (n c : ℕ) (r : List ℕ)
    → n ≤ long_max
    → is_digit c ≡ false
    → strtol (digits n ++ c ∷ r) ≡ (false, n)
unfolding digits scan
strtol-digits n c r h d = digits_from-strtol n n (c ∷ r) (omega arith) ∙ ground arith

digits_from-hundreds :
    (fuel n : ℕ)
    → 100 ≤ n
    → n < 1000
    → digits_from (suc (suc (suc fuel))) n
      ≡ (b'0' + n / 100) ∷ (b'0' + n / 10 % 10) ∷ (b'0' + n % 10) ∷ []
unfolding digits_from
digits_from-hundreds fuel n l h =
    let two : ltb n 10 ≡ false = ground arith in
    let one : ltb (n / 10) 10 ≡ false = ground arith in
    let none_left : ltb (n / 10 / 10) 10 ≡ true = ground arith in
    let e : n / 10 / 10 ≡ n / 100 = omega arith in
    rw (two, digits_from, one, digits_from, none_left, digits_from, e)

-- The text of a number of three digits.
pub digits-hundreds :
    (n : ℕ)
    → 100 ≤ n
    → n < 1000
    → digits n ≡ (b'0' + n / 100) ∷ (b'0' + n / 10 % 10) ∷ (b'0' + n % 10) ∷ []
unfolding digits
digits-hundreds (suc (suc (suc n))) l h = digits_from-hundreds n (suc (suc (suc n))) l h
digits-hundreds zero l h = absurd (omega arith)
digits-hundreds (suc zero) l h = absurd (omega arith)
digits-hundreds (suc (suc zero)) l h = absurd (omega arith)
