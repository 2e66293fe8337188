-- ===== src/Text.antt =====
-- Texts as their code points, with what the program uses of the C++ standard library on them:
-- find, starts_with, tolower, to_string and strtol.
pub mod Decimal
use Prim.Native.Char.{code}
use bybit_cpp_api.Base.{
  ℕ, ◌+◌, ◌≡◌, refl, sym, String, Bool, true, false, ◌&&◌, Option, none, some, List, [], ◌∷◌, ◌++◌,
  map, arith, leb, ◌==◌, if◌then◌else◌, is_some, IsEquality,
}

abbrev pub Text : Type 0
Text = List ℕ

-- The code points of a literal. `String` has its own `[]` and `∷`.
abbrev pub codes : String → Text
codes String.[] = []
codes (String.◌∷◌ c s) = code c ∷ codes s

-- The rest of a text behind a prefix, if it has that prefix.
unfoldable pub drop_prefix : Text → Text → Option Text
drop_prefix [] s = some s
drop_prefix (c ∷ p) [] = none
drop_prefix (c ∷ p) (d ∷ s) = if c == d then drop_prefix p s else none

abbrev pub first_some : Option Text → Option Text → Option Text
first_some (some r) o = some r
first_some none o = o

-- What stands behind the first occurrence of a part.
unfoldable pub after_part : Text → Text → Option Text
unfolding drop_prefix
after_part p [] = drop_prefix p []
after_part p (c ∷ s) = first_some (drop_prefix p (c ∷ s)) (after_part p s)

-- `s.find(p) != npos`.
unfoldable pub has_part : Text → Text → Bool
unfolding after_part
has_part p s = is_some (after_part p s)

-- `s.starts_with(p)`.
unfoldable pub starts_with : Text → Text → Bool
unfolding drop_prefix
starts_with p s = is_some (drop_prefix p s)

-- `std::tolower` in the C locale.
unfoldable pub to_lower_char : ℕ → ℕ
to_lower_char c = if leb b'A' c && leb c b'Z' then c + 32 else c

unfoldable pub to_lower : Text → Text
unfolding to_lower_char
to_lower = map to_lower_char

pub drop_prefix-append : (p s : Text) → drop_prefix p (p ++ s) ≡ some s
unfolding drop_prefix
drop_prefix-append [] s = refl
drop_prefix-append (c ∷ p) s = ground (arith, drop_prefix-append p s)

-- `s == t`.
unfoldable pub same_text : Text → Text → Bool
same_text [] [] = true
same_text (c ∷ s) (d ∷ t) = c == d && same_text s t
same_text _ _ = false

pub same_text_refl : (s : Text) → same_text s s ≡ true
unfolding same_text
same_text_refl [] = refl
same_text_refl (c ∷ s) = ground (arith, same_text_refl s)

pub same_text-eq : (s t : Text) → same_text s t ≡ true → s ≡ t
unfolding same_text
same_text-eq [] [] h = refl
same_text-eq [] (d ∷ t) h = ground arith
same_text-eq (c ∷ s) [] h = ground arith
same_text-eq (c ∷ s) (d ∷ t) h = grind (arith, same_text-eq s t)

pub same_text-IsEquality : IsEquality same_text
same_text-IsEquality = (
  same_text_refl,
  λ j k l h g. rw (sym (same_text-eq j k h), sym (same_text-eq j l g)) (same_text_refl j),
)
