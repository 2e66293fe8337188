-- ===== src/Base/Texts.antt =====
-- Lists of texts (topics): membership, removal, and lists without repetition.
use Prim.Native.String.{String}
use mathlib.Core.Path.{◌≡◌, refl}
use mathlib.Core.Bool.{Bool, true, false, not, ◌&&◌, ◌||◌}
use mathlib.Core.List.{List, [], ◌∷◌, ◌++◌}
use native.Mathlib.Omega.{arith}
use text.Mathlib.Text.{◌==◌}
use text.Mathlib.TextEquality.{eq_iff}
use text.Mathlib.TextPositions.{eq_refl}
use bybit_cpp_api.Base.Tests.{if◌then◌else◌}

infix 50 ◌is◌
abbrev pub ◌is◌ : String → String → Bool
s is t = s == t

pub is_refl : (t : String) → (t is t) ≡ true
is_refl t = eq_refl t

pub is-eq : (s t : String) → (s is t) ≡ true → s ≡ t
is-eq s t h = (eq_iff s t).0 h

pub is_comm : (s t : String) → (s is t) ≡ (t is s)
is_comm s t = ground (arith, eq_iff s t, eq_iff t s)

-- `std::ranges::find(xs, t) != xs.end()`.
unfoldable pub contains : List String → String → Bool
contains [] t = false
contains (x ∷ xs) t = x is t || contains xs t

-- `std::list::remove(t)`: every occurrence goes.
unfoldable pub remove_all : String → List String → List String
remove_all t [] = []
remove_all t (x ∷ xs) = if x is t then remove_all t xs else x ∷ remove_all t xs

-- `xs.erase(find(xs, t))`: the first occurrence goes.
unfoldable pub erase_first : String → List String → List String
erase_first t [] = []
erase_first t (x ∷ xs) = if x is t then xs else x ∷ erase_first t xs

-- No text stands in the list twice.
abbrev pub Distinct : List String → Type 0
Distinct [] = Unit
Distinct (x ∷ xs) = (contains xs x ≡ false) × Distinct xs

pub contains-append :
    (xs ys : List String) (t : String) → contains (xs ++ ys) t ≡ (contains xs t || contains ys t)
unfolding contains
contains-append [] ys t = refl
contains-append (x ∷ xs) ys t = ground (arith, contains-append xs ys t)

pub contains-remove_all :
    (t u : String) (xs : List String)
    → contains (remove_all t xs) u ≡ (contains xs u && not (t is u))
unfolding contains remove_all
contains-remove_all t u [] = refl
contains-remove_all t u (x ∷ xs) =
    ground (arith, contains-remove_all t u xs, eq_iff x t, eq_iff x u, eq_iff t u)

pub contains-erase_first_ne :
    (t u : String) (xs : List String)
    → (t is u) ≡ false
    → contains (erase_first t xs) u ≡ contains xs u
unfolding contains erase_first
contains-erase_first_ne t u [] h = refl
contains-erase_first_ne t u (x ∷ xs) h =
    ground (arith, contains-erase_first_ne t u xs h, eq_iff x t, eq_iff x u, eq_iff t u)

-- In a list without repetition the erased text is gone.
pub contains-erase_first_self :
    (t : String) (xs : List String) → Distinct xs → contains (erase_first t xs) t ≡ false
unfolding contains erase_first
contains-erase_first_self t [] d = refl
contains-erase_first_self t (x ∷ xs) d =
    ground (arith, contains-erase_first_self t xs d.1, eq_iff x t)

contains-erase_first_le :
    (t u : String) (xs : List String)
    → contains xs u ≡ false
    → contains (erase_first t xs) u ≡ false
unfolding contains erase_first
contains-erase_first_le t u [] h = refl
contains-erase_first_le t u (x ∷ xs) h = ground (arith, contains-erase_first_le t u xs)

pub Distinct-erase_first :
    (t : String) (xs ys : List String) → Distinct (xs ++ ys) → Distinct (erase_first t xs ++ ys)
unfolding contains erase_first
Distinct-erase_first t [] ys d = d
Distinct-erase_first t (x ∷ xs) ys d = ground (
  arith,
  Distinct-erase_first t xs ys d.1,
  contains-append xs ys x,
  contains-append (erase_first t xs) ys x,
  contains-erase_first_le t x xs,
)

pub Distinct-remove_all :
    (t : String) (xs ys : List String) → Distinct (xs ++ ys) → Distinct (xs ++ remove_all t ys)
unfolding contains remove_all
Distinct-remove_all t [] [] d = d
Distinct-remove_all t [] (y ∷ ys) d =
    ground (arith, Distinct-remove_all t [] ys d.1, contains-remove_all t y ys)
Distinct-remove_all t (x ∷ xs) ys d = ground (
  arith,
  Distinct-remove_all t xs ys d.1,
  contains-append xs ys x,
  contains-append xs (remove_all t ys) x,
  contains-remove_all t x ys,
)

pub Distinct-snoc :
    (t : String) (xs : List String) → Distinct xs → contains xs t ≡ false → Distinct (xs ++ t ∷ [])
unfolding contains
Distinct-snoc t [] d h = (refl, tt)
Distinct-snoc t (x ∷ xs) d h =
    ground (arith, Distinct-snoc t xs d.1, contains-append xs (t ∷ []) x, eq_iff x t, eq_iff t x)

pub Distinct-append_left : (xs ys : List String) → Distinct (xs ++ ys) → Distinct xs
Distinct-append_left [] ys d = tt
Distinct-append_left (x ∷ xs) ys d =
    ground (arith, Distinct-append_left xs ys d.1, contains-append xs ys x)
