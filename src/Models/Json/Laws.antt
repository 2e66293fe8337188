-- ===== src/Models/Json/Laws.antt =====
-- What a chain of readers makes of an object.
use bybit_cpp_api.Base.{
  ◌≡◌, refl, sym, ap, ◌∙◌, Bool, true, false, List, [], ◌∷◌, map, ◌&&◌, if◌then◌else◌,
}
use bybit_cpp_api.Models.Json.{
  Reading, thrown, undefined, read, ◌then◌, Step, steps, Field, fields, read_rows,
}

module _ {A : Type 0} where
  value_or : A → Reading A → A
  value_or a (read b) = b
  value_or a _ = a

  is_read : Reading A → Bool
  is_read (read b) = true
  is_read _ = false

  pub read-injective : {a b : A} → read a ≡ read b → a ≡ b
  unfolding value_or
  read-injective {a} e = ap (value_or a) e

-- What was read before a reader that the whole reading got past.
pub then-read :
    {A B : Type 0} (r : Reading A) (f : A → Reading B) (b : B)
    → (r then f) ≡ read b
    → (a : A) × (r ≡ read a) × (f a ≡ read b)
unfolding ◌then◌
then-read thrown f b e = cc
then-read undefined f b e = cc
then-read (read a) f b e = (a, refl, e)

-- Rows are read all or none: each row's value, in the rows' order.
pub read_rows-read :
    {J A : Type 0} (reader : J → Reading A) (rows : List J) (vs : List A)
    → read_rows reader rows ≡ read vs
    → map reader rows ≡ map (λ a. read a) vs
unfolding read_rows
read_rows-read reader [] vs e = ap (map (λ a. read a)) (read-injective e)
read_rows-read reader (j ∷ js) vs e =
    let first = then-read (reader j) _ vs e in
    let others = then-read (read_rows reader js) _ vs first.2 in
    ap (λ r. r ∷ map reader js) first.1
    ∙ ap (λ rs. read first.0 ∷ rs) (read_rows-read reader js others.0 others.1)
    ∙ ap (map (λ a. read a)) (read-injective others.2)

-- Whether no field throws, and what they set together.
abbrev pub all_whole : {A : Type 0} → List (Field A) → Bool
all_whole [] = true
all_whole (f ∷ fs) = f.is_whole && all_whole fs

abbrev pub updated : {A : Type 0} → List (Field A) → A → A
updated [] a = a
updated (f ∷ fs) a = updated fs (f.update a)

choose-read :
    {A : Type 0} (b others : Bool) (r : Reading A) (a : A)
    → r ≡ (if others then read a else thrown)
    → elim b [ true ↦ r | false ↦ thrown ] ≡ (if b && others then read a else thrown)
choose-read true others r a e = e
choose-read false others r a e = refl

-- Fields are all read, or one of them throws.
pub fields-updated :
    {A : Type 0} (fs : List (Field A)) (a : A)
    → fields fs a ≡ (if all_whole fs then read (updated fs a) else thrown)
unfolding fields
fields-updated [] a = refl
fields-updated (f ∷ fs) a =
    choose-read f.is_whole (all_whole fs) (fields fs (f.update a)) _
      (fields-updated fs (f.update a))

chosen :
    {A : Type 0} (w : Bool) (r : Reading A) (b : A)
    → elim w [ true ↦ r | false ↦ thrown ] ≡ read b
    → r ≡ read b
chosen true r b e = e
chosen false r b e = cc

pub steps-read :
    {A : Type 0} (s : Step A) (rest : List (Step A)) (a b : A)
    → steps (s ∷ rest) a ≡ read b
    → (c : A) × (s a ≡ read c) × (steps rest c ≡ read b)
unfolding steps
steps-read s rest a b e = then-read (s a) (steps rest) b e

pub fields-read :
    {A : Type 0} (fs : List (Field A)) (a b : A) → fields fs a ≡ read b → b ≡ updated fs a
unfolding fields
fields-read [] a b e = sym (read-injective e)
fields-read (f ∷ fs) a b e = fields-read fs (f.update a) b (chosen f.is_whole _ b e)

pub steps-end : {A : Type 0} {a b : A} → steps [] a ≡ read b → b ≡ a
unfolding steps
steps-end e = sym (read-injective e)
