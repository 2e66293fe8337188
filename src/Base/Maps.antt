-- ===== src/Base/Maps.antt =====
-- `std::map` as a list of entries, for a decided equality of keys.
use mathlib.Core.Path.{◌≡◌, refl}
use mathlib.Core.Bool.{Bool, true, false}
use mathlib.Core.Option.{Option, none, some}
use mathlib.Core.List.{List, [], ◌∷◌}
use native.Mathlib.Omega.{arith}
use bybit_cpp_api.Base.Tests.{if◌then◌else◌}

-- The laws of the keys' equality that the lookups rest on.
abbrev pub IsEquality {ℓ} : {K : Type ℓ} → (K → K → Bool) → Type ℓ
IsEquality {K} same =
    ((k : K) → same k k ≡ true)
    × ((j k l : K) → same j k ≡ true → same j l ≡ true → same k l ≡ true)

module _ {ℓ κ} {K : Type ℓ} {V : Type κ} (same : K → K → Bool) where
  -- `m.find(k)`.
  unfoldable pub lookup : K → List (K × V) → Option V
  lookup k [] = none
  lookup k ((j, v) ∷ m) = if same j k then some v else lookup k m

  -- `m.insert_or_assign(k, v)`.
  unfoldable pub insert_or_assign : K → V → List (K × V) → List (K × V)
  insert_or_assign k v [] = (k, v) ∷ []
  insert_or_assign k v ((j, w) ∷ m) =
      if same j k then (j, v) ∷ m else (j, w) ∷ insert_or_assign k v m

  -- `m.erase(k)`.
  unfoldable pub erase : K → List (K × V) → List (K × V)
  erase k [] = []
  erase k ((j, w) ∷ m) = let rest = erase k m in if same j k then rest else (j, w) ∷ rest

  pub lookup-insert_or_assign :
      IsEquality same
      → (k : K) (v : V) (m : List (K × V)) → lookup k (insert_or_assign k v m) ≡ some v
  unfolding lookup insert_or_assign
  lookup-insert_or_assign e k v [] = ground (arith, e.0 k)
  lookup-insert_or_assign e k v ((j, w) ∷ m) = ground (arith, lookup-insert_or_assign e k v m)

  pub lookup-insert_or_assign_ne :
      IsEquality same
      → (k l : K) (v : V) (m : List (K × V)) → same k l ≡ false
      → lookup l (insert_or_assign k v m) ≡ lookup l m
  unfolding lookup insert_or_assign
  lookup-insert_or_assign_ne e k l v [] h = ground arith
  lookup-insert_or_assign_ne e k l v ((j, w) ∷ m) h =
      ground (arith, lookup-insert_or_assign_ne e k l v m h, e.1 j k l)

  pub lookup-erase : (k : K) (m : List (K × V)) → lookup k (erase k m) ≡ none
  unfolding lookup erase
  lookup-erase k [] = refl
  lookup-erase k ((j, w) ∷ m) = ground (arith, lookup-erase k m)

  pub lookup-erase_ne :
      IsEquality same
      → (k l : K) (m : List (K × V)) → same k l ≡ false
      → lookup l (erase k m) ≡ lookup l m
  unfolding lookup erase
  lookup-erase_ne e k l [] h = refl
  lookup-erase_ne e k l ((j, w) ∷ m) h = ground (arith, lookup-erase_ne e k l m h, e.1 j k l)
