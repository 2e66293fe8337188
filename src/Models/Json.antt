-- ===== src/Models/Json.antt =====
-- The JSON readers of the wire formats (src/bybit_models.cpp, src/bybit_event_models.cpp). The JSON library
-- and the readers of single members (`stonky/utils/json_utils.h`) are parameters.
pub mod Laws
pub mod Events
pub mod Market
pub mod Instruments
pub mod Funding
pub mod Orders
pub mod Wallet
pub mod Stream
pub mod Responses
use bybit_cpp_api.Base.{ℕ, Bool, true, false, Option, none, some, List, [], ◌∷◌, is_some}
use bybit_cpp_api.Text.{Text, codes}
use bybit_cpp_api.Models.Streams.{Member}

-- How a reader ends: with a throw, with what the language leaves open, or with a value.
pub data Reading (A : Type 0) : Type 0 where
  thrown undefined : Reading A
  read : A → Reading A

-- A throw passes over what follows.
infixl 5 ◌then◌
unfoldable pub ◌then◌ : {A B : Type 0} → Reading A → (A → Reading B) → Reading B
thrown then f = thrown
undefined then f = undefined
read a then f = f a

-- What the readers use of the JSON library, for its values `J` and for the doubles `D`.
pub record Json (J D : Type 0) : Type 1 where
  pub null : J
  pub find : J → Text → Option J
  pub find_or_null : J → Text → Reading J  -- `j[key]` of a value that may change: a missing member is null
  pub at : J → ℕ → Reading J  -- `j[n]` of an array that may not change
  pub items : J → List J
  pub is_array : J → Bool
  pub get_text : J → Reading Text  -- `get<std::string>`
  pub as_text : J → Option Text  -- a string that is not null, if it is one
  pub stoll : Text → Reading ℕ
  pub stod : Text → Reading D
  pub is_nonzero_decimal : Text → Reading Bool  -- of a decimal number of 50 digits
  -- `readValue`, `readStringAsDouble`, `readStringAsInt64` and `readStringAsInt`: absent where they leave
  -- the target as it is, or return the default, which is the target or its initial value.
  pub text : J → Text → Member Text
  pub flag : J → Text → Member Bool
  pub integer : J → Text → Member ℕ
  pub double : J → Text → Member D
  pub number : J → Text → Member ℕ
  -- `readMagicEnum`, with the `enum_cast` of the enum.
  pub enumerator : {E : Type 0} → (Text → Option E) → J → Text → Member E

-- One reader of a `fromJson`.
abbrev pub Step : Type 0 → Type 0
Step A = A → Reading A

-- The readers in their order.
unfoldable pub steps : {A : Type 0} → List (Step A) → Step A
unfolding ◌then◌
steps [] a = read a
steps (s ∷ rest) a = s a then steps rest

-- The value of a member; an absent one leaves the value that the target has.
abbrev pub member_or : {A : Type 0} → A → Member A → A
member_or a (Member.given b) = b
member_or a _ = a

-- Whether the reader of a member does not throw.
abbrev pub whole : {A : Type 0} → Member A → Bool
whole Member.malformed = false
whole _ = true

-- The reader of one field: whether it does not throw, and what it sets.
pub record Field (A : Type 0) : Type 0 where
  pub is_whole : Bool
  pub update : A → A

unfoldable pub into : {A B : Type 0} → (A → Member B → A) → Member B → Field A
into set m = record { is_whole = whole m; update = λ a. set a m }

-- Fields, one after the other; a throw passes over the others.
unfoldable pub fields : {A : Type 0} → List (Field A) → Step A
fields [] a = read a
fields (f ∷ fs) a = elim f.is_whole [ true ↦ fields fs (f.update a) | false ↦ thrown ]

-- Readers that run under a condition.
unfoldable pub only_if : {A : Type 0} → Bool → Step A → Step A
only_if true s a = s a
only_if false s a = read a

-- The elements of a list, each with the reader, until one throws.
unfoldable pub read_rows : {J A : Type 0} → (J → Reading A) → List J → Reading (List A)
unfolding ◌then◌
read_rows reader [] = read []
read_rows reader (j ∷ js) = reader j then (λ a. read_rows reader js then (λ rest. read (a ∷ rest)))

module _ {J D : Type 0} (json : Json J D) where
  -- `result["list"].items()`, where `result` is a member of the response that is read.
  unfoldable pub list_rows : J → Reading (List J)
  unfolding ◌then◌
  list_rows result = json.find_or_null result (codes "list") then (λ l. read (json.items l))

  -- `json[key]` of an object that may not change: a missing member is not looked for.
  unfoldable pub member_of : Text → J → Reading J
  member_of key j = elim (json.find j key) [ none ↦ undefined | some member ↦ read member ]

  -- `json.contains(key)`.
  abbrev pub has_member : Text → J → Bool
  has_member key j = is_some (json.find j key)
