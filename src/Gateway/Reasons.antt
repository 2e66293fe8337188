-- ===== src/Gateway/Reasons.antt =====
-- How the gateway reads the texts of venue answers.
pub mod Laws
use bybit_cpp_api.Base.{
  ℕ, Bool, true, false, not, ◌&&◌, ◌||◌, Option, none, some, List, [], ◌∷◌, ◌++◌, ◌==◌,
  if◌then◌else◌,
}
use bybit_cpp_api.Text.{Text, codes, after_part, has_part, to_lower}
use bybit_cpp_api.Text.Decimal.{digits, strtol}
use bybit_cpp_api.Errors.{
  RejectKind, benign_post_only_cross, min_notional, throttled, position_closed, permanent, hard,
}

abbrev pub map_code : Option Text → Option (Bool × ℕ)
map_code none = none
map_code (some rest) = some (strtol rest)

-- `extractRetCode`: a code as its sign and size.
unfoldable pub extract_ret_code : Text → Option (Bool × ℕ)
extract_ret_code reason = map_code (after_part (codes "code: ") reason)

abbrev pub is_code : Bool × ℕ → ℕ → Bool
is_code (negative, size) k = not negative && size == k

-- The `switch` of `classifyRejectReason`; `none` is its default.
unfoldable pub kind_of_code : Bool × ℕ → Option RejectKind
kind_of_code c =
    if is_code c 30208
    then some benign_post_only_cross
    else if is_code c 110094
    then some min_notional
    else if is_code c 10006
    then some throttled
    else if is_code c 110017
    then some position_closed
    else if is_code c 10029 || is_code c 30228 || is_code c 110087
    then some permanent
    else none

abbrev pub has_any : List Text → Text → Bool
has_any [] r = false
has_any (p ∷ ps) r = has_part p r || has_any ps r

abbrev pub post_only_parts : List Text
post_only_parts =
    codes "postonly"
    ∷ codes "post only"
    ∷ codes "post-only"
    ∷ codes "take liquidity"
    ∷ codes "takeliquidity"
    ∷ []

abbrev pub min_notional_parts : List Text
min_notional_parts =
    codes "minimum order value"
    ∷ codes "min notional"
    ∷ codes "min size"
    ∷ codes "exceeded lower limit"
    ∷ []

abbrev pub throttled_parts : List Text
throttled_parts = codes "too many visits" ∷ codes "rate limit" ∷ []

abbrev pub position_closed_parts : List Text
position_closed_parts =
    codes "reduce-only rule" ∷ codes "reduce only rule" ∷ codes "position is zero" ∷ []

abbrev pub permanent_parts : List Text
permanent_parts =
    codes "sign the required agreement"
    ∷ codes "unmatched ip"
    ∷ codes "delisting"
    ∷ codes "no new positions"
    ∷ codes "position idx"
    ∷ codes "position mode"
    ∷ codes "whitelist"
    ∷ []

-- The text fallback of `classifyRejectReason`, on the lower-case reason.
unfoldable pub classify_text : Text → RejectKind
classify_text r =
    if has_any post_only_parts r
    then benign_post_only_cross
    else if has_any min_notional_parts r
    then min_notional
    else if has_any throttled_parts r
    then throttled
    else if has_any position_closed_parts r
    then position_closed
    else if has_any permanent_parts r
    then permanent
    else hard

abbrev pub bind_code {ℓ} : {A : Type ℓ} → Option (Bool × ℕ) → (Bool × ℕ → Option A) → Option A
bind_code none f = none
bind_code (some c) f = f c

abbrev pub kind_or : Option RejectKind → RejectKind → RejectKind
kind_or none k = k
kind_or (some k') k = k'

-- `classifyRejectReason`.
unfoldable pub classify_reject_reason : Text → RejectKind
unfolding extract_ret_code kind_of_code
classify_reject_reason reason =
    kind_or (bind_code (extract_ret_code reason) kind_of_code) (classify_text (to_lower reason))

abbrev pub is_gone_code : Option (Bool × ℕ) → Bool
is_gone_code none = false
is_gone_code (some c) = is_code c 110001 || is_code c 110008 || is_code c 110010

-- `isOrderGoneReason`.
unfoldable pub is_order_gone_reason : Text → Bool
unfolding extract_ret_code
is_order_gone_reason reason =
    if is_gone_code (extract_ret_code reason)
    then true
    else let r = to_lower reason in
      has_part (codes "order not exists") r
      || has_part (codes "too late") r
      || has_part (codes "order does not exist") r
      || has_part (codes "110001") r

-- `isAmbiguousOutcomeReason`.
unfoldable pub is_ambiguous_outcome_reason : Text → Bool
is_ambiguous_outcome_reason reason =
    let r = to_lower reason in
    has_part (codes "code: 10000") r
    || has_part (codes "code: 10016") r
    || has_part (codes "bad response, code 5") r
