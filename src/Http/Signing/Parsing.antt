-- ===== src/Http/Signing/Parsing.antt =====
-- Reading a query string back.
use bybit_cpp_api.Base.{
  ℕ, ◌≡◌, refl, sym, ap, ◌∙◌, Bool, true, not, ◌&&◌, List, [], ◌∷◌, ◌++◌, map, if◌then◌else◌, ◌==◌,
  arith, All, append_assoc,
}
use bybit_cpp_api.Text.{Text}
use bybit_cpp_api.Http.Signing.{create_query_str, create_query_str-joined, joined}

-- A character before the first of some pieces.
abbrev onto_first : ℕ → List Text → List Text
onto_first c [] = (c ∷ []) ∷ []
onto_first c (piece ∷ pieces) = (c ∷ piece) ∷ pieces

-- The pieces between the separators.
unfoldable pub split_at : ℕ → Text → List Text
split_at sep [] = [] ∷ []
split_at sep (c ∷ s) =
    let rest = split_at sep s in if c == sep then [] ∷ rest else onto_first c rest

-- What stands before and behind the first separator.
unfoldable pub cut_at : ℕ → Text → Text × Text
cut_at sep [] = ([], [])
cut_at sep (c ∷ s) = let rest = cut_at sep s in if c == sep then ([], s) else (c ∷ rest.0, rest.1)

-- A reader of query strings: pieces between ampersands, each cut at its first `=`.
abbrev pub parse_query : Text → List (Text × Text)
parse_query query = map (cut_at b'=') (split_at b'&' query)

-- A character that does not stand in a text.
unfoldable pub is_free : ℕ → Text → Bool
is_free sep [] = true
is_free sep (c ∷ s) = not (c == sep) && is_free sep s

split_at-free : (sep : ℕ) (s : Text) → is_free sep s ≡ true → split_at sep s ≡ s ∷ []
unfolding split_at is_free
split_at-free sep [] h = refl
split_at-free sep (c ∷ s) h = ground (arith, split_at-free sep s)

split_at-append :
    (sep : ℕ) (s t : Text)
    → is_free sep s ≡ true
    → split_at sep (s ++ (sep ∷ t)) ≡ s ∷ split_at sep t
unfolding split_at is_free
split_at-append sep [] t h = ground arith
split_at-append sep (c ∷ s) t h = ground (arith, split_at-append sep s t)

cut_at-append : (sep : ℕ) (s t : Text) → is_free sep s ≡ true → cut_at sep (s ++ (sep ∷ t)) ≡ (s, t)
unfolding cut_at is_free
cut_at-append sep [] t h = ground arith
cut_at-append sep (c ∷ s) t h = ground (arith, cut_at-append sep s t)

is_free-append : (sep : ℕ) (s t : Text) → is_free sep (s ++ t) ≡ (is_free sep s && is_free sep t)
unfolding is_free
is_free-append sep [] t = refl
is_free-append sep (c ∷ s) t = ground (arith, is_free-append sep s t)

-- A parameter that can be read back.
abbrev pub Plain : Text × Text → Type 0
Plain (key, value) =
    (is_free b'=' key ≡ true) × (is_free b'&' key ≡ true) × (is_free b'&' value ≡ true)

-- The text of one parameter.
abbrev pair_text : Text × Text → Text
pair_text (key, value) = key ++ (b'=' ∷ value)

pair_text-free : (p : Text × Text) → Plain p → is_free b'&' (pair_text p) ≡ true
unfolding is_free
pair_text-free (key, value) h = ground (arith, is_free-append b'&' key (b'=' ∷ value), h.1, h.2)

cut_at-pair_text : (p : Text × Text) → Plain p → cut_at b'=' (pair_text p) ≡ p
cut_at-pair_text (key, value) h = cut_at-append b'=' key value h.0

joined-cons :
    (p q : Text × Text) (ps : List (Text × Text))
    → joined (p ∷ q ∷ ps) ≡ pair_text p ++ (b'&' ∷ joined (q ∷ ps))
joined-cons (key, value) q ps = sym (append_assoc key (b'=' ∷ value) (b'&' ∷ joined (q ∷ ps)))

parse_query-joined :
    (p : Text × Text) (ps : List (Text × Text))
    → All Plain (p ∷ ps)
    → parse_query (joined (p ∷ ps)) ≡ p ∷ ps
parse_query-joined p [] h =
    ap (map (cut_at b'=')) (split_at-free b'&' (pair_text p) (pair_text-free p h.0))
    ∙ ap (λ q. q ∷ []) (cut_at-pair_text p h.0)
parse_query-joined p (q ∷ ps) h =
    ap parse_query (joined-cons p q ps)
    ∙ ap (map (cut_at b'='))
        (split_at-append b'&' (pair_text p) (joined (q ∷ ps)) (pair_text-free p h.0))
    ∙ ap (λ r. r ∷ parse_query (joined (q ∷ ps))) (cut_at-pair_text p h.0)
    ∙ ap (λ r. p ∷ r) (parse_query-joined q ps h.1)

-- The query string of parameters, at least one, of which no key has an equals sign and none has an ampersand
-- in its key or its value is read back, by a reader that cuts at ampersands and then at the first equals
-- sign, as those parameters in their order.
pub parse_query-create_query_str :
    (p : Text × Text) (ps : List (Text × Text))
    → All Plain (p ∷ ps)
    → parse_query (create_query_str (p ∷ ps)) ≡ p ∷ ps
parse_query-create_query_str p ps h =
    ap parse_query (create_query_str-joined (p ∷ ps)) ∙ parse_query-joined p ps h
