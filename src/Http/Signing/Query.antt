-- ===== src/Http/Signing/Query.antt =====
-- What `get` signs is the query string that it sends.
use bybit_cpp_api.Base.{
  ℕ, ◌≡◌, refl, ◌∙◌, false, not, none, some, List, [], ◌∷◌, ◌++◌, if◌then◌else◌, is_empty, arith,
}
use bybit_cpp_api.Text.{Text, codes, after_part, drop_prefix}
use bybit_cpp_api.Text.Decimal.{digits}
use bybit_cpp_api.Http.{HttpSession}
use bybit_cpp_api.Http.Clock.{Asking, signing_timestamp}
use bybit_cpp_api.Http.Signing.{
  signed_digits, create_query_str, create_query_str-joined, joined, final_path, query_of,
  authenticate_non_post,
}

after_part-found :
    (c : ℕ) (s t : Text)
    → after_part (c ∷ []) s ≡ none
    → after_part (c ∷ []) (s ++ (c ∷ t)) ≡ some t
unfolding after_part drop_prefix
after_part-found c [] t h = ground arith
after_part-found c (d ∷ s) t h = ground (arith, after_part-found c s t)

targeted :
    (path query : Text)
    → after_part (b'?' ∷ []) path ≡ none
    → query_of (if not (is_empty query) then path ++ (b'?' ∷ query) else path) ≡ query
unfolding query_of
targeted path [] h = rw h refl
targeted path (c ∷ query) h = rw (after_part-found b'?' path (c ∷ query) h) refl

query_of-final_path :
    (path : Text) (ps : List (Text × Text))
    → after_part (b'?' ∷ []) path ≡ none
    → query_of (final_path path ps) ≡ joined ps
unfolding final_path
query_of-final_path path ps h = targeted path (create_query_str ps) h ∙ create_query_str-joined ps

-- With an API key and a path without a question mark, `get` signs the timestamp that it sends, the key, the
-- window that it sends and its parameters as `key=value` with an ampersand between two.
pub authenticate_non_post-headers :
    (hmac : Text → Text → Text) (now later : ℕ) (a : Asking) (path : Text) (ps : List (Text × Text))
    (s : HttpSession)
    → is_empty s.api_key ≡ false
    → after_part (b'?' ∷ []) path ≡ none
    → let ts = signed_digits (signing_timestamp now later a s).1 in
      (authenticate_non_post hmac now later a (final_path path ps) s).1.headers
      ≡ (codes "X-BAPI-API-KEY", s.api_key)
        ∷ (
          codes "X-BAPI-SIGN",
          hmac s.api_secret (ts ++ (s.api_key ++ (digits s.receive_window ++ joined ps))),
        )
        ∷ (codes "X-BAPI-SIGN-TYPE", codes "2")
        ∷ (codes "X-BAPI-TIMESTAMP", ts)
        ∷ (codes "X-BAPI-RECV-WINDOW", digits s.receive_window)
        ∷ []
unfolding authenticate_non_post
authenticate_non_post-headers hmac now later a path ps s k h =
    rw (k, query_of-final_path path ps h) refl
