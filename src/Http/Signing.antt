-- ===== src/Http/Signing.antt =====
-- The query strings and the signatures of requests.
pub mod Query
pub mod Parsing
use bybit_cpp_api.Base.{
  ℕ, suc, ℤ, ◌⊕◌, ◌≡◌, refl, sym, ap, ◌∙◌, Bool, true, false, not, Option, none, some, List, [],
  ◌∷◌, ◌++◌, append-nil, if◌then◌else◌, is_empty, is_some, insert_or_assign, ◌==◌, arith,
}
use bybit_cpp_api.Text.{Text, codes, same_text, after_part, drop_prefix, first_some}
use bybit_cpp_api.Text.Decimal.{digits}
use bybit_cpp_api.Models.Payload.{Payload, Value}
use bybit_cpp_api.Http.{HttpSession}
use bybit_cpp_api.Http.Clock.{Asking, signing_timestamp}

-- `std::to_string` of a signed number.
unfoldable pub signed_digits : ℤ → Text
signed_digits (ℤ.pos n) = digits n
signed_digits (ℤ.negsuc n) = b'-' ∷ digits (suc n)

-- The loop of `createQueryStr` over the parameters, in their order.
unfoldable pub query_pairs : List (Text × Text) → Text
query_pairs [] = []
query_pairs ((key, value) ∷ ps) = key ++ (b'=' ∷ (value ++ (b'&' ∷ query_pairs ps)))

-- `if (!s.empty()) s.pop_back()`.
unfoldable pub without_last : Text → Text
without_last [] = []
without_last (c ∷ []) = []
without_last (c ∷ d ∷ s) = c ∷ without_last (d ∷ s)

-- `createQueryStr`.
unfoldable pub create_query_str : List (Text × Text) → Text
unfolding query_pairs without_last
create_query_str ps = without_last (query_pairs ps)

-- The independent description: `key=value`, with an ampersand between two.
abbrev pub joined : List (Text × Text) → Text
joined [] = []
joined ((key, value) ∷ []) = key ++ (b'=' ∷ value)
joined ((key, value) ∷ p ∷ ps) = key ++ (b'=' ∷ (value ++ (b'&' ∷ joined (p ∷ ps))))

without_last-append :
    (s : Text) (c : ℕ) (t : Text) → without_last (s ++ (c ∷ t)) ≡ s ++ without_last (c ∷ t)
unfolding without_last
without_last-append [] c t = refl
without_last-append (a ∷ []) c t = refl
without_last-append (a ∷ b ∷ s) c t = ap (λ r. a ∷ r) (without_last-append (b ∷ s) c t)

without_last-pair :
    (key value : Text) (c : ℕ) (t : Text)
    → without_last (key ++ (b'=' ∷ (value ++ (c ∷ t))))
      ≡ key ++ (b'=' ∷ (value ++ without_last (c ∷ t)))
unfolding without_last
without_last-pair key value c t =
    without_last-append key b'=' (value ++ (c ∷ t))
    ∙ ap (λ r. key ++ r) (without_last-append (b'=' ∷ value) c t)

without_last-lead :
    (c d : ℕ) (k t : Text) → without_last (c ∷ (k ++ (d ∷ t))) ≡ c ∷ without_last (k ++ (d ∷ t))
unfolding without_last
without_last-lead c d k t =
    without_last-append (c ∷ k) d t ∙ sym (ap (λ r. c ∷ r) (without_last-append k d t))

-- `createQueryStr` writes its parameters as `key=value` with an ampersand between two.
pub create_query_str-joined : (ps : List (Text × Text)) → create_query_str ps ≡ joined ps
unfolding create_query_str query_pairs without_last
create_query_str-joined [] = refl
create_query_str-joined ((key, value) ∷ []) =
    without_last-pair key value b'&' [] ∙ ap (λ r. key ++ (b'=' ∷ r)) (append-nil value)
create_query_str-joined ((key, value) ∷ (k, v) ∷ ps) =
    without_last-pair key value b'&' (query_pairs ((k, v) ∷ ps))
    ∙ ap (λ r. key ++ (b'=' ∷ (value ++ r)))
        (without_last-lead b'&' b'=' k (v ++ (b'&' ∷ query_pairs ps))
          ∙ ap (λ r. b'&' ∷ r) (create_query_str-joined ((k, v) ∷ ps)))

-- The request target of `get`.
unfoldable pub final_path : Text → List (Text × Text) → Text
unfolding create_query_str
final_path path ps =
    let query = create_query_str ps in if not (is_empty query) then path ++ (b'?' ∷ query) else path

-- `path.substr(path.find('?') + 1)`, or nothing.
abbrev pub or_nothing : Option Text → Text
or_nothing none = []
or_nothing (some t) = t

unfoldable pub query_of : Text → Text
unfolding after_part
query_of target = or_nothing (after_part (b'?' ∷ []) target)

-- A request as it is sent: the target, the headers that the session sets, and the body.
pub record Signed : Type 0 where
  pub target : Text
  pub headers : List (Text × Text)
  pub body : Payload

-- `authenticateNonPost`. `hmac` is the hexadecimal HMAC-SHA256 of a secret and a text.
unfoldable pub authenticate_non_post :
    (Text → Text → Text) → ℕ → ℕ → Asking → Text → HttpSession → HttpSession × Signed
unfolding signing_timestamp query_of signed_digits
authenticate_non_post hmac now later a target s =
    let stamped = signing_timestamp now later a s in
    let ts = signed_digits stamped.1 in
    let parameter_string = ts ++ (s.api_key ++ (digits s.receive_window ++ query_of target)) in
    if is_empty s.api_key then (s, record { target = target; headers = []; body = [] }) else (
      stamped.0,
      record {
        target = target;
        headers =
            (codes "X-BAPI-API-KEY", s.api_key)
            ∷ (codes "X-BAPI-SIGN", hmac s.api_secret parameter_string)
            ∷ (codes "X-BAPI-SIGN-TYPE", codes "2")
            ∷ (codes "X-BAPI-TIMESTAMP", ts)
            ∷ (codes "X-BAPI-RECV-WINDOW", digits s.receive_window)
            ∷ [];
        body = [];
      },
    )

-- `authenticatePost`: the three members are set in the payload, what is signed is the library's query
-- string of it, and the signature is the last member.
unfoldable pub authenticate_post :
    (Text → Text → Text)
    → (Payload → Text)
    → ℕ
    → ℕ
    → Asking
    → Text
    → Payload
    → HttpSession
    → HttpSession × Signed
unfolding signing_timestamp
authenticate_post hmac query_string_from_json now later a path json s =
    let stamped = signing_timestamp now later a s in
    let extended = insert_or_assign same_text (codes "api_key") (Value.text s.api_key) (
      insert_or_assign same_text (codes "recv_window") (Value.number s.receive_window)
        (insert_or_assign same_text (codes "timestamp") (Value.integer stamped.1) json)) in
    (
      stamped.0,
      record {
        target = path;
        headers = (codes "Content-Type", codes "application/json") ∷ [];
        body =
            insert_or_assign same_text (codes "sign")
              (Value.text (hmac s.api_secret (query_string_from_json extended))) extended;
      },
    )
