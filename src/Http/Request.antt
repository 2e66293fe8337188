-- ===== src/Http/Request.antt =====
-- `request`: resolve, connect, handshake, write and read, each with the timeout.
use bybit_cpp_api.Base.{
  ℕ, ◌≡◌, refl, ◌⊎◌, inl, inr, Bool, true, false, Option, none, some, List, [], ◌∷◌, ◌++◌,
  if◌then◌else◌, arith,
}
use bybit_cpp_api.Text.{Text, codes}
use bybit_cpp_api.Errors.{Result, ok, err, transport_error, runtime_error}
use bybit_cpp_api.Http.{HttpSession}
use bybit_cpp_api.Models.Payload.{Payload}
use bybit_cpp_api.Http.Clock.{Asking}
use bybit_cpp_api.Http.Signing.{final_path, authenticate_non_post, authenticate_post}
use bybit_cpp_api.Http.Timed.{Handler, run_timed_operation}

-- A read, and whether the parser has the whole response behind it.
pub record Read : Type 0 where
  pub handlers : List Handler
  pub is_done : Bool

-- What the network does in one request that is answered, if at all, with an `R`.
pub record Network (R : Type 0) : Type 0 where
  pub sni_error : Option Text  -- the server name could not be set
  pub resolve : List Handler
  pub connect : List Handler
  pub handshake : List Handler
  pub write : List Handler
  pub reads : List Read
  pub response : R
  pub clock : ℕ  -- the time at which the response was complete

-- A step that failed ends the sequence.
abbrev pub then_try : Option Text → Option (Option Text) → Option (Option Text)
then_try (some e) next = some (some e)
then_try none next = next

-- The loop of the reads: `none` if the reads that are given do not end it, or the error, if any.
unfoldable pub read_all : List Read → Option (Option Text)
read_all [] = none
read_all (r ∷ rs) =
    let rest = read_all rs in
    then_try (run_timed_operation r.handlers) (if r.is_done then some none else rest)

unfoldable pub run_stages : {R : Type 0} → Network R → Option (Option Text)
unfolding read_all
run_stages n = then_try (run_timed_operation n.resolve) (
    then_try (run_timed_operation n.connect) (
      then_try (run_timed_operation n.handshake)
        (then_try (run_timed_operation n.write) (read_all n.reads))))

abbrev pub transport_failure : Text → Text → Text
transport_failure target what = codes "Transport failure for " ++ (target ++ (codes ": " ++ what))

abbrev pub ended_with :
    {R : Type 0}
    → Text
    → Network R
    → HttpSession
    → Option (Option Text)
    → Option (HttpSession × Result R)
ended_with target n s none = none
ended_with target n s (some (some e)) = some (s, err (transport_error (transport_failure target e)))
ended_with target n s (some none) = some (record s { last_success = n.clock }, ok n.response)

-- `request`, without the shutdown of the stream behind a response, whose outcome is ignored. Its result is
-- `none` if the reads that are given do not end it.
unfoldable pub request :
    {R : Type 0} → Text → Network R → HttpSession → Option (HttpSession × Result R)
unfolding run_stages
request target n s = elim n.sni_error [
  | some e ↦ some (s, err (runtime_error e))
  | none ↦ ended_with target n s (run_stages n)
]

-- `setRequestTimeout`, of a number that is not negative, and `lastSuccessfulResponseMs`.
unfoldable pub set_request_timeout : ℕ → HttpSession → HttpSession
set_request_timeout timeout_ms s = record s { request_timeout = timeout_ms }

-- A read that has the whole response is among the reads.
abbrev pub Finishes : List Read → Type 0
Finishes [] = ⊥
Finishes (r ∷ rs) = (r.is_done ≡ true) ⊎ Finishes rs

-- No read failed, up to one that has the whole response.
abbrev pub ReadsWhole : List Read → Type 0
ReadsWhole [] = ⊥
ReadsWhole (r ∷ rs) = (run_timed_operation r.handlers ≡ none) × ((r.is_done ≡ true) ⊎ ReadsWhole rs)

-- Nothing failed.
abbrev pub Responds : {R : Type 0} → Network R → Type 0
Responds n =
    (run_timed_operation n.resolve ≡ none)
    × ((run_timed_operation n.connect ≡ none)
        × ((run_timed_operation n.handshake ≡ none)
            × ((run_timed_operation n.write ≡ none) × ReadsWhole n.reads)))

-- Steps that ended without an error, and then `P`, or with one.
abbrev Ended : Option (Option Text) → Type 0 → Type 0
Ended o P = ((o ≡ some none) × P) ⊎ ((e : Text) × (o ≡ some (some e)))

then_try-Ended :
    (P : Type 0) (x : Option Text) (next : Option (Option Text))
    → Ended next P
    → Ended (then_try x next) ((x ≡ none) × P)
then_try-Ended P (some e) next h = inr (e, refl)
then_try-Ended P none next (inl (h, p)) = inl (h, (refl, p))
then_try-Ended P none next (inr h) = inr h

read_on-Ended :
    (b : Bool) (rest : Option (Option Text)) (P : Type 0)
    → (b ≡ true) ⊎ Ended rest P
    → Ended (if b then some none else rest) ((b ≡ true) ⊎ P)
read_on-Ended true rest P h = inl (refl, inl refl)
read_on-Ended false rest P (inl h) = absurd (ground arith)
read_on-Ended false rest P (inr (inl (h, p))) = inl (h, inr p)
read_on-Ended false rest P (inr (inr h)) = inr h

or_later : (P Q R : Type 0) → (Q → R) → P ⊎ Q → P ⊎ R
or_later P Q R f (inl p) = inl p
or_later P Q R f (inr q) = inr (f q)

read_all-Ended : (rs : List Read) → Finishes rs → Ended (read_all rs) (ReadsWhole rs)
unfolding read_all
read_all-Ended [] h = absurd h
read_all-Ended (r ∷ rs) h =
    then_try-Ended ((r.is_done ≡ true) ⊎ ReadsWhole rs) (run_timed_operation r.handlers)
      (if r.is_done then some none else read_all rs)
      (read_on-Ended r.is_done (read_all rs) (ReadsWhole rs) (
        or_later (r.is_done ≡ true) (Finishes rs) (Ended (read_all rs) (ReadsWhole rs))
          (read_all-Ended rs) h))

module _ {R : Type 0} (target : Text) (n : Network R) (s : HttpSession) where
  run_stages-Ended : Finishes n.reads → Ended (run_stages n) (Responds n)
  unfolding run_stages
  run_stages-Ended h = then_try-Ended _ (run_timed_operation n.resolve) _ (
      then_try-Ended _ (run_timed_operation n.connect) _ (
        then_try-Ended _ (run_timed_operation n.handshake) _
          (then_try-Ended _ (run_timed_operation n.write) _ (read_all-Ended n.reads h))))

  -- What a request comes to: the response, if nothing failed, with the time of its completion, or a failure
  -- of the transport, which leaves the session as it was.
  abbrev pub ComesTo : HttpSession × Result R → Type 0
  ComesTo r =
      (Responds n × (r ≡ (record s { last_success = n.clock }, ok n.response)))
      ⊎ ((m : Text) × (r ≡ (s, err (transport_error m))))

  ended_with-ComesTo :
      (o : Option (Option Text))
      → Ended o (Responds n)
      → (r : HttpSession × Result R) × (ended_with target n s o ≡ some r) × ComesTo r
  ended_with-ComesTo o (inl (h, p)) =
      ((record s { last_success = n.clock }, ok n.response), rw h refl, inl (p, refl))
  ended_with-ComesTo o (inr (e, h)) = (
    (s, err (transport_error (transport_failure target e))),
    rw h refl,
    inr (transport_failure target e, refl),
  )

  -- Once the server name is set, a request one of whose reads has the whole response ends: with the response
  -- only if no stage and no read failed or timed out, and otherwise with a transport failure, which the
  -- callers take for an unknown outcome and which is not counted as a success.
  pub request_lem :
      n.sni_error ≡ none
      → Finishes n.reads
      → (r : HttpSession × Result R) × (request target n s ≡ some r) × ComesTo r
  unfolding request
  request_lem h f = rw h (ended_with-ComesTo (run_stages n) (run_stages-Ended f))

-- `get` and `post`: the request is signed and sent. What `hmac` and the other arguments are is said at
-- `authenticate_non_post` and `authenticate_post`.
unfoldable pub http_get :
    {R : Type 0}
    → (Text → Text → Text)
    → ℕ
    → ℕ
    → Asking
    → Network R
    → Text
    → List (Text × Text)
    → HttpSession
    → Option (HttpSession × Result R)
unfolding authenticate_non_post request
http_get hmac now later a n path ps s =
    let sent = authenticate_non_post hmac now later a (final_path path ps) s in
    request sent.1.target n sent.0

unfoldable pub http_post :
    {R : Type 0}
    → (Text → Text → Text)
    → (Payload → Text)
    → ℕ
    → ℕ
    → Asking
    → Network R
    → Text
    → Payload
    → HttpSession
    → Option (HttpSession × Result R)
unfolding authenticate_post request
http_post hmac query_string_from_json now later a n path json s =
    let sent = authenticate_post hmac query_string_from_json now later a path json s in
    request sent.1.target n sent.0
