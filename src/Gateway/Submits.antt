-- ===== src/Gateway/Submits.antt =====
-- What the results of the order operations tell the caller.
use bybit_cpp_api.Base.{
  ℕ, ◌≤◌, ◌≡◌, refl, ap, ◌∙◌, Bool, true, false, some, arith, if◌then◌else◌, if-elim,
}
use bybit_cpp_api.Text.{Text}
use bybit_cpp_api.Text.Decimal.{long_max}
use bybit_cpp_api.Errors.{
  Error, RejectKind, Result, ok, err, transport_error, execution_unknown, order_not_found,
  runtime_error, gateway_error, what,
}
use bybit_cpp_api.Models.Orders.{Doubles}
use bybit_cpp_api.Rest.Responses.{
  Response, api_error, bad_response, read_response, check_response, handle_bybit_response,
  is_execution_unknown_code, is_order_not_found_code,
}
use bybit_cpp_api.Gateway.Interface.{RestApi, OrderSide, Gateway}
use bybit_cpp_api.Gateway.Reasons.{
  classify_reject_reason, is_ambiguous_outcome_reason, kind_of_code,
}
use bybit_cpp_api.Gateway.Reasons.Laws.{
  classify-api_error, ambiguous-backend_timeout, ambiguous-bad_response,
}
use bybit_cpp_api.Gateway.Orders.{
  post_only_limit, submit_post_only_limit, require_event_stream, guarded, translate, reject,
}

guarded-ok : {A : Type 0} (r : Result A) → guarded r ≡ ok tt → (a : A) × (r ≡ ok a)
unfolding guarded
guarded-ok (ok a) h = (a, refl)
guarded-ok (err x) h = cc

-- An error with an ambiguous text is passed on as it is.
translate-ambiguous : (x : Error) → is_ambiguous_outcome_reason (what x) ≡ true → translate x ≡ x
unfolding translate reject
translate-ambiguous (transport_error m) h = refl
translate-ambiguous (execution_unknown m) h = rw h refl
translate-ambiguous (order_not_found m) h = rw h refl
translate-ambiguous (runtime_error m) h = rw h refl
translate-ambiguous (gateway_error kind m) h = rw h refl

reject-clear :
    (x : Error)
    → is_ambiguous_outcome_reason (what x) ≡ false
    → reject x ≡ gateway_error (classify_reject_reason (what x)) (what x)
unfolding reject
reject-clear x h = rw h refl

-- The error that the REST client makes of a code that is not 0.
abbrev code_error : ℕ → Text → Error
code_error c m =
    if is_execution_unknown_code c
    then execution_unknown m
    else if is_order_not_found_code c
    then order_not_found m
    else runtime_error m

translate-code_error :
    (c : ℕ) (m : Text)
    → is_ambiguous_outcome_reason m ≡ false
    → translate (code_error c m) ≡ gateway_error (classify_reject_reason m) m
unfolding translate
translate-code_error c m h =
    if-elim (λ x. translate x ≡ gateway_error (classify_reject_reason m) m)
      (is_execution_unknown_code c) _ _ (reject-clear (execution_unknown m) h)
      (if-elim (λ x. translate x ≡ gateway_error (classify_reject_reason m) m)
        (is_order_not_found_code c) _ _ (reject-clear (order_not_found m) h)
        (reject-clear (runtime_error m) h))

-- What the client makes of an HTTP 200 with a code that is not 0.
read-code :
    {A : Type 0} (r : Response A)
    → r.status ≡ 200
    → (r.ret_code ≡ 0 → ⊥)
    → read_response r ≡ err (code_error r.ret_code (api_error r.ret_code r.ret_msg))
unfolding read_response check_response handle_bybit_response
read-code r s c = ground arith

-- What the client makes of an HTTP status of the 5xx family.
read-server_fault :
    {A : Type 0} (r : Response A)
    → 500 ≤ r.status
    → read_response r ≡ err (execution_unknown (bad_response r.status r.body))
unfolding read_response check_response
read-server_fault r h = ground arith

-- A resting order is reported as submitted only if the private stream was live and the venue took
-- the order.
pub submit-ok :
    (ds : Doubles) (api : RestApi ds.Double) (g : Gateway) (live : Bool) (id symbol : Text)
    (side : OrderSide) (qty price : ds.Double) (reduce_only : Bool)
    → submit_post_only_limit ds api g live id symbol side qty price reduce_only ≡ ok tt
    → (live ≡ true)
      × (order_id : Text) × (api.place_order
            (post_only_limit ds g id symbol side qty price reduce_only)
          ≡ ok order_id)
unfolding submit_post_only_limit require_event_stream
submit-ok ds api g true id symbol side qty price reduce_only h =
    let sent = guarded-ok _ h in (refl, sent.0, sent.1)
submit-ok ds api g false id symbol side qty price reduce_only h = cc

module _ (ds : Doubles) (api : RestApi ds.Double) (g : Gateway) (id symbol : Text)
    (side : OrderSide) (qty price : ds.Double) (reduce_only : Bool) (r : Response Text)
    (answer : api.place_order (post_only_limit ds g id symbol side qty price reduce_only)
      ≡ read_response r) where
  submitted : Result (Unit {0})
  submitted = submit_post_only_limit ds api g true id symbol side qty price reduce_only

  submit-guarded : submitted ≡ guarded (read_response r)
  unfolding submitted submit_post_only_limit require_event_stream
  submit-guarded = rw answer refl

  -- A submit that the venue answered with an HTTP status of the 5xx family fails with the client's
  -- error of an unknown outcome, never with a reject.
  pub submit-server_fault :
      500 ≤ r.status
      → r.status ≤ 599
      → submit_post_only_limit ds api g true id symbol side qty price reduce_only
        ≡ err (execution_unknown (bad_response r.status r.body))
  unfolding submitted guarded
  submit-server_fault l h =
      submit-guarded
      ∙ rw (read-server_fault r l) (
          ap err (
            translate-ambiguous (execution_unknown (bad_response r.status r.body))
              (ambiguous-bad_response r.status r.body l (omega arith))))

  -- A submit that the venue refused with a code of the reject table, in an answer whose text has none
  -- of the marks of an ambiguous outcome, fails with the reject of that code, whatever else its
  -- message says.
  pub submit-rejected :
      (kind : RejectKind)
      → r.status ≡ 200
      → r.ret_code ≤ long_max
      → kind_of_code (false, r.ret_code) ≡ some kind
      → is_ambiguous_outcome_reason (api_error r.ret_code r.ret_msg) ≡ false
      → submit_post_only_limit ds api g true id symbol side qty price reduce_only
        ≡ err (gateway_error kind (api_error r.ret_code r.ret_msg))
  unfolding submitted guarded kind_of_code
  submit-rejected kind s l k a =
      submit-guarded
      ∙ rw
          (
            read-code r s (ground arith),
            translate-code_error r.ret_code (api_error r.ret_code r.ret_msg) a,
            classify-api_error r.ret_code r.ret_msg kind l k,
          )
          refl

  -- A submit that the venue answered with its backend timeout 170007, which the REST client holds for
  -- an unknown outcome, is reported as a reject, unless the venue's message alone has a mark of an
  -- ambiguous outcome.
  pub submit-backend_timeout :
      (msg : Text)
      → r.status ≡ 200
      → r.ret_code ≡ 170007
      → r.ret_msg ≡ msg
      → is_ambiguous_outcome_reason msg ≡ false
      → (read_response r ≡ err (execution_unknown (api_error 170007 msg)))
        × (submit_post_only_limit ds api g true id symbol side qty price reduce_only
            ≡ err (
                gateway_error
                  (classify_reject_reason (api_error 170007 msg))
                  (api_error 170007 msg)))
  unfolding submitted guarded is_execution_unknown_code translate reject
  submit-backend_timeout msg s c m a =
      let e : read_response r ≡ err (execution_unknown (api_error 170007 msg)) =
        read-code r s (omega arith)
        ∙ ap (λ c. err (code_error c (api_error c r.ret_msg))) c
        ∙ ap (λ m. err (execution_unknown (api_error 170007 m))) m in
      (
        e,
        submit-guarded
            ∙ rw e (
                ap err (
                  reject-clear (execution_unknown (api_error 170007 msg))
                    (ambiguous-backend_timeout msg ∙ a))),
      )
