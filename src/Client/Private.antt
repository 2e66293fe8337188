-- ===== src/Client/Private.antt =====
-- The private stream (src/bybit_ws_private_stream_manager.cpp).
pub mod Messages
use bybit_cpp_api.Base.{
  ◌≡◌, refl, sym, ap, ◌∙◌, String, Bool, true, false, not, ◌&&◌, ◌||◌, Option, none, some, List, [],
  ◌∷◌, ◌++◌, arith, if◌then◌else◌, if-elim, contains, contains-append, is_refl, Bool-cases, inl,
  inr,
}
use bybit_cpp_api.Text.{Text, codes, starts_with, same_text}
use bybit_cpp_api.Models.Enums.{Environment}
use bybit_cpp_api.Session.State.{Session, Env}
use bybit_cpp_api.Session.Topics.{add_topic, is_subscribed, is_subscription_confirmed}
use bybit_cpp_api.Session.Events.{Event}
use bybit_cpp_api.Session.Running.{IsFresh}
use bybit_cpp_api.Session.Promises.{after, confirmed_connected}
use bybit_cpp_api.Client.{
  Client, subscribe, subscribe_with, client_is_subscribed, client_is_subscription_confirmed,
  client_is_authenticated,
}

-- `wsPrivateHostForEnvironment`.
unfoldable pub ws_private_host_for_environment : Environment → String
ws_private_host_for_environment Environment.testnet = "stream-testnet.bybit.com"
ws_private_host_for_environment Environment.demo = "stream-demo.bybit.com"
ws_private_host_for_environment Environment.mainnet = "stream.bybit.com"

abbrev pub order_topic : String
order_topic = "order"

abbrev pub execution_topic : String
execution_topic = "execution"

-- Where the data callback sends an event of a topic.
pub data Route : Type 0 where
  to_orders to_executions ignored : Route

unfoldable pub route : Text → Route
route topic =
    if same_text topic (codes order_topic) || starts_with (codes "order.") topic
    then Route.to_orders
    else if same_text topic (codes execution_topic) || starts_with (codes "execution.") topic
    then Route.to_executions
    else Route.ignored

abbrev pub deliver {ℓ} : {B : Type ℓ} → Option B → List B → List B
deliver none rest = rest
deliver (some b) rest = b ∷ rest

-- `dispatchArray` on an array, with a callback set: the events that it delivers. `parse` is
-- `fromJson`, which may throw.
unfoldable pub dispatch_array {ℓ κ} : {A : Type ℓ} {B : Type κ} → (A → Option B) → List A → List B
dispatch_array parse [] = []
dispatch_array parse (item ∷ items) = deliver (parse item) (dispatch_array parse items)

-- `if (!isSubscribed(topic)) subscribe(topic)`.
unfoldable pub ensure_subscribed : String → Client → Client
ensure_subscribed t c = if not (client_is_subscribed c t) then (subscribe t c).0 else c

-- `isLive`, with the client that it leaves.
unfoldable pub is_live : Client → Client × Bool
is_live c =
    let c' = ensure_subscribed order_topic c in
    let order_live = client_is_authenticated c && client_is_subscription_confirmed c' order_topic in
    let c'' = ensure_subscribed execution_topic c' in
    (c'', order_live && client_is_subscription_confirmed c'' execution_topic)

-- `connect`, without the start of the io thread.
unfoldable pub connect : Client → Client
connect c = ensure_subscribed execution_topic (ensure_subscribed order_topic c)

and_both : (a b : Bool) → (a && b) ≡ true → (a ≡ true) × (b ≡ true)
and_both a b h = ground arith

add_topic-confirmed :
    (t u : String) (s : Session)
    → is_subscription_confirmed (add_topic t s) u ≡ is_subscription_confirmed s u
unfolding add_topic is_subscription_confirmed
add_topic-confirmed t u s = ground arith

pub add_topic-subscribed : (t : String) (s : Session) → is_subscribed (add_topic t s) t ≡ true
unfolding add_topic is_subscribed contains
add_topic-subscribed t s = ground (arith, contains-append s.pending_topics (t ∷ []) t, is_refl t)

-- The session of a client after it asked for a topic.
abbrev asked : String → Session → Session
asked t s = if not (is_subscribed s t) then add_topic t s else s

ensure-session :
    (c : Client) (t : String) (s : Session)
    → c.session ≡ some s
    → (ensure_subscribed t c).session ≡ some (asked t s)
unfolding ensure_subscribed client_is_subscribed subscribe subscribe_with
ensure-session c t s e = elim (Bool-cases (is_subscribed s t)) [
  | inl b ↦ rw (e, b) refl
  | inr b ↦ rw (e, b) refl
]

asked-confirmed :
    (t u : String) (s : Session)
    → is_subscription_confirmed (asked t s) u ≡ is_subscription_confirmed s u
asked-confirmed t u s =
    if-elim (λ (s' : Session). is_subscription_confirmed s' u ≡ is_subscription_confirmed s u)
      (not (is_subscribed s t)) _ _ (add_topic-confirmed t u s) refl

asked-subscribed : (t : String) (s : Session) → is_subscribed (asked t s) t ≡ true
asked-subscribed t s = elim (Bool-cases (is_subscribed s t)) [
  | inl b ↦ rw b b
  | inr b ↦ rw b (add_topic-subscribed t s)
]

asked-keeps :
    (t u : String) (s : Session) → is_subscribed s u ≡ true → is_subscribed (asked t s) u ≡ true
unfolding add_topic is_subscribed
asked-keeps t u s h = ground (arith, contains-append s.pending_topics (t ∷ []) u)

deliver-append {ℓ} :
    {B : Type ℓ} (o : Option B) (xs ys : List B) → deliver o (xs ++ ys) ≡ deliver o xs ++ ys
deliver-append none xs ys = refl
deliver-append (some b) xs ys = refl

-- An item whose parse fails is left out, and costs no other item.
pub dispatch_array-append {ℓ κ} :
    {A : Type ℓ} {B : Type κ} (parse : A → Option B) (xs ys : List A) (bad : A)
    → parse bad ≡ none
    → dispatch_array parse (xs ++ bad ∷ ys) ≡ dispatch_array parse xs ++ dispatch_array parse ys
unfolding dispatch_array
dispatch_array-append parse [] ys bad h = rw h refl
dispatch_array-append parse (x ∷ xs) ys bad h =
    ap (deliver (parse x)) (dispatch_array-append parse xs ys bad h)
    ∙ deliver-append (parse x) (dispatch_array parse xs) (dispatch_array parse ys)

is_live-some :
    (c : Client) (s : Session)
    → c.session ≡ some s
    → (is_live c).1 ≡ (
        s.authenticated_flag
        && is_subscription_confirmed s order_topic
        && is_subscription_confirmed s execution_topic)
unfolding is_live client_is_authenticated client_is_subscription_confirmed
is_live-some c s e =
    rw
      (
        ensure-session (ensure_subscribed order_topic c) execution_topic (asked order_topic s)
            (ensure-session c order_topic s e),
        ensure-session c order_topic s e,
        e,
      )
      (rw
        (
          asked-confirmed execution_topic execution_topic (asked order_topic s),
          asked-confirmed order_topic execution_topic s,
          asked-confirmed order_topic order_topic s,
        )
        refl)

-- The private stream of a session with credentials counts as live only while the connection is up
-- and authenticated and the venue has accepted both topics.
pub is_live-online :
    (c : Client) (s : Session) (evs : List (Env × Event))
    → IsFresh s
    → c.session ≡ some (after s evs)
    → (is_live c).1 ≡ true
    → ((after s evs).connected ≡ true)
      × (((after s evs).auth_required && not (after s evs).authenticated) ≡ false)
      × (is_subscription_confirmed (after s evs) order_topic ≡ true)
      × (is_subscription_confirmed (after s evs) execution_topic ≡ true)
is_live-online c s evs f e l =
    let live = sym (is_live-some c (after s evs) e) ∙ l in
    let outer = and_both _ _ live in
    let inner = and_both _ _ outer.0 in
    let online = confirmed_connected s evs order_topic f inner.1 in
    (online.0, online.1, inner.1, outer.1)

-- Whatever the answer of `isLive`, it leaves a session that holds both topics or waits to send them,
-- so that a topic whose subscribe was rejected is asked for again.
pub is_live-asks :
    (c : Client) (s : Session)
    → c.session ≡ some s
    → (client_is_subscribed (is_live c).0 order_topic ≡ true)
      × (client_is_subscribed (is_live c).0 execution_topic ≡ true)
unfolding is_live client_is_subscribed
is_live-asks c s e =
    let final =
      ensure-session (ensure_subscribed order_topic c) execution_topic (asked order_topic s)
        (ensure-session c order_topic s e) in
    rw final (
      asked-keeps execution_topic order_topic (asked order_topic s)
          (asked-subscribed order_topic s),
      asked-subscribed execution_topic (asked order_topic s),
    )
