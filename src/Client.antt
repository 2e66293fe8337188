-- ===== src/Client.antt =====
-- The WebSocket client (src/bybit_ws_client.cpp), one call of its user at a time (the lock is held
-- over each), and the private stream on top of it.
pub mod Io
pub mod Private
pub mod Public
use bybit_cpp_api.Base.{
  ℕ, ◌≡◌, refl, String, Bool, true, false, not, ◌&&◌, Option, none, some, List, [], ◌∷◌, ◌++◌,
  if◌then◌else◌, ◌is◌,
}
use bybit_cpp_api.Session.State.{Session, Env, new, non_empty, set_credentials}
use bybit_cpp_api.Session.Topics.{
  add_topic, remove_topic, flush_topics, is_subscribed, is_subscription_confirmed,
}
use bybit_cpp_api.Session.Connect.{start_connect, close_by_user}
use bybit_cpp_api.Session.Events.{run, unsubscribe_posted}

-- What the calls post to the session's strand.
pub data Task : Type 0 where
  start flush close : Task
  unsubscribed : String → Task

-- The client, its session, and the tasks that it has posted and that have not run, oldest first.
pub record Client : Type 0 where
  pub host : String
  pub port : String
  pub path : String
  pub api_key : String
  pub api_secret : String
  pub sign : String → ℕ → String  -- the sessions' signature of a secret and an expiry
  pub has_data_cb : Bool
  pub session : Option Session
  pub posted : List Task

abbrev pub post : Task → Client → Client
post task c = record c { posted = c.posted ++ task ∷ [] }

-- `setEndpoint` and `setCredentials`.
unfoldable pub set_endpoint : String → String → String → Client → Client
set_endpoint host port path c = record c { host = host; port = port; path = path }

unfoldable pub set_client_credentials : String → String → Client → Client
set_client_credentials key secret c = record c { api_key = key; api_secret = secret }

-- The session that `subscribe` makes, before its `run`.
unfoldable pub made : Client → Session
made c =
    if non_empty c.api_key && non_empty c.api_secret
    then set_credentials c.api_key c.api_secret (new c.sign)
    else new c.sign

-- The `run` of a session that was made and kept: on a throw the session stays as it was made.
abbrev pub started : Client → Session → Option Session → Client × Bool
started c s none = (record c { session = some s }, false)
started c s (some s') = (post Task.start (record c { session = some s' }), true)

-- `subscribe`, with `false` where it throws.
unfoldable pub subscribe_with : String → Client → Option Session → Client × Bool
unfolding made
subscribe_with t c (some s) = (post Task.flush (record c { session = some (add_topic t s) }), true)
subscribe_with t c none = let s = made c in started c s (run c.host c.port c.path t c.has_data_cb s)

unfoldable pub subscribe : String → Client → Client × Bool
unfolding subscribe_with
subscribe t c = subscribe_with t c c.session

-- What `WebSocketSession::unsubscribe` makes of the result of `removeTopic`.
abbrev pub unsubscribed_with : String → Client → Session × Bool → Client
unsubscribed_with t c (s, sent) =
    let c' = record c { session = some s } in if not sent then c' else post (Task.unsubscribed t) c'

-- `unsubscribe`.
unfoldable pub unsubscribe : String → Client → Client
unsubscribe t c = elim c.session [ none ↦ c | some s ↦ unsubscribed_with t c (remove_topic t s) ]

-- `isSubscribed`, `isSubscriptionConfirmed` and `isAuthenticated`, which ask the session, if any.
abbrev pub asks : (Session → Bool) → Option Session → Bool
asks f none = false
asks f (some s) = f s

unfoldable pub client_is_subscribed : Client → String → Bool
client_is_subscribed c t = asks (λ s. is_subscribed s t) c.session

unfoldable pub client_is_subscription_confirmed : Client → String → Bool
client_is_subscription_confirmed c t = asks (λ s. is_subscription_confirmed s t) c.session

unfoldable pub client_is_authenticated : Client → Bool
client_is_authenticated c = asks (λ s. s.authenticated_flag) c.session

-- `setDataEventCallback`, with whether it is set, and what the destructor asks of the session.
unfoldable pub set_data_event_callback : Bool → Client → Client
set_data_event_callback given c = record c { has_data_cb = given }

unfoldable pub close_session : Client → Client
close_session c = elim c.session [ none ↦ c | some s ↦ post Task.close c ]

-- A task on the strand.
unfoldable pub run_task : Env → Task → Session → Session
run_task e Task.start s = start_connect s
run_task e Task.flush s = flush_topics e s
run_task e Task.close s = close_by_user e s
run_task e (Task.unsubscribed t) s = unsubscribe_posted e t s
