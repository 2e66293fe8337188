-- ===== src/Session/Promises.antt =====
-- What a session promises over its whole life, from its first connect on.
use bybit_cpp_api.Base.{
  ◌≤◌, String, ◌≡◌, ◌⊎◌, true, false, not, ◌&&◌, List, arith, contains, if◌then◌else◌,
}
use bybit_cpp_api.Session.State.{Session, Env, reading}
use bybit_cpp_api.Session.Topics.{is_subscription_confirmed}
use bybit_cpp_api.Session.Connect.{start_connect}
use bybit_cpp_api.Session.Events.{Event, exec}
use bybit_cpp_api.Session.Alive.{is_chain, ArmedFor, IsAlive}
use bybit_cpp_api.Session.Link.{link}
use bybit_cpp_api.Session.Gate.{none_queued, none_sent}
use bybit_cpp_api.Session.Running.{IsRunning, IsFresh, start_connect-IsRunning, exec-IsRunning}

-- The states of a session that was fresh before its first connect.
abbrev pub after : Session → List (Env × Event) → Session
after s evs = exec (start_connect s) evs

after-IsRunning : (s : Session) (evs : List (Env × Event)) → IsFresh s → IsRunning (after s evs)
after-IsRunning s evs f = exec-IsRunning (start_connect s) evs (start_connect-IsRunning s f)

-- Only a close by the user stops the reconnect loop: whatever its network does, a session that was
-- not closed is connected with a read out, or has an operation of its connect chain out, or waits
-- for its reconnect timer, which is armed for the current generation.
pub never_stuck :
    (s : Session) (evs : List (Env × Event))
    → IsFresh s
    → (after s evs).user_closed ≡ false
    → (((after s evs).connected ≡ true) × ((after s evs).stage ≡ reading))
      ⊎ (is_chain (after s evs).stage ≡ true)
      ⊎ (((after s evs).reconnect_scheduled ≡ true)
          × ArmedFor (after s evs).reconnect_timer (after s evs).generation)
never_stuck s evs f c =
    let v = after-IsRunning s evs f in ground (arith, v.alive.busy, v.alive.armed)

-- On a connection that is up and not yet authenticated, a session with credentials has no subscribe
-- frame in its queue and has sent none.
pub auth_gate :
    (s : Session) (evs : List (Env × Event))
    → IsFresh s
    → (after s evs).auth_required ≡ true
    → (after s evs).connected ≡ true
    → (after s evs).authenticated ≡ false
    → (none_queued (after s evs).outbound_queue ≡ true)
      × (none_sent (after s evs).generation (after s evs).wire ≡ true)
auth_gate s evs f r c a = let v = after-IsRunning s evs f in (v.gated.queue r a, v.gated.wire r c a)

-- Of the flags alone, whoever closed the session: a confirmed topic is one of a connected session.
pub confirmed_connected :
    (s : Session) (evs : List (Env × Event)) (t : String)
    → IsFresh s
    → is_subscription_confirmed (after s evs) t ≡ true
    → ((after s evs).connected ≡ true)
      × (((after s evs).auth_required && not (after s evs).authenticated) ≡ false)
unfolding is_subscription_confirmed contains
confirmed_connected s evs t f h =
    let v = after-IsRunning s evs f in ground (arith, v.sent.offline_topics, v.sent.gated_topics)

connected-reading :
    (s : Session)
    → IsAlive (link s)
    → s.user_closed ≡ false
    → s.connected ≡ true
    → s.stage ≡ reading
connected-reading s v not_closed c = ground (arith, v.busy, v.off, v.chain_off)

-- On a session that its user did not close, a topic counts as confirmed only while the session is
-- connected with a read out and, if it has credentials, authenticated.
pub confirmed_online :
    (s : Session) (evs : List (Env × Event)) (t : String)
    → IsFresh s
    → (after s evs).user_closed ≡ false
    → is_subscription_confirmed (after s evs) t ≡ true
    → ((after s evs).connected ≡ true)
      × ((after s evs).stage ≡ reading)
      × (((after s evs).auth_required && not (after s evs).authenticated) ≡ false)
confirmed_online s evs t f not_closed h =
    let v = after-IsRunning s evs f in
    let c = confirmed_connected s evs t f h in
    (c.0, connected-reading (after s evs) v.alive not_closed c.0, c.1)

-- At most one write of the stream is out at any time, none is while it connects, and the delay
-- of the next reconnect is 1 to 30 seconds.
pub single_writer :
    (s : Session) (evs : List (Env × Event))
    → IsFresh s
    → ((after s evs).writes_out ≤ (if is_chain (after s evs).stage then 0 else 1))
      × (1 ≤ (after s evs).reconnect_delay_s)
      × ((after s evs).reconnect_delay_s ≤ 30)
single_writer s evs f =
    let v = after-IsRunning s evs f in
    (ground (arith, v.writing.at_most_one, v.writing.quiet), v.alive.delay_pos, v.alive.delay_le)
