-- ===== src/Session/Tests/Promises.antt =====
-- What a session promises, at concrete histories.
use bybit_cpp_api.Base.{
  ◌≤◌, ◌≡◌, refl, ◌⊎◌, true, false, not, ◌&&◌, some, none, List, [], ◌∷◌, ◌++◌, contains,
  if◌then◌else◌,
}
use bybit_cpp_api.Session.State.{Session, Env, reading, number, object}
use bybit_cpp_api.Session.Topics.{
  enqueue_op, write_front, pump, assign_op, awaits_ack, is_subscription_confirmed, flush_pending,
  flush_topics,
}
use bybit_cpp_api.Session.Connect.{
  send_auth, tear_down, handle_error, start_connect, on_resolve, on_connect, on_ssl_handshake,
  on_handshake,
}
use bybit_cpp_api.Session.Inbound.{
  is_api_control_msg, find_op, answered_op, erase_op, on_subscribe_ack, handle_api_control_msg,
  dispatch, rearm_read, on_frame, on_read, settle_op,
}
use bybit_cpp_api.Session.Events.{Event, frame_read, step, exec}
use bybit_cpp_api.Session.Alive.{is_chain, ArmedFor}
use bybit_cpp_api.Session.Gate.{none_queued, none_sent}
use bybit_cpp_api.Session.Promises.{after, never_stuck, auth_gate, confirmed_online, single_writer}
use bybit_cpp_api.Session.Tests.{
  quiet, public_session, private_session, public_session-IsFresh, private_session-IsFresh, failing,
  upgrading_up, lost, up,
}

never_stuck_example :
    ((lost.connected ≡ true) × (lost.stage ≡ reading))
    ⊎ (is_chain lost.stage ≡ true)
    ⊎ ((lost.reconnect_scheduled ≡ true) × ArmedFor lost.reconnect_timer lost.generation)
unfolding exec step start_connect on_resolve handle_error tear_down
never_stuck_example = never_stuck public_session failing public_session-IsFresh refl

auth_gate_example :
    (none_queued up.outbound_queue ≡ true) × (none_sent up.generation up.wire ≡ true)
unfolding exec step start_connect on_resolve on_connect on_ssl_handshake on_handshake send_auth
    enqueue_op write_front pump
auth_gate_example = auth_gate private_session upgrading_up private_session-IsFresh refl refl refl

single_writer_example :
    (up.writes_out ≤ (if is_chain up.stage then 0 else 1))
    × (1 ≤ up.reconnect_delay_s)
    × (up.reconnect_delay_s ≤ 30)
single_writer_example = single_writer private_session upgrading_up private_session-IsFresh

-- The public session after its topic was sent and acked.
abbrev acked : List (Env × Event)
acked =
    upgrading_up
    ++ (
      quiet,
      frame_read 1 false (
          object (record {
            success = some true;
            op = some "subscribe";
            topic = none;
            ret_msg = none;
            req_id = number 1;
            is_event = false;
          })),
    )
      ∷ []

abbrev confirmed : Session
confirmed = after public_session acked

confirmed_online_example :
    (confirmed.connected ≡ true)
    × (confirmed.stage ≡ reading)
    × ((confirmed.auth_required && not confirmed.authenticated) ≡ false)
unfolding exec step start_connect on_resolve on_connect on_ssl_handshake on_handshake enqueue_op
    write_front pump flush_topics flush_pending assign_op on_read on_frame dispatch
    handle_api_control_msg on_subscribe_ack settle_op find_op answered_op erase_op rearm_read
    is_subscription_confirmed awaits_ack contains is_api_control_msg
confirmed_online_example =
    confirmed_online public_session acked "tickers.BTCUSDT" public_session-IsFresh refl refl
