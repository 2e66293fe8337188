-- ===== src/Session/Cases.antt =====
-- A case rule for the handling of one JSON object: what holds of each outcome holds of the handler.
use bybit_cpp_api.Base.{ℕ, ◌&&◌, ◌||◌, if-elim, ◌is◌, ◌∷◌}
use bybit_cpp_api.Session.State.{Session, Env, Message}
use bybit_cpp_api.Session.Connect.{handle_error}
use bybit_cpp_api.Session.Inbound.{
  text_or_empty, flag_or_true, is_api_control_msg, on_subscribe_ack, on_authenticated,
  handle_api_control_msg, dispatch,
}

module _ {ℓ} (P : Session → Type ℓ) (e : Env) (gen : ℕ) (m : Message) (s : Session) where
  pub handle_api_control_msg_cases :
      P (record s { last_pong_time = e.now })
      → P (on_authenticated e s)
      → P (handle_error gen s)
      → P (on_subscribe_ack m.req_id (flag_or_true m.success) s)
      → P s
      → P (handle_api_control_msg e gen m s)
  unfolding handle_api_control_msg
  handle_api_control_msg_cases pong authenticated failed acked same =
      let operation = text_or_empty m.op in
      let is_pong = operation is "pong" || text_or_empty m.ret_msg is "pong" in
      let success = flag_or_true m.success in
      if-elim P is_pong _ _ pong (
        if-elim P (operation is "auth") _ _ (if-elim P success _ _ authenticated failed)
          (if-elim P (operation is "subscribe") _ _ acked same))

  pub dispatch_cases :
      P (record s { last_pong_time = e.now })
      → P (on_authenticated e s)
      → P (handle_error gen s)
      → P (on_subscribe_ack m.req_id (flag_or_true m.success) s)
      → P s
      → P (record s { delivered = m ∷ s.delivered })
      → P (dispatch e gen m s)
  unfolding dispatch
  dispatch_cases pong authenticated failed acked same pushed =
      if-elim P (is_api_control_msg m) _ _
        (handle_api_control_msg_cases pong authenticated failed acked same)
        (if-elim P (m.is_event && s.has_data_cb) _ _ pushed same)
