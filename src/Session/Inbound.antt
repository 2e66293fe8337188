-- ===== src/Session/Inbound.antt =====
-- Inbound frames: control messages and topic pushes.
use bybit_cpp_api.Base.{
  ℕ, String, Bool, true, not, ◌&&◌, ◌||◌, Option, none, some, List, [], ◌∷◌, ◌==◌, leb,
  if◌then◌else◌, is_some, ◌is◌, erase_first,
}
use bybit_cpp_api.Session.State.{
  Session, Env, Stage, ReqId, Message, Frame, blank, number, foreign, malformed, non_object, object,
}
use bybit_cpp_api.Session.Topics.{flush_topics}
use bybit_cpp_api.Session.Connect.{handle_error}

-- `readValue` leaves the default where the key is absent.
abbrev pub text_or_empty : Option String → String
text_or_empty none = ""
text_or_empty (some t) = t

abbrev pub flag_or_true : Option Bool → Bool
flag_or_true none = true
flag_or_true (some b) = b

-- `isApiControlMsg`.
unfoldable pub is_api_control_msg : Message → Bool
is_api_control_msg m = (is_some m.success || is_some m.op) && not (is_some m.topic)

-- `inflightSubscribes.find(reqId)`, with the entry.
unfoldable pub find_op : ℕ → List (ℕ × List String) → Option (ℕ × List String)
find_op id [] = none
find_op id ((j, ts) ∷ ops) = if j == id then some (j, ts) else find_op id ops

-- `min_element` by the number of the op: the first of the least ones.
unfoldable pub least_op : ℕ × List String → List (ℕ × List String) → ℕ × List String
least_op best [] = best
least_op (i, us) ((j, ts) ∷ ops) = least_op (if leb i j then (i, us) else (j, ts)) ops

unfoldable pub oldest_op : List (ℕ × List String) → Option (ℕ × List String)
unfolding least_op
oldest_op [] = none
oldest_op (op ∷ ops) = some (least_op op ops)

-- The op that an ack answers.
unfoldable pub answered_op : ReqId → List (ℕ × List String) → Option (ℕ × List String)
unfolding find_op oldest_op
answered_op blank ops = oldest_op ops
answered_op (number n) ops = find_op n ops
answered_op foreign ops = none

-- `inflightSubscribes.erase(it)`.
unfoldable pub erase_op : ℕ → List (ℕ × List String) → List (ℕ × List String)
erase_op id [] = []
erase_op id ((j, ts) ∷ ops) = if j == id then ops else (j, ts) ∷ erase_op id ops

-- The loop that prunes the topics of a rejected op.
unfoldable pub prune : List String → List String → List String
prune [] subs = subs
prune (t ∷ ts) subs = prune ts (erase_first t subs)

-- The `subscribe` branch of `handleApiControlMsg`, behind the search for the op.
unfoldable pub settle_op : Option (ℕ × List String) → Bool → Session → Session
settle_op none success s = s
settle_op (some (id, topics)) success s = record s {
  subscriptions = if success then s.subscriptions else prune topics s.subscriptions;
  inflight_subscribes = erase_op id s.inflight_subscribes;
}

unfoldable pub on_subscribe_ack : ReqId → Bool → Session → Session
unfolding settle_op
on_subscribe_ack req_id success s = settle_op (answered_op req_id s.inflight_subscribes) success s

-- The accepted branch of the `auth` ack.
unfoldable pub on_authenticated : Env → Session → Session
on_authenticated e s = flush_topics e (record s {
  authenticated = true;
  authenticated_flag = true;
  auth_deadline = none;
  reconnect_delay_s = 1;
})

-- `handleApiControlMsg`. A branch that only logs leaves the session as it is.
unfoldable pub handle_api_control_msg : Env → ℕ → Message → Session → Session
handle_api_control_msg e gen m s =
    let operation = text_or_empty m.op in
    let success = flag_or_true m.success in
    if operation is "pong" || text_or_empty m.ret_msg is "pong"
    then record s { last_pong_time = e.now }
    else if operation is "auth"
    then (if success then on_authenticated e s else handle_error gen s)
    else if operation is "subscribe"
    then on_subscribe_ack m.req_id success s
    else s

-- The dispatch of one JSON object in `onRead`.
unfoldable pub dispatch : Env → ℕ → Message → Session → Session
dispatch e gen m s =
    if is_api_control_msg m
    then handle_api_control_msg e gen m s
    else if m.is_event && s.has_data_cb
    then record s { delivered = m ∷ s.delivered }
    else s

-- The end of `onRead`: the next read is armed unless the connection was torn down meanwhile.
unfoldable pub rearm_read : ℕ → Session → Session
rearm_read gen s =
    if not (gen == s.generation) || s.reconnect_scheduled || not s.connected then s else record s {
      reconnect_delay_s = if not s.auth_required || s.authenticated then 1 else s.reconnect_delay_s;
      stage = Stage.reading;
    }

unfoldable pub on_frame : Env → ℕ → Frame → Session → Session
unfolding rearm_read
on_frame e gen malformed s = handle_error gen s
on_frame e gen non_object s = rearm_read gen s
on_frame e gen (object m) s = rearm_read gen (dispatch e gen m s)

-- `onRead`.
unfoldable pub on_read : Env → ℕ → Bool → Frame → Session → Session
unfolding on_frame
on_read e gen failed frame s = if failed then handle_error gen s else on_frame e gen frame s
