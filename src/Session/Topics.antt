-- ===== src/Session/Topics.antt =====
-- The write pump and the topic bookkeeping of a session.
use bybit_cpp_api.Base.{
  ℕ, ◌+◌, String, Bool, true, false, not, ◌&&◌, ◌||◌, List, [], ◌∷◌, ◌++◌, ◌==◌, if◌then◌else◌,
  contains, remove_all, erase_first,
}
use bybit_cpp_api.Session.State.{Session, Env, Op}

-- `enqueueOp`.
unfoldable pub enqueue_op : Op → Session → Session
enqueue_op op s = record s { outbound_queue = s.outbound_queue ++ op ∷ [] }

-- The body of `pump` behind its guard: nothing on an empty queue, else one `async_write`.
unfoldable pub write_front : List Op → Session → Session
write_front [] s = s
write_front (op ∷ rest) s = record s {
  outbound_queue = rest;
  write_in_flight = true;
  writes_out = s.writes_out + 1;
  wire = (s.generation, op) ∷ s.wire;
}

unfoldable pub pump : Env → Session → Session
unfolding write_front
pump e s =
    if s.write_in_flight || not s.connected || not s.has_ws || not e.open_stream
    then s
    else write_front s.outbound_queue s

-- `addTopic`.
unfoldable pub add_topic : String → Session → Session
add_topic t s =
    if contains s.subscriptions t
    then s
    else if contains s.pending_topics t
    then s
    else record s { pending_topics = s.pending_topics ++ t ∷ [] }

-- `removeTopic`, with its result: the subscribe was already sent.
unfoldable pub remove_topic : String → Session → Session × Bool
remove_topic t s =
    let s' = record s { pending_topics = remove_all t s.pending_topics } in
    if contains s'.subscriptions t
    then (record s' { subscriptions = erase_first t s'.subscriptions }, true)
    else (s', false)

-- `isSubscribed`.
unfoldable pub is_subscribed : Session → String → Bool
is_subscribed s t = contains s.subscriptions t || contains s.pending_topics t

-- Some op in flight names the topic.
unfoldable pub awaits_ack : List (ℕ × List String) → String → Bool
awaits_ack [] t = false
awaits_ack ((id, topics) ∷ ops) t = contains topics t || awaits_ack ops t

-- `isSubscriptionConfirmed`.
unfoldable pub is_subscription_confirmed : Session → String → Bool
is_subscription_confirmed s t =
    contains s.subscriptions t && not (awaits_ack s.inflight_subscribes t)

-- `inflightSubscribes[id] = topics`.
unfoldable pub assign_op : ℕ → List String → List (ℕ × List String) → List (ℕ × List String)
assign_op id topics [] = (id, topics) ∷ []
assign_op id topics ((j, ts) ∷ ops) =
    if j == id then (id, topics) ∷ ops else (j, ts) ∷ assign_op id topics ops

-- The body of `flushTopics` behind its guard.
unfoldable pub flush_pending : Env → List String → Session → Session
unfolding enqueue_op assign_op
flush_pending e [] s = s
flush_pending e (t ∷ ts) s =
    let id = s.req_id_counter + 1 in
    pump e (
      enqueue_op (Op.subscribe id (t ∷ ts)) (record s {
        subscriptions = s.subscriptions ++ t ∷ ts;
        pending_topics = [];
        req_id_counter = id;
        inflight_subscribes = assign_op id (t ∷ ts) s.inflight_subscribes;
      }))

unfoldable pub flush_topics : Env → Session → Session
flush_topics e s =
    if not s.connected || (s.auth_required && not s.authenticated)
    then s
    else flush_pending e s.pending_topics s
