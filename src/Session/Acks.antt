-- ===== src/Session/Acks.antt =====
-- The acks of subscribe frames: which op an ack answers, and what a rejection does to the topics.
use bybit_cpp_api.Base.{
  ℕ, ◌≤◌, ◌<◌, String, ◌≡◌, refl, true, false, not, ◌&&◌, ◌||◌, some, List, [], ◌∷◌, arith,
  contains, erase_first, Distinct, is-eq, contains-erase_first_ne, contains-erase_first_self,
  Distinct-erase_first, Distinct-append_left, append-nil,
}
use bybit_cpp_api.Session.State.{Session, ReqId, blank, number}
use bybit_cpp_api.Session.Topics.{is_subscribed}
use bybit_cpp_api.Session.Inbound.{
  find_op, least_op, answered_op, erase_op, prune, settle_op, on_subscribe_ack,
}
use bybit_cpp_api.Session.Books.{books}

-- The ops in flight stand in request order: their numbers rise, and none is past the counter.
abbrev pub IsRising : ℕ → List (ℕ × List String) → Type 0
IsRising n [] = Unit
IsRising n ((id, topics) ∷ ops) = (n < id) × IsRising id ops

least_op-head :
    (id n : ℕ) (topics : List String) (ops : List (ℕ × List String))
    → id ≤ n
    → IsRising n ops
    → least_op (id, topics) ops ≡ (id, topics)
unfolding least_op
least_op-head id n topics [] h r = refl
least_op-head id n topics ((j, ts) ∷ ops) h r = ground (arith, least_op-head id j topics ops)

-- An ack without a number answers the op that was requested first.
blank-oldest :
    (n id : ℕ) (topics : List String) (ops : List (ℕ × List String))
    → IsRising n ((id, topics) ∷ ops)
    → answered_op blank ((id, topics) ∷ ops) ≡ some (id, topics)
unfolding answered_op
blank-oldest n id topics ops r = ground (arith, least_op-head id id topics ops)

erase_first-Distinct : (t : String) (xs : List String) → Distinct xs → Distinct (erase_first t xs)
erase_first-Distinct t xs d =
    rw (← append-nil (erase_first t xs)) (Distinct-erase_first t xs [] (rw (append-nil xs) d))

-- A rejection takes the topics of its op off the sent ones, and no other.
prune_lem :
    (ts subs : List String) (u : String)
    → Distinct subs
    → contains (prune ts subs) u ≡ (contains subs u && not (contains ts u))
unfolding prune contains
prune_lem [] subs u d = ground arith
prune_lem (t ∷ ts) subs u d = ground (
  arith,
  prune_lem ts (erase_first t subs) u,
  erase_first-Distinct t subs,
  contains-erase_first_ne t u subs,
  contains-erase_first_self t subs d,
  is-eq t u,
)

-- The rejection of an op takes exactly the topics of that op off the sent ones, keeps the pending
-- ones, and ends the op.
pub rejected_ack :
    (req : ReqId) (id : ℕ) (topics : List String) (u : String) (s : Session)
    → answered_op req s.inflight_subscribes ≡ some (id, topics)
    → Distinct (books s)
    → (is_subscribed (on_subscribe_ack req false s) u
        ≡ (contains s.subscriptions u && not (contains topics u) || contains s.pending_topics u))
      × ((on_subscribe_ack req false s).inflight_subscribes ≡ erase_op id s.inflight_subscribes)
unfolding on_subscribe_ack settle_op is_subscribed
rejected_ack req id topics u s answered d =
    let first = Distinct-append_left s.subscriptions s.pending_topics d in
    (rw (answered, settle_op, prune_lem topics s.subscriptions u first), rw (answered, settle_op))

-- A topic that was unsubscribed and subscribed again while its first subscribe was in flight is lost
-- when the venue rejects the first and accepts the second: the session no longer lists it.
pub stale_rejection :
    (i j : ℕ) (older newer : List String) (t : String) (s : Session)
    → Distinct (books s)
    → find_op i s.inflight_subscribes ≡ some (i, older)
    → find_op j (erase_op i s.inflight_subscribes) ≡ some (j, newer)
    → contains older t ≡ true
    → contains newer t ≡ true
    → contains s.pending_topics t ≡ false
    → is_subscribed (on_subscribe_ack (number j) true (on_subscribe_ack (number i) false s)) t
      ≡ false
unfolding on_subscribe_ack settle_op is_subscribed answered_op
stale_rejection i j older newer t s d fi fj ho hn p =
    let first = Distinct-append_left s.subscriptions s.pending_topics d in
    rw (fi, settle_op, fj, settle_op) (ground (arith, prune_lem older s.subscriptions t first))
