-- ===== src/Http/Clock.antt =====
-- `ensureTimeSync` and `signingTimestamp`.
use bybit_cpp_api.Base.{
  ℕ, ◌+◌, ◌-◌, ◌/◌, ◌≤◌, ◌<◌, ◌≡◌, refl, ℤ, ◌⊖◌, ◌⊕◌, ⊕-⊖, Bool, true, false, not, ◌&&◌, Option,
  none, some, if◌then◌else◌, ltb, ◌==◌, arith,
}
use bybit_cpp_api.Http.{HttpSession, time_sync_interval}

-- What asking for the venue's time came to: it threw, another status, a body without `result`, or the
-- `timeNano` of the result, which is 0 where it is missing or not positive.
pub data TimeAnswer : Type 0 where
  failed bad_status no_result : TimeAnswer
  time_nano : ℕ → TimeAnswer

-- The request for the time as the session meets it: the answer, the session as the request leaves it, and
-- the local clock after it.
pub record Asking : Type 0 where
  pub answer : TimeAnswer
  pub responded : Option ℕ  -- the time of a complete response
  pub clock : ℕ

unfoldable pub needs_sync : HttpSession → ℕ → Bool
needs_sync s now =
    not (not (s.last_time_sync == 0) && ltb (now - s.last_time_sync) time_sync_interval)

abbrev pub set_success : Option ℕ → HttpSession → HttpSession
set_success none s = s
set_success (some t) s = record s { last_success = t }

-- What the answer makes of the offset.
abbrev pub set_offset : TimeAnswer → ℕ → HttpSession → HttpSession
set_offset TimeAnswer.failed clock s = s
set_offset TimeAnswer.bad_status clock s = s
set_offset TimeAnswer.no_result clock s = s
set_offset (TimeAnswer.time_nano n) clock s =
    if n == 0 then s else record s { time_offset = n / 1000000 ⊖ clock }

-- `ensureTimeSync`. The mark is set before the venue is asked, so the request's own call of
-- `ensureTimeSync` returns at once.
unfoldable pub ensure_time_sync : ℕ → Asking → HttpSession → HttpSession
unfolding needs_sync
ensure_time_sync now a s =
    if not (needs_sync s now)
    then s
    else set_offset a.answer a.clock (set_success a.responded (record s { last_time_sync = now }))

-- `signingTimestamp`: the clock is read again behind `ensureTimeSync`.
unfoldable pub signing_timestamp : ℕ → ℕ → Asking → HttpSession → HttpSession × ℤ
unfolding ensure_time_sync
signing_timestamp now later a s = let s' = ensure_time_sync now a s in (s', later ⊕ s'.time_offset)

set_success-mark :
    (o : Option ℕ) (s : HttpSession) → (set_success o s).last_time_sync ≡ s.last_time_sync
set_success-mark none s = refl
set_success-mark (some t) s = refl

set_offset-mark :
    (answer : TimeAnswer) (clock : ℕ) (s : HttpSession)
    → (set_offset answer clock s).last_time_sync ≡ s.last_time_sync
set_offset-mark TimeAnswer.failed clock s = refl
set_offset-mark TimeAnswer.bad_status clock s = refl
set_offset-mark TimeAnswer.no_result clock s = refl
set_offset-mark (TimeAnswer.time_nano n) clock s = ground arith

-- Whatever the venue answers, the session asks for the time at most once per interval: behind
-- `ensureTimeSync` at a time that is not 0, it needs no other before the interval is over.
pub ensure_time_sync_once :
    (now later : ℕ) (a : Asking) (s : HttpSession)
    → 0 < now
    → now ≤ later
    → later < now + time_sync_interval
    → needs_sync s now ≡ true
    → needs_sync (ensure_time_sync now a s) later ≡ false
unfolding ensure_time_sync needs_sync
ensure_time_sync_once now later a s p l h n =
    rw
      (
        n,
        set_offset-mark a.answer a.clock
            (set_success a.responded (record s { last_time_sync = now })),
        set_success-mark a.responded (record s { last_time_sync = now }),
      )
      (ground arith)

-- Signed timestamps follow the venue's clock: behind a synchronisation with a venue's time, they are that
-- time and what the local clock has gone on since.
pub signing_timestamp-offset :
    (now later n : ℕ) (responded : Option ℕ) (clock : ℕ) (s : HttpSession)
    → needs_sync s now ≡ true
    → 0 < n
    → (signing_timestamp now later
        (record { answer = TimeAnswer.time_nano n; responded = responded; clock = clock })
        s).1
      ≡ (n / 1000000 + later) ⊖ clock
unfolding signing_timestamp ensure_time_sync
signing_timestamp-offset now later n responded clock s h p =
    rw h
      (elim responded
        as (λ o.
          later
            ⊕ (set_offset (TimeAnswer.time_nano n) clock
                (set_success o (record s { last_time_sync = now }))).time_offset
          ≡ (n / 1000000 + later) ⊖ clock) [
            | none ↦ ground (arith, ⊕-⊖ (n / 1000000) clock later)
            | some t ↦ ground (arith, ⊕-⊖ (n / 1000000) clock later)
          ])
