-- ===== src/Rest/Limiter.antt =====
-- `RateLimiter`. Times are milliseconds of the wall clock, from its epoch on; the venue's numbers
-- are taken as not negative.
use bybit_cpp_api.Base.{
  ℕ, ◌+◌, ◌-◌, ◌≤◌, Bool, true, false, List, [], ◌∷◌, ◌++◌, arith, ltb, leb, if◌then◌else◌, length,
  length-append, Bool-cases, inl, inr,
}

abbrev pub local_limit : ℕ
local_limit = 10

abbrev pub window_size_ms : ℕ
window_size_ms = 1000

pub record RateLimiter : Type 0 where
  pub remaining : ℕ
  pub reset_time : ℕ
  pub server_headers_found : Bool
  pub request_times : List ℕ

abbrev pub new_limiter : RateLimiter
new_limiter = record {
  remaining = 50;
  reset_time = 0;
  server_headers_found = false;
  request_times = [];
}

-- A header of an answer: its text may be no number, which `stoi` and `stoll` answer by throwing.
pub data Header : Type 0 where
  absent unparsable : Header
  number : ℕ → Header

unfoldable pub update : Header → Header → RateLimiter → RateLimiter
update (Header.number k) (Header.number t) l = record l {
  remaining = k;
  reset_time = t;
  server_headers_found = true;
}
update (Header.number k) Header.unparsable l = record l { remaining = k }
update _ _ l = l

-- The pops of requests that left the window.
unfoldable pub drop_old : ℕ → List ℕ → List ℕ
drop_old now [] = []
drop_old now (t ∷ ts) = if ltb window_size_ms (now - t) then drop_old now ts else t ∷ ts

-- The wait for the oldest request of a full window.
abbrev pub local_delay : ℕ → List ℕ → ℕ
local_delay now [] = 0
local_delay now (oldest ∷ ts) =
    if leb local_limit (length (oldest ∷ ts)) then (oldest + window_size_ms + 10) - now else 0

abbrev pub server_delay : ℕ → RateLimiter → ℕ
server_delay now l =
    if leb l.remaining 2 then (if ltb now l.reset_time then (l.reset_time - now) + 50 else 0) else 0

-- What a `wait` sleeps.
unfoldable pub delay : ℕ → RateLimiter → ℕ
unfolding drop_old
delay now l =
    if l.server_headers_found
    then server_delay now l
    else local_delay now (drop_old now l.request_times)

-- `wait`, which begins at `now`; `after` is the clock behind the sleep.
unfoldable pub wait : ℕ → ℕ → RateLimiter → RateLimiter
unfolding drop_old
wait now after l =
    if l.server_headers_found
    then l
    else (let ts = drop_old now l.request_times in
        record l {
          request_times =
              (if ltb 0 (local_delay now ts) then drop_old after ts else ts) ++ now ∷ [];
        })

length-drop_old : (now : ℕ) (ts : List ℕ) → length (drop_old now ts) ≤ length ts
unfolding drop_old
length-drop_old now [] = omega arith
length-drop_old now (t ∷ ts) = ground (arith, length-drop_old now ts)

drop_old-expired :
    (after oldest : ℕ) (ts : List ℕ)
    → oldest + window_size_ms + 10 ≤ after
    → length (drop_old after (oldest ∷ ts)) ≤ length ts
unfolding drop_old
drop_old-expired after oldest ts h = ground (arith, length-drop_old after ts)

-- The oldest request, if any, is in the window.
abbrev HeadRecent : ℕ → List ℕ → Type 0
HeadRecent now [] = Unit
HeadRecent now (t ∷ ts) = now ≤ t + window_size_ms

HeadRecent-drop_old : (now : ℕ) (ts : List ℕ) → HeadRecent now (drop_old now ts)
unfolding drop_old
HeadRecent-drop_old now [] = tt
HeadRecent-drop_old now (t ∷ ts) = elim (Bool-cases (ltb window_size_ms (now - t))) [
  | inl b ↦ rw b (HeadRecent-drop_old now ts)
  | inr b ↦ rw b (ground arith)
]

settled :
    (now after : ℕ) (ts : List ℕ)
    → HeadRecent now ts
    → length ts ≤ local_limit
    → now + local_delay now ts ≤ after
    → length (if ltb 0 (local_delay now ts) then drop_old after ts else ts) ≤ 9
settled now after [] r l h = omega arith
settled now after (t ∷ ts) r l h = ground (arith, drop_old-expired after t ts)

-- Without the venue's headers, the window holds at most ten requests after every wait that slept as
-- long as it asked for, if it did before.
pub wait-length :
    (now after : ℕ) (l : RateLimiter)
    → length l.request_times ≤ local_limit
    → now + delay now l ≤ after
    → length (wait now after l).request_times ≤ local_limit
unfolding wait delay
wait-length now after l h = elim (Bool-cases l.server_headers_found) [
  | inl b ↦ rw b (λ d. h)
  | inr b ↦ rw b (λ d.
      let ts = drop_old now l.request_times in
      omega (
        arith,
        length-append (if ltb 0 (local_delay now ts) then drop_old after ts else ts) (now ∷ []),
        settled now after ts (HeadRecent-drop_old now l.request_times)
            (omega (arith, h, length-drop_old now l.request_times)) d,
      ))
]
