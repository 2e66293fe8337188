-- ===== src/Http.antt =====
-- The HTTP session (src/bybit_http_session.cpp): its clock, its signatures and its requests.
pub mod Clock
pub mod Signing
pub mod Timed
pub mod Request
use bybit_cpp_api.Base.{ℕ, ℤ, ◌*◌, String, [], if◌then◌else◌, is_empty}
use bybit_cpp_api.Text.{Text, codes}

-- `P`, with times in milliseconds.
pub record HttpSession : Type 0 where
  pub api_key : Text
  pub api_secret : Text
  pub uri : Text
  pub receive_window : ℕ
  pub time_offset : ℤ
  pub last_time_sync : ℕ
  pub last_success : ℕ
  pub request_timeout : ℕ

abbrev pub time_sync_interval : ℕ
time_sync_interval = 30 * 60 * 1000

abbrev pub default_request_timeout : ℕ
default_request_timeout = 15000

-- The constructor.
unfoldable pub new_http_session : Text → Text → Text → HttpSession
new_http_session key secret host = record {
  api_key = key;
  api_secret = secret;
  uri = if is_empty host then codes "api.bybit.com" else host;
  receive_window = 5000;
  time_offset = ℤ.pos 0;
  last_time_sync = 0;
  last_success = 0;
  request_timeout = default_request_timeout;
}
