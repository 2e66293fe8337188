-- ===== src/Models/Json/Stream.antt =====
-- The readers of the messages of the streams.
use bybit_cpp_api.Base.{ℕ, none, some, [], ◌∷◌}
use bybit_cpp_api.Text.{Text, codes}
use bybit_cpp_api.Models.Enums.{ResponseType}
use bybit_cpp_api.Models.Enums.Casts.{response_type_cast}
use bybit_cpp_api.Models.Streams.{Member}
use bybit_cpp_api.Models.Json.{Json, Reading, thrown, read, Step, steps, fields, into, member_or}

-- `Event`: a message of a stream, whose data are JSON.
pub record StreamEvent (J : Type 0) : Type 0 where
  pub topic : Text
  pub response_type : ResponseType
  pub ts : ℕ
  pub data_json : J

module _ {J D : Type 0} (json : Json J D) where
  -- An `Event` with its members' initialisers.
  abbrev pub new_stream_event : StreamEvent J
  new_stream_event = record {
    topic = [];
    response_type = ResponseType.snapshot;
    ts = 0;
    data_json = json.null;
  }

  -- `ts`, and `creationTime` where `ts` was not read.
  unfoldable pub time_step : J → Step (StreamEvent J)
  unfolding into fields
  time_step j r = elim (json.integer j (codes "ts")) [
    | Member.absent ↦
        fields
          (into (λ r m. record r { ts = member_or r.ts m }) (json.integer j (codes "creationTime"))
            ∷ [])
          r
    | Member.malformed ↦ thrown
    | Member.given ts ↦ read (record r { ts = ts })
  ]

  -- The data, where there are any.
  unfoldable pub data_step : J → Step (StreamEvent J)
  data_step j r = elim (json.find j (codes "data")) [
    | none ↦ read r
    | some d ↦ read (record r { data_json = d })
  ]

  -- `Event::fromJson` of a new `Event`.
  unfoldable pub stream_event_from_json : J → Reading (StreamEvent J)
  unfolding into fields time_step data_step steps
  stream_event_from_json j =
      steps
        (fields (
            into (λ r m. record r { topic = member_or r.topic m }) (json.text j (codes "topic"))
            ∷ into (λ r m. record r { response_type = member_or r.response_type m })
                (json.enumerator response_type_cast j (codes "type"))
            ∷ [])
          ∷ time_step j
          ∷ data_step j
          ∷ [])
        new_stream_event
