-- ===== src/Lib.antt =====
-- A library for the Bybit client (StonkyLab/bybit-cpp-api): its WebSocket session, private and public
-- streams, HTTP session, REST client and execution gateway.
--
-- How the parts interact: the gateway sends orders over the REST client and lets them through only
-- while the private stream is live; the stream is a client with one session, whose reconnect loop
-- keeps the topics; the stream's events become the updates and fills of the gateway's interface.
--
-- Session (src/bybit_ws_session.cpp): State is `WebSocketSession::P` with what Asio holds for it, the
-- frames sent and the events delivered. Topics, Connect, Inbound and Timers are its member functions
-- under their own names. Events has one constructor for each call, posted task and completion; `step`
-- runs its handler, `exec` a history. A history is any interleaving of these, and a completion comes
-- only if its operation is out, a control frame only while a read is. A call of another thread comes between two handlers, never inside one.
-- Link, Alive, Writer, Gate, Sent and Books are what holds between two
-- events; Running joins them; Promises, Acks, Loop, Replay and Closed are what follows.
--
-- Client (src/bybit_ws_client.cpp) and Client/Private (src/bybit_ws_private_stream_manager.cpp): the
-- calls on the session, the tasks that they post, and `isLive`. Client/Io is the io thread with the calls that
-- start and join it, as events in any order; its atomic flag and the lock are what they meet at.
-- Client/Private/Messages is the data callback, from a message's JSON to the events that it delivers. Client/Public
-- (src/bybit_ws_stream_manager.cpp) has the caches of the public stream: Tickers and Subscribing are
-- about the calls that fill them, Reading has the polling reads, one `Poll` for each turn with the manager
-- as the other threads left it, Fresh is about what they return, and Candles has the candlesticks.
--
-- Http (src/bybit_http_session.cpp): Clock is the synchronisation of the signed timestamps, Signing the query
-- strings and signatures, Timed an operation with its timer as the handlers that ran, in their order,
-- and Request the stages of a request.
--
-- Text: texts as code points, and what the code uses of the C++ library on them.
--
-- Errors (include/stonky/bybit/bybit_http_session.h) are values of a result type. Models has the enumerations
-- (include/stonky/bybit/bybit_enums.h), orders, positions and events. Doubles are a parameter: a type
-- with the operations that the code uses, of which no law is assumed.
--
-- Models/Json (src/bybit_models.cpp, src/bybit_event_models.cpp): the `fromJson` functions. The JSON values with
-- the functions on them, and the readers of single members (`readValue`, `readStringAsDouble`,
-- `readMagicEnum` and their like), are a parameter, of which no law is assumed. A reader is a list of fields or
-- steps in the source's order, which a throw ends; Responses has whole answers, Laws is about such lists, and
-- Events/Members about order events. Enums/Names and Enums/Casts stand for `magic_enum`.
--
-- Rest (src/bybit_rest_client.cpp, src/bybit.cpp): Responses reads an answer, Executions lists the pages of
-- executions, Limiter is the rate limiter, Closing closes positions, Candles the intervals. Pages gathers
-- the pages of the listings that follow a cursor, Calendar has the start of the next candle, History the
-- download of candles with its probe over gaps, Funding the download of funding rates, Instruments the
-- instrument cache with what it answers (Instruments/Search: where the steps come from), and Place sends and amends orders with the steps of their
-- instrument; Models/Payload is what an order is sent as. Parameters has the parameters of the requests, and
-- the order queries and the cancel with them, Archive reads the public archive of delisted symbols, and Account
-- has the wallet, the clock, the position mode, the cancelling of all orders and the client's sessions.
-- Closing/Reading joins the closing of positions with the reading of their listing.
--
-- Connectors (src/bybit_futures_exchange_connector.cpp, src/bybit_spot_exchange_connector.cpp): what they make of
-- the REST client's results; Calls has the calls that both pass on, and Rates is about the order of funding rates.
--
-- Gateway (src/bybit_execution_gateway.cpp): Interface has the REST client as the answers that it gives
-- during one operation, Reasons the texts of venue errors, Orders and Cancel the operations, Updates
-- the callbacks of the private stream; Submits, Fills, Sweeps and Updates/Laws are about them. Updates/Reading
-- begins at the JSON of an order message. Specs has the instrument specifications, the quotes and the start, and
-- Quotes the constructor and the callbacks.
--
-- Bounds and fuel: the listing of executions has the source's own limit of 20 pages; the decimal text
-- of a number has the number as fuel, which is enough since each digit divides it by ten. `strtol` is
-- cut to the range of a 64-bit long. Counters of the session do not wrap in the model. The download of
-- candles has two more than its end as fuel, and so has its probe; the download of funding rates has
-- one more than its end: each round moves the time on by at least a millisecond. A polling read takes the
-- turns that it meets as a list, a request its reads, and a listing by cursors a number of pages; that
-- these end is stated with what they need. Times are milliseconds after the epoch.
--
-- Not modelled: JSON parsing and the JSON writers but those of requests, network and TLS calls, the
-- HMAC, zlib and regular expressions, logging, threads inside one call, and the REST calls
-- that only pass parameters on (the tickers).
mod Base
pub mod Session
pub mod Client
pub mod Text
pub mod Errors
pub mod Models
pub mod Http
pub mod Rest
pub mod Gateway
pub mod Connectors
mod Tests
