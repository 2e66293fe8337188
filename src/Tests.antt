-- ===== src/Tests.antt =====
-- The theorems on the REST client, the gateway and the private stream at concrete inputs.
mod Venue
mod Io
mod Readers
mod Orders
mod Cancels
mod Rest
mod Streams
mod Downloads
mod Instruments
mod Quotes
mod Requests
