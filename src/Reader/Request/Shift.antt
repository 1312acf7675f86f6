-- ===== src/Reader/Request/Shift.antt =====
-- Where the buffer begins does not matter: bytes in front of the reader's place.
pub mod Reads
pub mod Handlers
pub mod Refill
use boost_http.Base.{ℕ, ◌+◌, ◌++◌, length, Option, none, some, Bytes}
use boost_http.Reader.Request.State.{Request}

-- The same reader in a buffer with more bytes in front.
abbrev pub prefixed : Bytes → Request → Request
prefixed pre r = record r { ibuffer = pre ++ r.ibuffer; idx = length pre + r.idx }

abbrev pub each : (Request → Request) → Option Request → Option Request
each f none = none
each f (some r) = some (f r)
