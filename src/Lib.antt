-- ===== src/Lib.antt =====
-- The incremental HTTP/1 readers of Boost.Http.
--
-- The program is a header-only C++ library. `reader::request` is a pull parser: a client hands it
-- a buffer (`set_buffer`), asks for the current token (`code`, `token_size`, `value<T>`) and moves
-- on (`next`). It keeps a state, the framing of the body, and the place of the token in the
-- client's buffer. `reader::response` does the same for responses; its client also says which
-- method the response is to (`set_method`) and that the connection has ended (`puteof`). Both call
-- the matchers and decoders of `syntax`, the character classes of `reader/detail`, and
-- `header_value_any_of` for the list of transfer codings.
--
-- Files, and the code they model (paths under include/boost/http):
--   Token       token.hpp, token.ipp: codes, symbols, categories, the convert functions.
--   Abnf        reader/detail/abnf.hpp and is_request_target_char of reader/detail/common.hpp.
--   FieldValue  decode_field_value of reader/detail/common.hpp.
--   Syntax      syntax/*: Chars the classes, Match the class matchers, Crlf the line ends, Digits
--               the two decoders of numbers (Digits.Width at the width of the
--               target), StatusCode the status code.
--   Header      algorithm/header/header_value_any_of.hpp (AnyOf) and
--               reader/detail/transfer_encoding.hpp (TransferEncoding); Elements and Codings hold
--               the specifications and proofs.
--   Reader      reader/request.hpp, reader/request.ipp: Request.State the members, Request.Value
--               `value<T>`, Request.StartLine, Fields, Body and Trailers the cases of `next`,
--               Request.Next the function itself and `set_buffer`. Safety, Tiling, Delivery,
--               Outcome, Reach, Width, Failure, Progress, Resume and Shift hold the proofs. Order
--               compares the tokens with Reader.Grammar, the order of the tokens of a message as
--               an inductive type. RoundTrip prints requests and reads them back: Fields, Framing,
--               Content, Chunks and Trailers go through the parts of a printed request.
--               reader/response.hpp, reader/response.ipp: Response.State the members,
--               Response.Value `value<T>`, Response.Method `set_method`, Response.StatusLine,
--               Fields, Body and Trailers the cases of `next`, Response.Next the function itself
--               and `set_buffer`. Mirror relates it to the request reader; Safety, Framing,
--               Headers, Reach, Width, Order, Fuel, Progress, Delivery and Failure hold the proofs.
--               Reader.Loop is the loop of calls of `next` that both readers share.
--   Tutorial    the client of the documentation's tutorial: the class of doc/parsing_tutorial1.cpp
--               (path from the root) with the callback of doc/parsing_tutorial1h.cpp and, for the
--               errors that it leaves out, doc/parsing_tutorial1e.cpp. Ends, Part and
--               Printed hold the proofs, with Items and Gather.
--   Base        lists and bytes over the native numbers, the loop that the matchers share.
--   Tests       runs of whole requests and responses, and an instance of each theorem.
--
-- A view or a buffer is the list of its bytes, each an `unsigned char`; `ibuffer + idx` drops
-- `idx` bytes. Undefined behaviour is a value, `none`: a read out of bounds, a failed `assert`,
-- BOOST_HTTP_DETAIL_UNREACHABLE. The numbers that the constructor leaves uninitialised are its
-- arguments. Sizes are natural numbers: no sum of the code passes the length of a buffer.
-- `uint_least64_t` has 64 bits. `next` calls itself, each time in a state whose case makes no
-- such call, and runs on fuel, of which two units are given.
-- The loop of `header_value_any_of` has one unit of fuel more than the header value has bytes.
--
-- `boost::algorithm::iequals` and `find_if_not` are fields of the parameter `Boost`; `IsBoost` says
-- what their documentation promises, in the "C" locale.
--
-- The two bits of `connection_flags` are two Booleans.
--
-- The tutorial's callback has one unit of fuel for each call of itself, and its loop four for each
-- byte of the buffer and five more. A `std::multimap` is the list of its elements in the
-- order of their keys (Base.Multimap).
--
-- Not modelled: the documentation's other examples, which are handlers of a Qt application, and the
-- tests.
pub mod Base
pub mod Token
pub mod Abnf
pub mod Syntax
pub mod FieldValue
pub mod Header
pub mod Reader
pub mod Tutorial
mod Tests
