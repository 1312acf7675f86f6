-- ===== src/Reader/Request.antt =====
-- include/boost/http/reader/request.hpp and request.ipp: the request reader.
pub mod State
pub mod Value
pub mod StartLine
pub mod Fields
pub mod Body
pub mod Trailers
pub mod Next
pub mod Safety
pub mod Progress
pub mod Resume
pub mod Shift
pub mod Tiling
pub mod Delivery
pub mod RoundTrip
pub mod Outcome
pub mod Order
pub mod Reach
pub mod Width
pub mod Failure
