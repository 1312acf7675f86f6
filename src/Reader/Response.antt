-- ===== src/Reader/Response.antt =====
-- include/boost/http/reader/response.hpp and response.ipp: the response reader.
pub mod State
pub mod Value
pub mod Method
pub mod StatusLine
pub mod Fields
pub mod Body
pub mod Trailers
pub mod Next
pub mod Mirror
pub mod Safety
pub mod Progress
pub mod Delivery
pub mod Framing
pub mod Headers
pub mod Fuel
pub mod Reach
pub mod Order
pub mod Width
pub mod Failure
