-- ===== src/Reader.antt =====
-- include/boost/http/reader: the incremental readers.
pub mod Loop
pub mod Grammar
pub mod Request
pub mod Response
