-- ===== src/Token.antt =====
-- include/boost/http/token.hpp and token.ipp: the enumerations of `token::code`,
-- `token::symbol` and `token::category`, and the three `convert` functions.
pub mod Coherence

pub data Code : Type 0 where
  error_insufficient_data error_set_method error_use_another_connection : Code
  error_invalid_data error_no_host error_invalid_content_length : Code
  error_content_length_overflow error_invalid_transfer_encoding : Code
  error_chunk_size_overflow : Code
  skip method request_target version status_code reason_phrase : Code
  field_name field_value end_of_headers chunk_ext body_chunk end_of_body : Code
  trailer_name trailer_value end_of_message : Code

pub data Symbol : Type 0 where
  error skip method request_target version status_code reason_phrase : Symbol
  field_name field_value end_of_headers chunk_ext body_chunk end_of_body : Symbol
  trailer_name trailer_value end_of_message : Symbol

pub data Category : Type 0 where
  status data_token structural : Category

-- `symbol::convert`.
unfoldable pub to_symbol : Code → Symbol
to_symbol Code.error_insufficient_data = Symbol.error
to_symbol Code.error_set_method = Symbol.error
to_symbol Code.error_use_another_connection = Symbol.error
to_symbol Code.error_invalid_data = Symbol.error
to_symbol Code.error_no_host = Symbol.error
to_symbol Code.error_invalid_content_length = Symbol.error
to_symbol Code.error_content_length_overflow = Symbol.error
to_symbol Code.error_invalid_transfer_encoding = Symbol.error
to_symbol Code.error_chunk_size_overflow = Symbol.error
to_symbol Code.skip = Symbol.skip
to_symbol Code.method = Symbol.method
to_symbol Code.request_target = Symbol.request_target
to_symbol Code.version = Symbol.version
to_symbol Code.status_code = Symbol.status_code
to_symbol Code.reason_phrase = Symbol.reason_phrase
to_symbol Code.field_name = Symbol.field_name
to_symbol Code.field_value = Symbol.field_value
to_symbol Code.end_of_headers = Symbol.end_of_headers
to_symbol Code.chunk_ext = Symbol.chunk_ext
to_symbol Code.body_chunk = Symbol.body_chunk
to_symbol Code.end_of_body = Symbol.end_of_body
to_symbol Code.trailer_name = Symbol.trailer_name
to_symbol Code.trailer_value = Symbol.trailer_value
to_symbol Code.end_of_message = Symbol.end_of_message

-- `category::convert(code::value)`.
unfoldable pub category_of_code : Code → Category
category_of_code Code.error_insufficient_data = Category.status
category_of_code Code.error_set_method = Category.status
category_of_code Code.error_use_another_connection = Category.status
category_of_code Code.error_invalid_data = Category.status
category_of_code Code.error_no_host = Category.status
category_of_code Code.error_invalid_content_length = Category.status
category_of_code Code.error_content_length_overflow = Category.status
category_of_code Code.error_invalid_transfer_encoding = Category.status
category_of_code Code.error_chunk_size_overflow = Category.status
category_of_code Code.skip = Category.status
category_of_code Code.method = Category.data_token
category_of_code Code.request_target = Category.data_token
category_of_code Code.version = Category.data_token
category_of_code Code.status_code = Category.data_token
category_of_code Code.reason_phrase = Category.data_token
category_of_code Code.field_name = Category.data_token
category_of_code Code.field_value = Category.data_token
category_of_code Code.chunk_ext = Category.data_token
category_of_code Code.body_chunk = Category.data_token
category_of_code Code.trailer_name = Category.data_token
category_of_code Code.trailer_value = Category.data_token
category_of_code Code.end_of_headers = Category.structural
category_of_code Code.end_of_body = Category.structural
category_of_code Code.end_of_message = Category.structural

-- `category::convert(symbol::value)`.
unfoldable pub category_of_symbol : Symbol → Category
category_of_symbol Symbol.error = Category.status
category_of_symbol Symbol.skip = Category.status
category_of_symbol Symbol.method = Category.data_token
category_of_symbol Symbol.request_target = Category.data_token
category_of_symbol Symbol.version = Category.data_token
category_of_symbol Symbol.status_code = Category.data_token
category_of_symbol Symbol.reason_phrase = Category.data_token
category_of_symbol Symbol.field_name = Category.data_token
category_of_symbol Symbol.field_value = Category.data_token
category_of_symbol Symbol.chunk_ext = Category.data_token
category_of_symbol Symbol.body_chunk = Category.data_token
category_of_symbol Symbol.trailer_name = Category.data_token
category_of_symbol Symbol.trailer_value = Category.data_token
category_of_symbol Symbol.end_of_headers = Category.structural
category_of_symbol Symbol.end_of_body = Category.structural
category_of_symbol Symbol.end_of_message = Category.structural
