-- ===== src/Tests/SyntaxWitnesses.antt =====
-- An instance of each theorem outside the readers at an input that meets its hypotheses.
use boost_http.Base.{ℕ, ◌<◌, ◌≤◌, some, none, [], ◌≡◌, ◌≢◌, refl, Bytes, arith, take}
use boost_http.Token.{Code, to_symbol, category_of_code, category_of_symbol}
use boost_http.Token.Coherence.{category_of_symbol-to_symbol}
use boost_http.Header.AnyOf.{header_value_any_of}
use boost_http.Header.Elements.{elements, any_fold, header_value_any_of-any_fold}
use boost_http.Header.Codings.{verdict, decode_transfer_encoding-verdict}
use boost_http.Header.TransferEncoding.{initial, see_coding, decode_transfer_encoding}
use boost_http.FieldValue.{decode_field_value}
use boost_http.FieldValue.Trimmed.{IsTrimmed, decode_field_value-IsTrimmed}
use boost_http.Syntax.Digits.{
  invalid, decimal_value, hex_value, decode_content_length, decode_chunk_size,
}
use boost_http.Syntax.Digits.Width.{decode_wrapped, decode-fits}
use boost_http.Syntax.Chars.{is_digit}
use boost_http.Syntax.StatusCode.{match_status_code, decode_status_code}
use boost_http.Syntax.StatusCode.Value.{decode_status_code-match_status_code}
use boost_http.Syntax.Digits.Decode.{Decodes}
use boost_http.Syntax.Digits.Numeral.{number}
use boost_http.Syntax.Digits.ContentLength.{decimal_digit, decode_content_length-Decodes}
use boost_http.Syntax.Digits.ChunkSize.{hex_digit, decode_chunk_size-Decodes}
use boost_http.Tests.Ascii.{ascii, ascii-IsBoost}
use boost_http.Tests.Runs.{bytes_of}

decode_content_length-Decodes_example :
    (bytes_of "0255" ≢ []
      → Decodes 255
          (number decimal_digit 10 (bytes_of "0255"))
          (decode_content_length 255 (bytes_of "0255") 7))
    × (decode_content_length 255 [] 7 ≡ (invalid, 7))
decode_content_length-Decodes_example = decode_content_length-Decodes 255 (bytes_of "0255") 7

decode_chunk_size-Decodes_example :
    (bytes_of "fF" ≢ []
      → Decodes 255 (number hex_digit 16 (bytes_of "fF")) (decode_chunk_size 255 (bytes_of "fF") 7))
    × (decode_chunk_size 255 [] 7 ≡ (invalid, 7))
decode_chunk_size-Decodes_example = decode_chunk_size-Decodes 255 (bytes_of "fF") 7

decode-fits_example :
    (decode_wrapped 255 decimal_value 10 (bytes_of "1256") 7
      ≡ decode_content_length 255 (bytes_of "1256") 7)
    × ((decode_content_length 255 (bytes_of "1256") 7).1 ≤ 255)
    × (decode_wrapped 255 hex_value 16 (bytes_of "1256") 7
        ≡ decode_chunk_size 255 (bytes_of "1256") 7)
    × ((decode_chunk_size 255 (bytes_of "1256") 7).1 ≤ 255)
decode-fits_example = decode-fits 255 (bytes_of "1256") 7 (omega arith) (omega arith)

decode_field_value-IsTrimmed_example :
    (bytes_of "a b \t" ≢ []
      → (value : Bytes) × (decode_field_value (bytes_of "a b \t") ≡ some value)
        × IsTrimmed (bytes_of "a b \t") value)
    × (decode_field_value [] ≡ none)
decode_field_value-IsTrimmed_example = decode_field_value-IsTrimmed (bytes_of "a b \t")

header_value_any_of-any_fold_example :
    header_value_any_of ascii (see_coding ascii) initial (bytes_of "gzip , chunked")
    ≡ some (any_fold (see_coding ascii) initial (elements (bytes_of "gzip , chunked")))
header_value_any_of-any_fold_example =
    header_value_any_of-any_fold ascii ascii-IsBoost (see_coding ascii) initial
      (bytes_of "gzip , chunked")

decode_transfer_encoding-verdict_example :
    decode_transfer_encoding ascii (bytes_of "gzip , chunked")
    ≡ some (verdict ascii (elements (bytes_of "gzip , chunked")))
decode_transfer_encoding-verdict_example =
    decode_transfer_encoding-verdict ascii ascii-IsBoost (bytes_of "gzip , chunked")

category_of_symbol-to_symbol_example :
    category_of_symbol (to_symbol Code.chunk_ext) ≡ category_of_code Code.chunk_ext
category_of_symbol-to_symbol_example = category_of_symbol-to_symbol Code.chunk_ext

decode_status_code-match_status_code_example :
    (n : ℕ) × (decode_status_code (take 3 (bytes_of "404 Not Found")) ≡ some n)
    × (number decimal_digit 10 (take 3 (bytes_of "404 Not Found")) ≡ some n)
    × (n < 1000)
unfolding match_status_code is_digit
decode_status_code-match_status_code_example =
    decode_status_code-match_status_code (bytes_of "404 Not Found") refl
