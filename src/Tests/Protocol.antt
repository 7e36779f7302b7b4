-- ===== src/Tests/Protocol.antt =====
-- Requests, replies and the exchange of one for the other, on concrete texts.
use lib_mogilefs.Prelude.{
  ◌+◌, ◌≡◌, refl, ◌≢◌, false, some, List, [], ◌∷◌, ◌++◌, arith, length, take, All,
}
use lib_mogilefs.Prelude.CString.{Bytes, codes, IsText}
use lib_mogilefs.Encoding.{url_encode, url_decode}
use lib_mogilefs.Encoding.RoundTrip.{url_decode-url_encode}
use lib_mogilefs.Params.{
  Parameters, init_parameters, append_parameter, add_parameter_pointers, add_parameter,
  add_meta_data,
}
use lib_mogilefs.Params.WellFormed.{IsReady, init_parameters-IsReady, add_parameter-IsReady}
use lib_mogilefs.Command.{build_request}
use lib_mogilefs.Command.Layout.{request_line, build_request-request_line}
use lib_mogilefs.Command.Overrun.{build_request-init_parameters}
use lib_mogilefs.Response.{parse_response}
use lib_mogilefs.Response.RoundTrip.{Pair, IsPair, print_reply, hash_get-parse_response}
use lib_mogilefs.Tests.Platform.{decimal_format, filled_memory, list_hash, cutting}

abbrev domain : Bytes
domain = codes "domain"

abbrev phrase : Bytes
phrase = codes "a b&c=%"

phrase-IsText : IsText phrase
phrase-IsText = omega arith

domain-IsText : IsText domain
domain-IsText = omega arith

url_decode-url_encode_example : url_decode (url_encode phrase).0 ≡ phrase
url_decode-url_encode_example = url_decode-url_encode phrase phrase-IsText

abbrev one : Parameters
one = add_parameter init_parameters domain phrase

one-IsReady : IsReady one
one-IsReady =
    add_parameter-IsReady init_parameters domain phrase domain-IsText phrase-IsText
      init_parameters-IsReady

-- One marked text.
abbrev marked : Parameters
marked = add_meta_data decimal_format init_parameters domain phrase false

one_used : one.head ≢ []
unfolding add_parameter add_parameter_pointers append_parameter init_parameters
one_used e = cc

build_request-request_line_example :
    ((build_request decimal_format filled_memory domain one).request
      ≡ request_line decimal_format domain one ++ 0 ∷ [])
    × ((build_request decimal_format filled_memory domain one).size
        ≡ length (request_line decimal_format domain one))
    × (length (build_request decimal_format filled_memory domain one).request
        ≡ (build_request decimal_format filled_memory domain one).allocated)
build_request-request_line_example =
    build_request-request_line decimal_format filled_memory domain one one-IsReady one_used

build_request-init_parameters_example :
    ((build_request decimal_format filled_memory domain init_parameters).request
      ≡ domain ++ (b' ' ∷ b'\r' ∷ b'\n' ∷ 0 ∷ []))
    × (length (build_request decimal_format filled_memory domain init_parameters).request
        ≡ (build_request decimal_format filled_memory domain init_parameters).allocated + 1)
    × (take
          (build_request decimal_format filled_memory domain init_parameters).size
          (build_request decimal_format filled_memory domain init_parameters).request
        ≡ domain ++ (b' ' ∷ b'\r' ∷ []))
build_request-init_parameters_example =
    build_request-init_parameters decimal_format filled_memory domain

abbrev pairs : List Pair
pairs = (codes "paths", codes "1") ∷ (codes "path1", phrase) ∷ []

pairs_sendable : All IsPair pairs
pairs_sendable =
    ((omega arith, refl, refl, omega arith), ((omega arith, refl, refl, phrase-IsText), tt))

hash_get-parse_response_example :
    list_hash.hash_get
      (parse_response list_hash cutting
        (print_reply pairs)
        (length (print_reply pairs))
        false
        []).result
      (codes "path1")
    ≡ some phrase
hash_get-parse_response_example =
    hash_get-parse_response list_hash cutting pairs false [] (codes "path1") pairs_sendable refl

-- The reply in two pieces.
abbrev pieces : List Bytes
pieces = codes "OK paths=1" ∷ (codes "&path1=a+b%26c%3d%25" ++ b'\r' ∷ b'\n' ∷ []) ∷ []
