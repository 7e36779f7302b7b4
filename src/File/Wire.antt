-- ===== src/File/Wire.antt =====
-- The request line of a list of keys and values.
use lib_mogilefs.Prelude.{
  ◌≡◌, refl, sym, ◌∙◌, ap, ◌≢◌, false, Option, none, some, List, [], ◌∷◌, ◌++◌, append_assoc,
  append-nil, map, All,
}
use lib_mogilefs.Prelude.CString.{Bytes, codes, IsText}
use lib_mogilefs.Apr.{FormatApi, join}
use lib_mogilefs.Encoding.{url_encode}
use lib_mogilefs.Params.{Parameter, Parameters, init_parameters, add_parameter}
use lib_mogilefs.Params.WellFormed.{IsReady, append_parameter-append, add_parameter-IsReady}
use lib_mogilefs.Command.{meta_count_param}
use lib_mogilefs.Command.Written.{query}
use lib_mogilefs.Command.Layout.{request_line}
use lib_mogilefs.Response.RoundTrip.{Pair}
use lib_mogilefs.File.{add_parameters, add_client_id, parameters_of}

abbrev pub encode_pair : Pair → Bytes
encode_pair (k, v) = (url_encode k).0 ++ b'=' ∷ (url_encode v).0

-- What goes over the wire: the command, a space, the pairs, encoded, with `&` between them, and the
-- end of the line.
abbrev pub wire : Bytes → List Pair → Bytes
wire cmd pairs = cmd ++ b' ' ∷ (join b'&' (map encode_pair pairs) ++ b'\r' ∷ b'\n' ∷ [])

abbrev pub IsTextPair : Pair → Type 0
IsTextPair (k, v) = IsText k × IsText v

-- The pair of a client id, if there is one.
abbrev pub id_pairs : Option Bytes → List Pair
id_pairs none = []
id_pairs (some client_id) = (codes "client_id", client_id) ∷ []

abbrev parameter_of : Pair → Parameter
parameter_of (k, v) = record {
  key = (url_encode k).0;
  key_length = (url_encode k).1;
  value = (url_encode v).0;
  value_length = (url_encode v).1;
  is_metadata = false;
}

head-add_parameters :
    (pairs : List Pair) (ps : Parameters)
    → ((add_parameters pairs ps).head ≡ ps.head ++ map parameter_of pairs)
      × ((add_parameters pairs ps).meta_count ≡ ps.meta_count)
unfolding add_parameters add_parameter
head-add_parameters [] ps = (sym (append-nil ps.head), refl)
head-add_parameters ((k, v) ∷ pairs) ps =
    let (heads, metas) = head-add_parameters pairs (add_parameter ps k v) in
    (
      heads
          ∙ rw (append_parameter-append ps.head (parameter_of (k, v)))
              (append_assoc ps.head (parameter_of (k, v) ∷ []) (map parameter_of pairs)),
      metas,
    )

query-parameter_of :
    (pairs : List Pair) → query (map parameter_of pairs) ≡ join b'&' (map encode_pair pairs)
query-parameter_of [] = refl
query-parameter_of (p ∷ []) = refl
query-parameter_of (p ∷ q ∷ pairs) =
    ap (λ s. encode_pair p ++ b'&' ∷ s) (query-parameter_of (q ∷ pairs))

module _ (format : FormatApi) where
  pub request_line-add_parameters :
      (cmd : Bytes) (pairs : List Pair)
      → request_line format cmd (add_parameters pairs init_parameters) ≡ wire cmd pairs
  unfolding meta_count_param init_parameters
  request_line-add_parameters cmd pairs =
      let (heads, metas) = head-add_parameters pairs init_parameters in
      rw (heads, metas, query-parameter_of pairs) refl

pub add_parameters-IsReady :
    (pairs : List Pair) (ps : Parameters)
    → All IsTextPair pairs
    → IsReady ps
    → IsReady (add_parameters pairs ps)
unfolding add_parameters
add_parameters-IsReady [] ps h r = r
add_parameters-IsReady ((k, v) ∷ pairs) ps ((hk, hv), h) r =
    add_parameters-IsReady pairs (add_parameter ps k v) h (add_parameter-IsReady ps k v hk hv r)

pub add_parameters_used :
    (p : Pair) (pairs : List Pair) → (add_parameters (p ∷ pairs) init_parameters).head ≢ []
unfolding init_parameters
add_parameters_used p pairs e =
    let heads = (head-add_parameters (p ∷ pairs) init_parameters).0 in cc

add_parameters-append :
    (xs ys : List Pair) (ps : Parameters)
    → add_parameters (xs ++ ys) ps ≡ add_parameters ys (add_parameters xs ps)
unfolding add_parameters
add_parameters-append [] ys ps = refl
add_parameters-append ((k, v) ∷ xs) ys ps = add_parameters-append xs ys (add_parameter ps k v)

pub parameters_of-add_parameters :
    (client_id : Option Bytes) (pairs : List Pair)
    → parameters_of client_id pairs ≡ add_parameters (pairs ++ id_pairs client_id) init_parameters
unfolding parameters_of add_client_id
parameters_of-add_parameters none pairs =
    ap (λ l. add_parameters l init_parameters) (sym (append-nil pairs))
parameters_of-add_parameters (some client_id) pairs =
    unfold add_parameters in
    sym (add_parameters-append pairs (id_pairs (some client_id)) init_parameters)
