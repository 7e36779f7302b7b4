-- ===== src/Params.antt =====
-- src/tracker.c: the parameters of a request. Memory is allocated from pools and shared by pointers
-- that nothing writes through, so keys and values are plain texts; counts stay below 2 ^ 31.
pub mod WellFormed
use lib_mogilefs.Prelude.{ℕ, ◌+◌, Bool, true, false, List, [], ◌∷◌, ◌++◌, if◌then◌else◌}
use lib_mogilefs.Prelude.CString.{Bytes, codes}
use lib_mogilefs.Apr.{FormatApi}
use lib_mogilefs.Encoding.{url_encode}

-- `tracker_request_parameter`; the field `next` is the rest of the list.
pub record Parameter : Type 0 where
  pub key : Bytes
  pub key_length : ℕ
  pub value : Bytes
  pub value_length : ℕ
  pub is_metadata : Bool

-- `tracker_request_parameters`
pub record Parameters : Type 0 where
  pub head : List Parameter
  pub count : ℕ
  pub strlen : ℕ
  pub meta_count : ℕ

unfoldable pub init_parameters : Parameters
init_parameters = record { head = []; count = 0; strlen = 0; meta_count = 0 }

-- The walk to the last node, behind which the new one is linked.
unfoldable pub append_parameter : List Parameter → Parameter → List Parameter
append_parameter [] parameter = parameter ∷ []
append_parameter (p ∷ tail) parameter = p ∷ append_parameter tail parameter

unfoldable pub add_parameter_pointers : Parameters → Bytes → ℕ → Bytes → ℕ → Parameters
unfolding append_parameter
add_parameter_pointers parameters key key_length value value_length = record parameters {
  head = append_parameter parameters.head (record {
    key = key;
    key_length = key_length;
    value = value;
    value_length = value_length;
    is_metadata = false;
  });
  count = parameters.count + 1;
  strlen = parameters.strlen + (key_length + value_length + 1);
}

unfoldable pub add_parameter : Parameters → Bytes → Bytes → Parameters
unfolding add_parameter_pointers
add_parameter parameters key value =
    let (encoded_key, key_length) = url_encode key in
    let (encoded_value, value_length) = url_encode value in
    add_parameter_pointers parameters encoded_key key_length encoded_value value_length

module _ (format : FormatApi) where
  open format use {decimal}

  -- With `prepare` two encoded parameters; without, a marked one that is not encoded or measured.
  unfoldable pub add_meta_data : Parameters → Bytes → Bytes → Bool → Parameters
  unfolding add_parameter append_parameter
  add_meta_data parameters key value prepare =
      if prepare
      then (let n = parameters.meta_count in
          let with_key = add_parameter parameters (codes "plugin.meta.key" ++ decimal n) key in
          let with_value = add_parameter with_key (codes "plugin.meta.value" ++ decimal n) value in
          record with_value { meta_count = n + 1 })
      else record parameters {
        head = append_parameter parameters.head (record {
          key = key;
          key_length = 0;
          value = value;
          value_length = 0;
          is_metadata = true;
        });
        count = parameters.count + 1;
        meta_count = parameters.meta_count + 1;
      }

  -- One round of the loop of `mfs_tracker_copy_parameter_pointers`.
  unfoldable pub copy_one : Parameters → Parameter → Parameters
  unfolding add_meta_data
  copy_one dest param =
      if param.is_metadata
      then add_meta_data dest param.key param.value true
      else add_parameter_pointers dest param.key param.key_length param.value param.value_length

  copy_loop : List Parameter → Parameters → Parameters
  unfolding copy_one
  copy_loop [] dest = dest
  copy_loop (param ∷ rest) dest = copy_loop rest (copy_one dest param)

  -- `src` and `dest` are two lists.
  unfoldable pub copy_parameter_pointers : Parameters → Parameters → Parameters
  unfolding copy_loop
  copy_parameter_pointers src dest = copy_loop src.head dest
