-- ===== src/Command.antt =====
-- src/tracker.c, `mfs_tracker_build_request`: the request line is written into allocated memory by
-- a moving pointer. The memory is a list of bytes, and a write past its end makes the list longer.
pub mod Written
pub mod Layout
pub mod Overrun
use lib_mogilefs.Prelude.{
  ℕ, ◌+◌, ◌-◌, Bool, List, [], ◌∷◌, ◌++◌, length, take, drop, ltb, if◌then◌else◌,
}
use lib_mogilefs.Prelude.CString.{Bytes, codes}
use lib_mogilefs.Apr.{FormatApi, PoolApi}
use lib_mogilefs.Params.{Parameter, Parameters}

unfoldable pub write_at : Bytes → ℕ → Bytes → Bytes
write_at memory position bytes =
    take position memory ++ (bytes ++ drop (position + length bytes) memory)

-- `request` and `cat_pos`
pub record Cursor : Type 0 where
  pub request : Bytes
  pub cat_pos : ℕ

-- `strcpy(cat_pos, text); cat_pos += n`
unfoldable pub copy_text : Cursor → Bytes → ℕ → Cursor
unfolding write_at
copy_text w text n = record {
  request = write_at w.request w.cat_pos (text ++ 0 ∷ []);
  cat_pos = w.cat_pos + n;
}

-- `*cat_pos ++ = c`
unfoldable pub put_char : Cursor → ℕ → Cursor
unfolding write_at
put_char w c = record { request = write_at w.request w.cat_pos (c ∷ []); cat_pos = w.cat_pos + 1 }

unfoldable pub put_parameter : Cursor → Parameter → Cursor
unfolding copy_text put_char
put_parameter w param =
    copy_text (put_char (copy_text w param.key param.key_length) b'=') param.value
      param.value_length

-- `&` behind every parameter that has a `next`
unfoldable pub put_parameters : Cursor → List Parameter → Cursor
unfolding put_parameter
put_parameters w [] = w
put_parameters w (param ∷ []) = put_parameter w param
put_parameters w (param ∷ next ∷ rest) =
    put_parameters (put_char (put_parameter w param) b'&') (next ∷ rest)

-- The three bytes at the end, the last of them the NUL.
unfoldable pub put_end : Cursor → Cursor
unfolding put_char
put_end w = put_char (put_char (put_char w b'\r') b'\n') 0

-- What is allocated and written, and the `*size` that is sent.
pub record Built : Type 0 where
  pub request : Bytes
  pub size : ℕ
  pub allocated : ℕ

module _ (format : FormatApi) where
  -- `plugin.meta.keys=%d&`, if there is meta data
  unfoldable pub meta_count_param : Parameters → Bytes
  meta_count_param parameters =
      if ltb 0 parameters.meta_count
      then codes "plugin.meta.keys=" ++ (format.decimal parameters.meta_count ++ codes "&")
      else []

  unfoldable pub total_length : Bytes → Parameters → ℕ
  total_length cmd parameters =
      length cmd
      + 3
      + parameters.strlen
      + parameters.count
      - 1
      + length (meta_count_param parameters)

  unfoldable pub put_meta_count : Cursor → Parameters → Cursor
  unfolding copy_text
  put_meta_count w parameters =
      if ltb 0 parameters.meta_count
      then copy_text w (meta_count_param parameters) (length (meta_count_param parameters))
      else w

  unfoldable pub build_request : PoolApi → Bytes → Parameters → Built
  build_request memory cmd parameters =
      let size = total_length cmd parameters in
      let fresh = write_at (memory.palloc (size + 1)) 0 (0 ∷ []) in
      let named = copy_text (record { request = fresh; cat_pos = 0 }) cmd (length cmd) in
      let started = put_meta_count (put_char named b' ') parameters in
      record {
        request = (put_end (put_parameters started parameters.head)).request;
        size = size;
        allocated = size + 1;
      }
