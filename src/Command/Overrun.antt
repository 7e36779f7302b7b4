-- ===== src/Command/Overrun.antt =====
-- A request with no parameters.
use lib_mogilefs.Prelude.{
  ℕ, ◌+◌, ◌≡◌, refl, sym, ◌∙◌, ap, [], ◌∷◌, ◌++◌, arith, length, take, drop, length-drop,
  length-append, append_assoc, append-nil, take-length,
}
use lib_mogilefs.Prelude.CString.{Bytes}
use lib_mogilefs.Apr.{FormatApi, PoolApi}
use lib_mogilefs.Params.{init_parameters}
use lib_mogilefs.Command.{
  write_at, Cursor, copy_text, put_char, put_parameters, meta_count_param, total_length,
  put_meta_count, put_end, build_request,
}
use lib_mogilefs.Command.Written.{
  Holds, Holds-cast, Holds-all, copy_text-Holds, put_char-Holds, write_at-append,
}

-- A byte written where there is no room left.
put_char-overrun :
    {front : Bytes} (w : Cursor) (c : ℕ)
    → Holds front 0 w
    → (put_char w c).request ≡ front ++ c ∷ []
unfolding put_char
put_char-overrun {front} w c h = rw (Holds-all h, h.at) (full ∙ append-nil (front ++ c ∷ []))
  where
    full : write_at front (length front) (c ∷ []) ≡ (front ++ c ∷ []) ++ []
    full = rw append-nil at (write_at-append front [] (c ∷ []))

module _ (format : FormatApi) (memory : PoolApi) (cmd : Bytes) where
  abbrev start : Cursor
  start = record {
    request = write_at (memory.palloc (total_length format cmd init_parameters + 1)) 0 (0 ∷ []);
    cat_pos = 0;
  }

  size_lem : total_length format cmd init_parameters ≡ length cmd + 2
  unfolding total_length init_parameters meta_count_param
  size_lem = omega arith

  start-Holds : Holds [] (length cmd + 3) start
  unfolding write_at
  start-Holds = record {
    back = 0 ∷ drop 1 (memory.palloc (total_length format cmd init_parameters + 1));
    memory = refl;
    at = refl;
    left = omega (
      arith,
      size_lem,
      length-drop 1 (memory.palloc (total_length format cmd init_parameters + 1)),
      memory.length-palloc (total_length format cmd init_parameters + 1),
    );
  }

  line : Bytes
  line = ((cmd ++ b' ' ∷ []) ++ b'\r' ∷ []) ++ b'\n' ∷ []

  full_line :
      (w : Cursor)
      → Holds [] (length cmd + 3) w
      → (put_end (put_char (copy_text w cmd (length cmd)) b' ')).request ≡ line ++ 0 ∷ []
  unfolding put_end line
  full_line w h = put_char-overrun _ 0 (
      Holds-cast refl (omega arith) (
        put_char-Holds _ b'\n'
          (put_char-Holds _ b'\r'
            (put_char-Holds _ b' ' (copy_text-Holds w cmd h (omega arith)) (omega arith))
            (omega arith))
          (omega arith)))

  written :
      (build_request format memory cmd init_parameters).request
      ≡ cmd ++ (b' ' ∷ b'\r' ∷ b'\n' ∷ 0 ∷ [])
  unfolding build_request init_parameters put_meta_count put_parameters line
  written = full_line start start-Holds ∙ simp append_assoc

  sized :
      ((build_request format memory cmd init_parameters).size ≡ length cmd + 2)
      × ((build_request format memory cmd init_parameters).allocated ≡ length cmd + 3)
  unfolding build_request
  sized = omega (arith, size_lem)

  -- For a list with no parameters one byte more is written than was allocated, and the size that is
  -- sent stops before the line feed.
  pub build_request-init_parameters :
      ((build_request format memory cmd init_parameters).request
        ≡ cmd ++ (b' ' ∷ b'\r' ∷ b'\n' ∷ 0 ∷ []))
      × (length (build_request format memory cmd init_parameters).request
          ≡ (build_request format memory cmd init_parameters).allocated + 1)
      × (take
            (build_request format memory cmd init_parameters).size
            (build_request format memory cmd init_parameters).request
          ≡ cmd ++ (b' ' ∷ b'\r' ∷ []))
  build_request-init_parameters = (
    written,
    omega (arith, sized, ap length written, length-append cmd (b' ' ∷ b'\r' ∷ b'\n' ∷ 0 ∷ [])),
    rw (written, sized.0) sent,
  )
    where
      sent :
          take (length cmd + 2) (cmd ++ (b' ' ∷ b'\r' ∷ b'\n' ∷ 0 ∷ []))
          ≡ cmd ++ (b' ' ∷ b'\r' ∷ [])
      sent =
          ap (λ n. take n (cmd ++ (b' ' ∷ b'\r' ∷ b'\n' ∷ 0 ∷ [])))
            (sym (length-append cmd (b' ' ∷ b'\r' ∷ [])))
          ∙ ap (take (length (cmd ++ (b' ' ∷ b'\r' ∷ []))))
              (sym (append_assoc cmd (b' ' ∷ b'\r' ∷ []) (b'\n' ∷ 0 ∷ [])))
          ∙ take-length (cmd ++ (b' ' ∷ b'\r' ∷ [])) (b'\n' ∷ 0 ∷ [])
