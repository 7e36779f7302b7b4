-- ===== src/Command/Layout.antt =====
-- The request line is all that is written, and fits.
use lib_mogilefs.Prelude.{
  ℕ, ◌+◌, ◌-◌, ◌<◌, ◌≡◌, refl, sym, ap, ◌≢◌, inl, inr, false, [], ◌∷◌, ◌++◌, arith, length, drop,
  length-drop, length-append, append_assoc, append-nil, ltb, Bool-cases,
}
use lib_mogilefs.Prelude.CString.{Bytes}
use lib_mogilefs.Apr.{FormatApi, PoolApi}
use lib_mogilefs.Params.{Parameters}
use lib_mogilefs.Params.WellFormed.{IsReady}
use lib_mogilefs.Command.{
  write_at, Cursor, copy_text, put_char, put_parameters, meta_count_param, total_length,
  put_meta_count, put_end, build_request,
}
use lib_mogilefs.Command.Written.{
  query, Holds, Holds-cast, Holds-all, copy_text-Holds, put_char-Holds, put_parameters-Holds_used,
  put_end-Holds, length-query_used,
}

module _ (format : FormatApi) where
  -- The request line that the tracker reads.
  abbrev pub request_line : Bytes → Parameters → Bytes
  request_line cmd ps =
      cmd ++ (b' ' ∷ (meta_count_param format ps ++ (query ps.head ++ (b'\r' ∷ b'\n' ∷ []))))

  no_meta_param : (ps : Parameters) → ltb 0 ps.meta_count ≡ false → meta_count_param format ps ≡ []
  unfolding meta_count_param
  no_meta_param ps h = rw h

  put_meta_count-Holds :
      {front : Bytes} {room : ℕ} (w : Cursor) (ps : Parameters)
      → Holds front room w
      → length (meta_count_param format ps) < room
      → Holds
          (front ++ meta_count_param format ps)
          (room - length (meta_count_param format ps))
          (put_meta_count format w ps)
  unfolding put_meta_count
  put_meta_count-Holds w ps h fits = elim (Bool-cases (ltb 0 ps.meta_count)) [
    | inl some_meta ↦ rw some_meta (copy_text-Holds w _ h fits)
    | inr no_meta ↦
        rw (no_meta, no_meta_param ps no_meta) (Holds-cast (sym (append-nil _)) (omega arith) h)
  ]

  module _ (memory : PoolApi) (cmd : Bytes) (ps : Parameters) (r : IsReady ps)
      (used : ps.head ≢ []) where
    abbrev meta_param : Bytes
    meta_param = meta_count_param format ps

    abbrev text : Bytes
    text = query ps.head

    size_lem : total_length format cmd ps ≡ length cmd + 1 + length meta_param + length text + 2
    unfolding total_length
    size_lem = omega (arith, r.measured, r.counted, length-query_used ps.head used r.ready)

    abbrev start : Cursor
    start = record {
      request = write_at (memory.palloc (total_length format cmd ps + 1)) 0 (0 ∷ []);
      cat_pos = 0;
    }

    start-Holds : Holds [] (length cmd + 1 + length meta_param + length text + 3) start
    unfolding write_at
    start-Holds = record {
      back = 0 ∷ drop 1 (memory.palloc (total_length format cmd ps + 1));
      memory = refl;
      at = refl;
      left = omega (
        arith,
        size_lem,
        length-drop 1 (memory.palloc (total_length format cmd ps + 1)),
        memory.length-palloc (total_length format cmd ps + 1),
      );
    }

    built-Holds :
        (w : Cursor)
        → Holds [] (length cmd + 1 + length meta_param + length text + 3) w
        → Holds (request_line cmd ps ++ 0 ∷ []) 0 (
            put_end (
              put_parameters
                (put_meta_count format (put_char (copy_text w cmd (length cmd)) b' ') ps)
                ps.head))
    built-Holds w h = Holds-cast (simp append_assoc) refl (
        put_end-Holds _ (
          Holds-cast refl (omega arith) (
            put_parameters-Holds_used ps.head _ used r.ready
              (put_meta_count-Holds _ ps
                (put_char-Holds _ b' ' (copy_text-Holds w cmd h (omega arith)) (omega arith))
                (omega arith))
              (omega arith))))

    -- A ready list with a parameter in it is sent as the request line: the memory holds that line
    -- and its NUL, `*size` counts the line, and nothing is written behind what was allocated.
    pub build_request-request_line :
        ((build_request format memory cmd ps).request ≡ request_line cmd ps ++ 0 ∷ [])
        × ((build_request format memory cmd ps).size ≡ length (request_line cmd ps))
        × (length (build_request format memory cmd ps).request
            ≡ (build_request format memory cmd ps).allocated)
    unfolding build_request
    build_request-request_line = (
      written,
      sized,
      omega (arith, ap length written, sized, length-append (request_line cmd ps) (0 ∷ [])),
    )
      where
        written : (build_request format memory cmd ps).request ≡ request_line cmd ps ++ 0 ∷ []
        written = Holds-all (built-Holds start start-Holds)

        sized : (build_request format memory cmd ps).size ≡ length (request_line cmd ps)
        sized = omega (
          arith,
          size_lem,
          length-append cmd (b' ' ∷ (meta_param ++ (text ++ (b'\r' ∷ b'\n' ∷ [])))),
          length-append meta_param (text ++ (b'\r' ∷ b'\n' ∷ [])),
          length-append text (b'\r' ∷ b'\n' ∷ []),
        )
