-- ===== src/Transfer/Download/Rewound.antt =====
-- The file that takes the data: what is behind the last write, and its rewind.
use lib_mogilefs.Prelude.{
  ℕ, zero, suc, ◌≡◌, refl, sym, ◌∙◌, ap, inl, inr, ◌⊎◌, true, false, Option, none, some, List, [],
  ◌∷◌, ◌++◌, ◌+◌, ltb, length, length-append, drop, drop-drop, Bool-cases, Option-cases,
}
use lib_mogilefs.Prelude.CString.{Bytes}
use lib_mogilefs.Apr.{Status, is_success}
use lib_mogilefs.Network.{AprApi}
use lib_mogilefs.Transfer.{TransferApi, concat, Writes, written_all, write_more}
use lib_mogilefs.Transfer.Download.{
  WriteBuffer, open_spill, copy_buckets, spill_piece, spill_to, spill, write_on,
  buffer_get_write_callback,
}
use lib_mogilefs.Transfer.Download.Received.{callback_on, callback_spills, callback_keeps}
use lib_mogilefs.Transfer.Download.Spilled.{none_ne_some}
use lib_mogilefs.Transfer.Download.Get.{rewind_written}

drop-nil : (n : ℕ) → drop {A = ℕ} n [] ≡ []
drop-nil zero = refl
drop-nil (suc n) = refl

module _ (apr : AprApi) (api : TransferApi apr) (max_buffer_size : ℕ) where
  open apr use {network}
  open network use {World}
  open api use {File, file_seek, file_write_full, written, behind}

  -- The position is the start of the file, or the seek to it, the last that was done, failed.
  abbrev pub IsRewound : File → World → Type 0
  IsRewound f w =
      (written f w ≡ [])
      ⊎ ((v : World) × (w ≡ (file_seek f 0 v).1) × (is_success (file_seek f 0 v).0 ≡ false))

  -- The bytes of a file.
  abbrev pub whole : File → World → Bytes
  whole f w = written f w ++ behind f w

  pub whole-rewind_written :
      (f : File) (buf : WriteBuffer File) (w : World)
      → whole f (rewind_written apr api max_buffer_size f buf w) ≡ whole f w
  unfolding rewind_written
  whole-rewind_written f buf w = elim (Bool-cases (ltb 0 buf.current_size)) [
    | inl some_data ↦ rw some_data (api.contents-file_seek f 0 w)
    | inr empty ↦ rw empty refl
  ]

  pub rewind_written-IsRewound :
      (f : File) (buf : WriteBuffer File) (w : World)
      → (ltb 0 buf.current_size ≡ false)
        ⊎ IsRewound f (rewind_written apr api max_buffer_size f buf w)
  unfolding rewind_written
  rewind_written-IsRewound f buf w = elim (Bool-cases (ltb 0 buf.current_size)) [
    | inl some_data ↦ inr (
        rw some_data (elim (Bool-cases (is_success (file_seek f 0 w).0)) [
          | inl good ↦ inl (api.written-file_seek f 0 w good)
          | inr bad ↦ inr (w, refl, bad)
        ]))
    | inr empty ↦ inl empty
  ]

  -- A buffer whose file, if it has one, has nothing behind its position, and is not at a path.
  pub record IsAtEnd (buf : WriteBuffer File) (w : World) : Type 0 where
    pub no_path : buf.destination_file_path ≡ none
    pub at_end : (f : File) → buf.file ≡ some f → behind f w ≡ []

  written_at_end :
      (f : File) (s : Bytes) (w : World) → behind f w ≡ [] → behind f (file_write_full f s w).2 ≡ []
  written_at_end f s w e =
      api.behind-file_write_full f s w ∙ ap (drop (file_write_full f s w).1) e ∙ drop-nil _

  copied_at_end :
      (bs : List Bytes) (f : File) (size : ℕ) (w : World)
      → behind f w ≡ []
      → behind f (copy_buckets apr api max_buffer_size bs f size w).2 ≡ []
  unfolding copy_buckets
  copied_at_end [] f size w e = e
  copied_at_end (b ∷ bs) f size w e = elim (Bool-cases (is_success (file_write_full f b w).0)) [
    | inl good ↦ rw good (copied_at_end bs f _ _ (written_at_end f b w e))
    | inr bad ↦ rw bad (written_at_end f b w e)
  ]

  same_file : {f g : File} {w : World} → some g ≡ some f → behind g w ≡ [] → behind f w ≡ []
  same_file {f} {g} {w = w} e h = ap (λ o. behind (unwrapped o) w) (sym e) ∙ h
    where
      unwrapped : Option File → File
      unwrapped none = g
      unwrapped (some x) = x

  -- The file is set to one with nothing behind its position.
  IsAtEnd-some :
      (f : File) (buf : WriteBuffer File) (w : World)
      → buf.destination_file_path ≡ none
      → buf.file ≡ some f
      → behind f w ≡ []
      → IsAtEnd buf w
  IsAtEnd-some f buf w path here e = record {
    no_path = path;
    at_end = λ g there. same_file {f = g} {g = f} {w = w} (sym here ∙ there) e;
  }

  IsAtEnd-none :
      (buf : WriteBuffer File) (w : World)
      → buf.destination_file_path ≡ none
      → buf.file ≡ none
      → IsAtEnd buf w
  IsAtEnd-none buf w path memory = record {
    no_path = path;
    at_end = λ g there. absurd (none_ne_some (sym memory ∙ there));
  }

  spill_piece-IsAtEnd :
      (piece : Bytes) (f : File) (buf : WriteBuffer File) (w : World)
      → buf.destination_file_path ≡ none
      → buf.file ≡ some f
      → behind f w ≡ []
      → IsAtEnd
          (spill_piece apr api max_buffer_size piece f buf w).1
          (spill_piece apr api max_buffer_size piece f buf w).2
  unfolding spill_piece
  spill_piece-IsAtEnd piece f buf w path here e =
      elim (Bool-cases (is_success (file_write_full f piece w).0)) [
        | inl good ↦ rw good (IsAtEnd-some f _ _ path here (written_at_end f piece w e))
        | inr bad ↦ rw bad (IsAtEnd-some f _ _ path here (written_at_end f piece w e))
      ]

  spill_to-IsAtEnd :
      (piece : Bytes) (f : File) (buf : WriteBuffer File) (w : World)
      → buf.destination_file_path ≡ none
      → behind f w ≡ []
      → IsAtEnd
          (spill_to apr api max_buffer_size piece f buf w).1
          (spill_to apr api max_buffer_size piece f buf w).2
  unfolding spill_to
  spill_to-IsAtEnd piece f buf w path e = elim (Bool-cases buf.dont_want_brigade) [
    | inr mode ↦ rw mode (spill_piece-IsAtEnd piece f _ w path refl e)
    | inl mode ↦
        let copied = copied_at_end buf.brigade f buf.file_size w e in
        elim (Bool-cases (copy_buckets apr api max_buffer_size buf.brigade f buf.file_size w).0) [
          | inl all ↦ rw (mode, all) (spill_piece-IsAtEnd piece f _ _ path refl copied)
          | inr part ↦ rw (mode, part) (IsAtEnd-some f _ _ path refl copied)
        ]
  ]

  open_spill-behind :
      (path : Option Bytes) (w : World) (rv : Status) (f : File)
      → path ≡ none
      → (open_spill apr api max_buffer_size path w).0 ≡ some (rv, f)
      → is_success rv ≡ true
      → behind f (open_spill apr api max_buffer_size path w).1 ≡ []
  unfolding open_spill
  open_spill-behind none w rv f = λ no_path e good.
      rw (ap (λ o. (opened o).1) e) at
        (api.behind-file_mktemp w (ap (λ o. is_success (opened o).0) e ∙ good))
    where
      opened : Option (Status × File) → Status × File
      opened none = (rv, f)
      opened (some o) = o
  open_spill-behind (some path) w rv f = λ no_path. absurd (none_ne_some (sym no_path))

  spill-IsAtEnd :
      (piece : Bytes) (buf : WriteBuffer File) (w : World)
      → buf.destination_file_path ≡ none
      → buf.file ≡ none
      → IsAtEnd
          (spill apr api max_buffer_size piece buf w).1
          (spill apr api max_buffer_size piece buf w).2
  unfolding spill
  spill-IsAtEnd piece buf w path memory =
      elim (Option-cases (open_spill apr api max_buffer_size buf.destination_file_path w).0) [
        | inl e ↦ rw (e, spill) (IsAtEnd-none _ _ path memory)
        | inr ((rv, f), e) ↦
            rw (e, spill)
              (elim (Bool-cases (is_success rv)) [
                | inr bad ↦ rw bad (IsAtEnd-none buf _ path memory)
                | inl good ↦ rw good (
                    spill_to-IsAtEnd piece f buf _ path
                      (open_spill-behind buf.destination_file_path w rv f path e good))
              ])
      ]

  write_on-IsAtEnd :
      (piece : Bytes) (f : File) (buf : WriteBuffer File) (w : World)
      → buf.file ≡ some f
      → IsAtEnd buf w
      → IsAtEnd
          (write_on apr api max_buffer_size piece f buf w).1
          (write_on apr api max_buffer_size piece f buf w).2
  unfolding write_on
  write_on-IsAtEnd piece f buf w here h =
      IsAtEnd-some f _ _ h.no_path here (written_at_end f piece w (h.at_end f here))

  -- The callback keeps that nothing is behind, whatever it returns.
  callback-IsAtEnd :
      (piece : Bytes) (buf : WriteBuffer File) (w : World)
      → IsAtEnd buf w
      → IsAtEnd
          (buffer_get_write_callback apr api max_buffer_size piece buf w).1
          (buffer_get_write_callback apr api max_buffer_size piece buf w).2
  callback-IsAtEnd piece buf w h = elim (Option-cases buf.file) [
    | inr (f, e) ↦
        rw (callback_on apr api max_buffer_size piece f buf w e)
          (write_on-IsAtEnd piece f buf w e h)
    | inl e ↦ elim (Bool-cases (ltb max_buffer_size (length piece + buf.current_size))) [
      | inl over ↦
          rw (callback_spills apr api max_buffer_size piece buf w e over)
            (spill-IsAtEnd piece buf w h.no_path e)
      | inr fits ↦
          rw (callback_keeps apr api max_buffer_size piece buf w e fits)
            (IsAtEnd-none _ w h.no_path e)
    ]
  ]

  pub Writes-IsAtEnd :
      (buf' : WriteBuffer File) (w' : World) {buf : WriteBuffer File} {w : World}
      {pieces : List Bytes}
      → Writes api.Elsewhere
          (buffer_get_write_callback apr api max_buffer_size)
          buf'
          w'
          buf
          w
          pieces
      → IsAtEnd buf w
      → IsAtEnd buf' w'
  Writes-IsAtEnd buf' w' {w} (written_all e) h = record {
    no_path = h.no_path;
    at_end = λ f here. api.behind-Elsewhere f w w' e ∙ h.at_end f here;
  }
  Writes-IsAtEnd buf' w' {buf} {w} (write_more {t} {v} {u} {c} {cs} e call more) h =
      Writes-IsAtEnd buf' w' more (
        rw call at (
          callback-IsAtEnd c buf v (record {
            no_path = h.no_path;
            at_end = λ f here. api.behind-Elsewhere f w v e ∙ h.at_end f here;
          })))

  -- Behind a file that is written to from the start of the download on, as many bytes go as come.
  pub Writes-behind :
      (f : File) (buf' : WriteBuffer File) (w' : World) {buf : WriteBuffer File} {w : World}
      {pieces : List Bytes}
      → Writes api.Elsewhere
          (buffer_get_write_callback apr api max_buffer_size)
          buf'
          w'
          buf
          w
          pieces
      → buf.file ≡ some f
      → (buf'.file ≡ some f) × (behind f w' ≡ drop (length (concat pieces)) (behind f w))
  unfolding write_on
  Writes-behind f buf' w' {w} (written_all e) h = (h, api.behind-Elsewhere f w w' e)
  Writes-behind f buf' w' {buf} {w} (write_more {t} {v} {u} {c} {cs} e call more) h =
      let step = sym (callback_on apr api max_buffer_size c f buf v h) ∙ call in
      let (kept, rest) = Writes-behind f buf' w' more (sym (ap (λ r. r.1.file) step) ∙ h) in
      let count : (file_write_full f c v).1 ≡ length c = ap (λ r. r.0) step in
      let gone : behind f u ≡ drop (length c) (behind f w) =
        sym (ap (λ r. behind f r.2) step)
        ∙ api.behind-file_write_full f c v
        ∙ ap (λ n. drop n (behind f v)) count
        ∙ ap (drop (length c)) (api.behind-Elsewhere f w v e) in
      (
        kept,
        rest
            ∙ ap (drop (length (concat cs))) gone
            ∙ drop-drop (length (concat cs)) (length c) (behind f w)
            ∙ ap (λ n. drop n (behind f w)) (sym (length-append c (concat cs))),
      )
