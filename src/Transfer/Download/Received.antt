-- ===== src/Transfer/Download/Received.antt =====
-- Wherever the data goes, into memory, into a file, or first into the one and then into the other,
-- it is the data that was received.
use lib_mogilefs.Prelude.{
  ℕ, ◌+◌, ◌≡◌, refl, sym, ◌∙◌, ap, inl, inr, true, false, none, some, List, [], ◌∷◌, ◌++◌,
  append_assoc, append-nil, arith, ltb, length, Bool-cases, Option-cases, length-append,
}
use lib_mogilefs.Prelude.CString.{Bytes}
use lib_mogilefs.Network.{AprApi}
use lib_mogilefs.Transfer.{TransferApi, concat, Writes, written_all, write_more}
use lib_mogilefs.Transfer.Download.{
  WriteBuffer, spill, write_on, take_piece, buffer_get_write_callback,
}
use lib_mogilefs.Transfer.Download.Spilled.{
  concat-append, received, IsBounded, IsTaken, write_on-IsTaken, spill-IsTaken,
}

module _ (apr : AprApi) (api : TransferApi apr) (max_buffer_size : ℕ) where
  open apr use {network}
  open network use {World}
  open api use {File, file_write_full, written}

  pub callback_on :
      (piece : Bytes) (f : File) (buf : WriteBuffer File) (w : World)
      → buf.file ≡ some f
      → buffer_get_write_callback apr api max_buffer_size piece buf w
        ≡ write_on apr api max_buffer_size piece f buf w
  unfolding buffer_get_write_callback take_piece
  callback_on piece f buf w e = ap (λ o. take_piece apr api max_buffer_size o piece buf w) e

  pub callback_spills :
      (piece : Bytes) (buf : WriteBuffer File) (w : World)
      → buf.file ≡ none
      → ltb max_buffer_size (length piece + buf.current_size) ≡ true
      → buffer_get_write_callback apr api max_buffer_size piece buf w
        ≡ spill apr api max_buffer_size piece buf w
  unfolding buffer_get_write_callback take_piece
  callback_spills piece buf w e over =
      ap (λ o. take_piece apr api max_buffer_size o piece buf w) e ∙ rw over refl

  pub callback_keeps :
      (piece : Bytes) (buf : WriteBuffer File) (w : World)
      → buf.file ≡ none
      → ltb max_buffer_size (length piece + buf.current_size) ≡ false
      → buffer_get_write_callback apr api max_buffer_size piece buf w ≡ (
        length piece,
        record buf {
          brigade = buf.brigade ++ piece ∷ [];
          current_size = buf.current_size + length piece;
        },
        w,
      )
  unfolding buffer_get_write_callback take_piece
  callback_keeps piece buf w e fits =
      ap (λ o. take_piece apr api max_buffer_size o piece buf w) e ∙ rw fits refl

  memory-IsTaken :
      (piece : Bytes) (buf : WriteBuffer File) (w : World)
      → buf.file ≡ none
      → ltb max_buffer_size (length piece + buf.current_size) ≡ false
      → IsTaken apr api max_buffer_size piece buf w (
        length piece,
        record buf {
          brigade = buf.brigade ++ piece ∷ [];
          current_size = buf.current_size + length piece;
        },
        w,
      )
  memory-IsTaken piece buf w e fits = record {
    data_grows = rw e (concat-append buf.brigade piece);
    size_grows = refl;
    bounded = λ missing. ground arith;
    mode = refl;
  }

  -- A piece that the callback takes whole, so that curl goes on, is added to the data, whether it
  -- goes into memory, into a file, or first makes the data in memory move to a file; and the size
  -- grows by its length.
  pub buffer_get_write_callback-IsTaken :
      (piece : Bytes) (buf : WriteBuffer File) (w : World)
      → IsBounded apr api max_buffer_size buf
      → (buffer_get_write_callback apr api max_buffer_size piece buf w).0 ≡ length piece
      → IsTaken apr api max_buffer_size piece buf w
          (buffer_get_write_callback apr api max_buffer_size piece buf w)
  buffer_get_write_callback-IsTaken piece buf w bounded = elim (Option-cases buf.file) [
    | inr (f, e) ↦
        rw (callback_on piece f buf w e) (write_on-IsTaken apr api max_buffer_size piece f buf w e)
    | inl e ↦ elim (Bool-cases (ltb max_buffer_size (length piece + buf.current_size))) [
      | inl over ↦
          let small = bounded e in
          rw (callback_spills piece buf w e over)
            (spill-IsTaken apr api max_buffer_size piece buf w (ground arith) e)
      | inr fits ↦
          rw (callback_keeps piece buf w e fits) (λ taken. memory-IsTaken piece buf w e fits)
    ]
  ]

  -- What the rest of the world does leaves the data as it is.
  pub received-Elsewhere :
      (buf : WriteBuffer File) (w v : World)
      → api.Elsewhere w v
      → received apr api max_buffer_size buf v ≡ received apr api max_buffer_size buf w
  received-Elsewhere buf w v e = elim (Option-cases buf.file) [
    | inl m ↦ rw m refl
    | inr (f, m) ↦ rw (m, api.written-Elsewhere f w v e) refl
  ]

  -- After all that curl has passed to the callback.
  pub record HasAll (pieces : List Bytes) (buf : WriteBuffer File) (w : World)
      (buf' : WriteBuffer File) (w' : World) : Type 0 where
    pub data_all :
        received apr api max_buffer_size buf' w'
        ≡ received apr api max_buffer_size buf w ++ concat pieces
    pub size_all : buf'.current_size ≡ buf.current_size + length (concat pieces)
    pub bounded : IsBounded apr api max_buffer_size buf'
    pub mode : buf'.dont_want_brigade ≡ buf.dont_want_brigade

  pub Writes-HasAll :
      (buf' : WriteBuffer File) (w' : World) {buf : WriteBuffer File} {w : World}
      {pieces : List Bytes}
      → Writes api.Elsewhere
          (buffer_get_write_callback apr api max_buffer_size)
          buf'
          w'
          buf
          w
          pieces
      → IsBounded apr api max_buffer_size buf
      → HasAll pieces buf w buf' w'
  Writes-HasAll buf' w' {w} (written_all e) h = record {
    data_all =
        received-Elsewhere buf' w w' e ∙ sym (append-nil (received apr api max_buffer_size buf' w));
    size_all = omega arith;
    bounded = h;
    mode = refl;
  }
  Writes-HasAll buf' w' {buf} {w} (write_more {t} {v} {u} {c} {cs} e call more) h =
      let taken = rw call at (buffer_get_write_callback-IsTaken c buf v h) refl in
      let rest = Writes-HasAll buf' w' more taken.bounded in
      record {
        data_all =
            rest.data_all
            ∙ ap (λ x. x ++ concat cs)
                (taken.data_grows ∙ ap (λ x. x ++ c) (received-Elsewhere buf w v e))
            ∙ append_assoc (received apr api max_buffer_size buf w) c (concat cs);
        size_all = omega (arith, rest.size_all, taken.size_grows, length-append c (concat cs));
        bounded = rest.bounded;
        mode = rest.mode ∙ taken.mode;
      }
