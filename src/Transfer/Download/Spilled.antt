-- ===== src/Transfer/Download/Spilled.antt =====
-- The data of a buffer that moves to a file, or is in one already.
use lib_mogilefs.Prelude.{
  ℕ, ◌+◌, ◌≤◌, ◌<◌, ◌≡◌, refl, sym, ◌∙◌, ap, ◌≢◌, inl, inr, true, Option, none, some, List, [], ◌∷◌,
  ◌++◌, append_assoc, append-nil, arith, if◌then◌else◌, length, Bool-cases, Option-cases,
}
use lib_mogilefs.Prelude.CString.{Bytes}
use lib_mogilefs.Apr.{Status, is_success}
use lib_mogilefs.Network.{AprApi}
use lib_mogilefs.Transfer.{TransferApi, concat}
use lib_mogilefs.Transfer.Download.{
  WriteBuffer, open_spill, parent_directory, copy_buckets, spill_piece, spill_to, spill, write_on,
}

pub concat-append : (bs : List Bytes) (b : Bytes) → concat (bs ++ b ∷ []) ≡ concat bs ++ b
concat-append [] b = append-nil b
concat-append (c ∷ bs) b = ap (◌++◌ c) (concat-append bs b) ∙ sym (append_assoc c (concat bs) b)

pub none_ne_some : {A : Type 0} {a : A} → none ≢ some a
none_ne_some e = cc

module _ (apr : AprApi) (api : TransferApi apr) (max_buffer_size : ℕ) where
  open apr use {network}
  open network use {World}
  open api use {File, file_write_full, written}

  -- The data that a buffer stands for.
  abbrev pub received : WriteBuffer File → World → Bytes
  received buf w = elim buf.file [
    | none ↦ concat buf.brigade
    | some f ↦ if buf.dont_want_brigade then written f w else concat buf.brigade ++ written f w
  ]

  abbrev pub IsBounded : WriteBuffer File → Type 0
  IsBounded buf = buf.file ≡ none → buf.current_size ≤ max_buffer_size

  copy_buckets-written :
      (bs : List Bytes) (f : File) (size : ℕ) (w : World)
      → (copy_buckets apr api max_buffer_size bs f size w).0 ≡ true
      → written f (copy_buckets apr api max_buffer_size bs f size w).2 ≡ written f w ++ concat bs
  unfolding copy_buckets
  copy_buckets-written [] f size w = λ e. sym (append-nil (written f w))
  copy_buckets-written (b ∷ bs) f size w =
      elim (Bool-cases (is_success (file_write_full f b w).0)) [
        | inr bad ↦ rw bad (λ e. cc)
        | inl good ↦ rw good (λ e.
            copy_buckets-written bs f (size + length b) (file_write_full f b w).2 e
            ∙ ap (λ x. x ++ concat bs)
                (api.written-file_write_full f b w (api.count-file_write_full f b w good))
            ∙ append_assoc (written f w) b (concat bs))
      ]

  -- What a callback does that takes a piece whole.
  pub record IsTaken (piece : Bytes) (buf : WriteBuffer File) (w : World)
      (after : ℕ × WriteBuffer File × World) : Type 0 where
    pub data_grows : received after.1 after.2 ≡ received buf w ++ piece
    pub size_grows : after.1.current_size ≡ buf.current_size + length piece
    pub bounded : IsBounded after.1
    pub mode : after.1.dont_want_brigade ≡ buf.dont_want_brigade

  pub write_on-IsTaken :
      (piece : Bytes) (f : File) (buf : WriteBuffer File) (w : World)
      → buf.file ≡ some f
      → (write_on apr api max_buffer_size piece f buf w).0 ≡ length piece
      → IsTaken piece buf w (write_on apr api max_buffer_size piece f buf w)
  unfolding write_on
  write_on-IsTaken piece f buf w here e = record {
    data_grows = rw here (elim (Bool-cases buf.dont_want_brigade) [
      | inl mode ↦ rw mode (api.written-file_write_full f piece w e)
      | inr mode ↦ rw mode (
          ap (◌++◌ (concat buf.brigade)) (api.written-file_write_full f piece w e)
          ∙ sym (append_assoc (concat buf.brigade) (written f w) piece))
    ]);
    size_grows = refl;
    bounded = λ missing. absurd (none_ne_some (sym missing ∙ here));
    mode = refl;
  }

  -- The last write of a spill, of a piece that is not empty.
  spill_piece-IsTaken :
      (piece : Bytes) (f : File) (before buf : WriteBuffer File) (w v : World)
      → 0 < length piece
      → buf.file ≡ some f
      → received buf v ≡ received before w
      → buf.current_size ≡ before.current_size
      → buf.dont_want_brigade ≡ before.dont_want_brigade
      → (spill_piece apr api max_buffer_size piece f buf v).0 ≡ length piece
      → IsTaken piece before w (spill_piece apr api max_buffer_size piece f buf v)
  unfolding spill_piece write_on
  spill_piece-IsTaken piece f before buf w v lt here same size mode =
      elim (Bool-cases (is_success (file_write_full f piece v).0)) [
        | inr bad ↦ rw bad (λ e. absurd (omega arith))
        | inl good ↦ rw good (λ e.
            let on = write_on-IsTaken piece f buf v here e in
            record {
              data_grows = on.data_grows ∙ ap (λ x. x ++ piece) same;
              size_grows = on.size_grows ∙ ap (λ n. n + length piece) size;
              bounded = on.bounded;
              mode = on.mode ∙ mode;
            })
      ]

  spill_to-IsTaken :
      (piece : Bytes) (f : File) (buf : WriteBuffer File) (w v : World)
      → 0 < length piece
      → buf.file ≡ none
      → written f v ≡ []
      → (spill_to apr api max_buffer_size piece f buf v).0 ≡ length piece
      → IsTaken piece buf w (spill_to apr api max_buffer_size piece f buf v)
  unfolding spill_to
  spill_to-IsTaken piece f buf w v lt memory fresh = elim (Bool-cases buf.dont_want_brigade) [
    | inl mode ↦
        rw mode
          (elim (Bool-cases
            (copy_buckets apr api max_buffer_size buf.brigade f buf.file_size v).0) [
              | inl all ↦ rw all (
                  spill_piece-IsTaken piece f _ _ w _ lt refl
                    (rw memory (
                      copy_buckets-written buf.brigade f buf.file_size v all
                      ∙ ap (λ x. x ++ concat buf.brigade) fresh))
                    refl refl)
              | inr part ↦ rw part (λ e. absurd (omega arith))
            ])
    | inr mode ↦ rw mode (
        spill_piece-IsTaken piece f _ _ w v lt refl
          (rw memory (ap (◌++◌ (concat buf.brigade)) fresh ∙ append-nil (concat buf.brigade))) refl
          refl)
  ]

  open_spill-fresh :
      (path : Option Bytes) (w : World) (rv : Status) (f : File)
      → (open_spill apr api max_buffer_size path w).0 ≡ some (rv, f)
      → is_success rv ≡ true
      → written f (open_spill apr api max_buffer_size path w).1 ≡ []
  unfolding open_spill
  open_spill-fresh none w rv f = λ e good.
      rw (ap (λ o. (opened o).1) e) at
        (api.written-file_mktemp w (ap (λ o. is_success (opened o).0) e ∙ good))
    where
      opened : Option (Status × File) → Status × File
      opened none = (rv, f)
      opened (some o) = o
  open_spill-fresh (some path) w rv f = elim (Option-cases (parent_directory path)) [
    | inl e ↦ rw (e, open_spill) (λ g. cc)
    | inr (parent, e) ↦
        rw (e, open_spill)
          (λ g good.
            let v = (api.dir_make_recursive parent w).1 in
            rw (ap (λ o. (opened o).1) g) at
              (api.written-file_open path v (ap (λ o. is_success (opened o).0) g ∙ good)))
  ]
    where
      opened : Option (Status × File) → Status × File
      opened none = (rv, f)
      opened (some o) = o

  pub spill-IsTaken :
      (piece : Bytes) (buf : WriteBuffer File) (w : World)
      → 0 < length piece
      → buf.file ≡ none
      → (spill apr api max_buffer_size piece buf w).0 ≡ length piece
      → IsTaken piece buf w (spill apr api max_buffer_size piece buf w)
  unfolding spill
  spill-IsTaken piece buf w lt memory =
      elim (Option-cases (open_spill apr api max_buffer_size buf.destination_file_path w).0) [
        | inl e ↦ rw (e, spill) (λ f. absurd (omega arith))
        | inr ((rv, f), e) ↦
            rw (e, spill)
              (elim (Bool-cases (is_success rv)) [
                | inr bad ↦ rw bad (λ g. absurd (omega arith))
                | inl good ↦ rw good (
                    spill_to-IsTaken piece f buf w _ lt memory
                      (open_spill-fresh buf.destination_file_path w rv f e good))
              ])
      ]
