-- ===== src/Transfer/Download.antt =====
-- src/file_download.c: the callback that takes what curl receives, into memory or into a file, and
-- the check of timeouts.
pub mod Spilled
pub mod Received
pub mod Get
pub mod Rewound
pub mod Body
pub mod Fetched
pub mod Served
pub mod Reused
use lib_mogilefs.Prelude.{
  ℕ, ◌+◌, ◌*◌, Bool, true, false, Option, none, some, List, [], ◌∷◌, ◌++◌, ◌==◌, ltb, if◌then◌else◌,
  length,
}
use lib_mogilefs.Prelude.CString.{Bytes}
use lib_mogilefs.Apr.{Status, is_success}
use lib_mogilefs.Network.{AprApi}
use lib_mogilefs.Transfer.{TransferApi, WriteCallback}
use lib_mogilefs.Transfer.Upload.{TimeoutTracker, upload_timeout_checker}

-- `mfs_curl_download_timeout_checker`: as for an upload, with the total of the other direction.
unfoldable pub download_timeout_checker : TimeoutTracker → ℕ → ℕ → ℕ → Bool × TimeoutTracker
unfolding upload_timeout_checker
download_timeout_checker tt dltotal ultotal now = upload_timeout_checker tt ultotal dltotal now

-- `mfs_write_buffer`. Of the brigade it has the buckets that the callback added. The flag `fault`
-- says that the program wrote through NULL, behind which nothing is defined.
pub record WriteBuffer (File : Type 0) : Type 0 where
  pub brigade : List Bytes
  pub dont_want_brigade : Bool
  pub current_size : ℕ
  pub file_size : ℕ
  pub file : Option File
  pub destination_file_path : Option Bytes
  pub fault : Bool

-- What stands before the last `/`.
unfoldable pub before_slash : Bytes → Option Bytes
before_slash [] = none
before_slash (c ∷ s) = elim (before_slash s) [
  | some front ↦ some (c ∷ front)
  | none ↦ if c == b'/' then some [] else none
]

-- The parent directory that the search finds; it does not look at the first byte.
unfoldable pub parent_directory : Bytes → Option Bytes
unfolding before_slash
parent_directory [] = none
parent_directory (c ∷ s) = elim (before_slash s) [ none ↦ none | some front ↦ some (c ∷ front) ]

module _ (apr : AprApi) (api : TransferApi apr) (max_buffer_size : ℕ) where
  open apr use {network}
  open network use {World}
  open api use {File, file_write_full, file_mktemp, file_open, dir_make_recursive}

  -- How the file that takes the data was opened: `none` is the write through NULL.
  unfoldable pub open_spill : Option Bytes → World → Option (Status × File) × World
  open_spill none w = let (rv, f, w) = file_mktemp w in (some (rv, f), w)
  open_spill (some path) w = elim (parent_directory path) [
    | none ↦ (none, w)
    | some parent ↦
        let (rv, w) = dir_make_recursive parent w in
        let (rv, f, w) = file_open path w in (some (rv, f), w)
  ]

  -- The loop over the buckets: whether all were written, and what was added to `file_size`.
  unfoldable pub copy_buckets : List Bytes → File → ℕ → World → Bool × ℕ × World
  copy_buckets [] f size w = (true, size, w)
  copy_buckets (b ∷ bs) f size w =
      let (rv, count, w) = file_write_full f b w in
      let (all, total, v) = copy_buckets bs f (size + length b) w in
      if is_success rv then (all, total, v) else (false, size, w)

  -- The last writes of the spill.
  unfoldable pub spill_piece :
      Bytes → File → WriteBuffer File → World → ℕ × WriteBuffer File × World
  spill_piece piece f buf w =
      let (rv, bytes_written, w) = file_write_full f piece w in
      if is_success rv
      then (
        bytes_written,
        record buf {
          file_size = buf.file_size + length piece;
          current_size = buf.current_size + length piece;
        },
        w,
      )
      else (0, buf, w)

  -- With the file just opened: what is in memory goes first, unless the caller takes the brigade.
  unfoldable pub spill_to : Bytes → File → WriteBuffer File → World → ℕ × WriteBuffer File × World
  spill_to piece f buf w =
      let opened = record buf { file = some f } in
      if buf.dont_want_brigade
      then (let (all, size, w) = copy_buckets buf.brigade f buf.file_size w in
          let copied = record opened { file_size = size } in
          if all then spill_piece piece f copied w else (0, copied, w))
      else spill_piece piece f opened w

  unfoldable pub spill : Bytes → WriteBuffer File → World → ℕ × WriteBuffer File × World
  spill piece buf w =
      let (opened, w) = open_spill buf.destination_file_path w in
      elim opened [
        | none ↦ (0, record buf { fault = true }, w)
        | some o ↦ if is_success o.0 then spill_to piece o.1 buf w else (0, buf, w)
      ]

  -- A piece for the file.
  unfoldable pub write_on : Bytes → File → WriteBuffer File → World → ℕ × WriteBuffer File × World
  write_on piece f buf w =
      let (rv, bytes_written, w) = file_write_full f piece w in
      (
        bytes_written,
        record buf {
          file_size = buf.file_size + length piece;
          current_size = buf.current_size + length piece;
        },
        w,
      )

  -- By the file of the buffer, if it has one.
  unfoldable pub take_piece : Option File → WriteCallback World (WriteBuffer File)
  take_piece (some f) piece buf w = write_on piece f buf w
  take_piece none piece buf w =
      if ltb max_buffer_size (length piece + buf.current_size) then spill piece buf w else (
        length piece,
        record buf {
          brigade = buf.brigade ++ piece ∷ [];
          current_size = buf.current_size + length piece;
        },
        w,
      )

  -- `mfs_buffer_get_write_callback`
  unfoldable pub buffer_get_write_callback : WriteCallback World (WriteBuffer File)
  unfolding take_piece
  buffer_get_write_callback piece buf w = take_piece buf.file piece buf w
