-- ===== src/File/Numbers.antt =====
-- src/file.c: `mfs_stats_filepath` and `mfs_checkfs_filepath`, the two calls that read numbers.
use lib_mogilefs.Prelude.{Bool, true, Option, none, some, [], ◌∷◌, if◌then◌else◌}
use lib_mogilefs.Prelude.CString.{Bytes, codes}
use lib_mogilefs.Apr.{Status, ℤ, pos, negsuc, is_success}
use lib_mogilefs.Network.{AprApi}
use lib_mogilefs.Response.{Reply}
use lib_mogilefs.Pool.{State}
use lib_mogilefs.File.{parameters_of, call, status_of}

module _ (apr : AprApi) where
  open apr use {numbers, hash, network}
  open hash use {Hash, hash_get}

  -- A number of the reply, or what stands for a missing one.
  unfoldable pub number_or : Hash → Bytes → ℤ → ℤ
  number_or result key missing = elim (hash_get result key) [
    | none ↦ missing
    | some tmp ↦ numbers.atoi64 tmp
  ]

  -- The two numbers that a call reads, even from an error; nothing is written if the request fails.
  unfoldable pub numbers_of : Bytes → Bytes → ℤ → Reply Hash → Status × Option (ℤ × ℤ)
  unfolding status_of number_or
  numbers_of one two missing reply =
      if is_success reply.status
      then (
        status_of apr none true reply,
        some (number_or reply.result one missing, number_or reply.result two missing),
      )
      else (reply.status, none)

  -- `mfs_stats_filepath`: `total_mb` and `used_mb`
  unfoldable pub stats_filepath :
      Option Bytes → Bool → Bytes → State network → (Status × Option (ℤ × ℤ)) × State network
  unfolding call numbers_of
  stats_filepath client_id stray_ok domain s =
      let (reply, s) =
        call apr client_id stray_ok (codes "plugin_filepaths_stats")
          (parameters_of client_id ((codes "domain", domain) ∷ (codes "argcount", codes "0") ∷ []))
          s in
      (numbers_of (codes "mb_total") (codes "mb_used") (pos 0) reply, s)

  -- `mfs_checkfs_filepath`: `fixed` and `total`
  unfoldable pub checkfs_filepath :
      Option Bytes → Bool → Bytes → Bool → State network → (Status × Option (ℤ × ℤ)) × State network
  unfolding call numbers_of
  checkfs_filepath client_id stray_ok domain get_total s =
      let (reply, s) =
        call apr client_id stray_ok (codes "plugin_filepaths_check_fs")
          (parameters_of client_id (
            (codes "domain", domain)
            ∷ (codes "argcount", codes "1")
            ∷ (codes "arg1", if get_total then codes "1" else codes "0")
            ∷ []))
          s in
      (numbers_of (codes "fixed") (codes "total") (negsuc 0) reply, s)
