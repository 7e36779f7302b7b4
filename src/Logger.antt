-- ===== src/Logger.antt =====
-- src/logger.c: what is logged, and where.
pub mod Levels
use lib_mogilefs.Prelude.{
  ℕ, ◌≡◌, Bool, true, false, Option, none, some, List, [], ◌∷◌, ◌++◌, leb, if◌then◌else◌, take,
}
use lib_mogilefs.Prelude.CString.{Bytes, codes, str_eq}
use lib_mogilefs.Apr.{Status, is_success}
use lib_mogilefs.Network.{AprApi}

-- What the logger uses of <syslog.h>, of the clock and of APR's files. The tables of names are
-- those of <syslog.h>, whose numbers are not negative.
pub record LogApi (apr : AprApi) : Type 1 where
  pub prioritynames : List (Bytes × ℕ)
  pub facilitynames : List (Bytes × ℕ)
  pub log_err : ℕ
  pub log_warning : ℕ
  pub log_info : ℕ
  pub log_user : ℕ
  -- `LOG_MAKEPRI`, `openlog` with the facility, and `syslog`
  pub makepri : ℕ → ℕ → ℕ
  pub openlog : Bytes → ℕ → apr.network.World → apr.network.World
  pub syslog : ℕ → Bytes → apr.network.World → apr.network.World
  -- The local time as `%F %H:%M:%S`.
  pub time_string : apr.network.World → Bytes × apr.network.World
  -- `apr_strerror` into 255 bytes
  pub strerror : Status → Bytes
  -- `apr_file_open` for writing, with what it sets the handle to, if it does; `apr_file_printf`
  pub File : Type 0
  pub file_open : Bytes → apr.network.World → Status × Option File × apr.network.World
  pub file_printf : File → Bytes → apr.network.World → apr.network.World

-- The loop over a table of names, up to its end.
abbrev pub find_name : Bytes → List (Bytes × ℕ) → Option ℕ
find_name name [] = none
find_name name (entry ∷ rest) = if str_eq name entry.0 then some entry.1 else find_name name rest

-- The number of a name in a table, or the default.
abbrev pub named : Bytes → List (Bytes × ℕ) → ℕ → ℕ
named name names default = elim (find_name name names) [ none ↦ default | some n ↦ n ]

module _ (apr : AprApi) (api : LogApi apr) where
  open apr use {network}
  open network use {World, pool_create}
  open api use {
    prioritynames, facilitynames, log_err, log_warning, log_info, log_user, makepri, openlog,
    syslog, time_string, strerror, File, file_open, file_printf,
  }

  -- `mfs_logging_level`, `mfs_logging_facility` and `mfs_log_file_h`, with the world
  pub record Logger : Type 0 where
    pub level : ℕ
    pub facility : ℕ
    pub log_file : Option File
    pub world : World

  -- `will_log`
  unfoldable pub will_log : ℕ → Logger → Bool
  will_log level s = leb level s.level

  -- The text, cut by `vsnprintf` to 254 bytes with the NUL, goes to the log file or to syslog.
  abbrev cut : Bytes → Bytes
  cut = take 253

  unfoldable pub emit : Bytes → Bytes → Logger → Logger
  emit text err s = elim s.log_file [
    | some f ↦
        let (stime, w) = time_string s.world in
        record s {
          world =
              file_printf f (codes "[mfs] " ++ stime ++ codes ": " ++ text ++ err ++ codes "\n") w;
        }
    | none ↦ record s { world = syslog (makepri s.facility log_info) (text ++ err) s.world }
  ]

  -- `mfs_log` and `mfs_log_apr` of a text that has been formatted
  unfoldable pub log : ℕ → Bytes → Logger → Logger
  unfolding emit
  log level text s = if leb level s.level then emit (cut text) [] s else s

  unfoldable pub log_apr : ℕ → Status → Bytes → Logger → Logger
  unfolding emit
  log_apr level error text s = if leb level s.level then emit (cut text) (strerror error) s else s

  -- `mfs_logging_init` and `mfs_logging_set_file_ptr`
  unfoldable pub logging_init : ℕ → ℕ → Logger → Logger
  logging_init level facility s = record s {
    level = level;
    facility = facility;
    world = openlog (codes "mogile_fs_fuse") facility s.world;
  }

  unfoldable pub logging_set_file_ptr : Option File → Logger → Logger
  logging_set_file_ptr file s = record s { log_file = file }

  abbrev pub no_level : Bytes → Bytes
  no_level name = codes "Unable to find syslog_level '" ++ name ++ codes "'"

  -- A name is looked up; one that is not found is logged, and the default is taken.
  unfoldable pub level_of : Bytes → Logger → ℕ × Logger
  unfolding log
  level_of name s = elim (find_name name prioritynames) [
    | some n ↦ (n, s)
    | none ↦ (log_warning, log log_err (no_level name) s)
  ]

  unfoldable pub facility_of : Bytes → Logger → ℕ × Logger
  unfolding log
  facility_of name s = elim (find_name name facilitynames) [
    | some n ↦ (n, s)
    | none ↦
        (log_user, log log_err (codes "Unable to find syslog_facility '" ++ name ++ codes "'") s)
  ]

  -- The end of the opening of a log file.
  unfoldable pub opened_log_file : Bytes → Status × Option File × World → Logger → Logger
  unfolding log_apr
  opened_log_file path (rv, opened, w) s =
      let s : Logger = record s {
        log_file = elim opened [ none ↦ s.log_file | some f ↦ some f ];
        world = w;
      } in
      if is_success rv
      then s
      else log_apr log_err rv (codes "unable to open log file " ++ path ++ codes ":") s

  -- The part of `mfs_logging_init_ex` that sets the log file.
  unfoldable pub set_log_file : Bytes → Option File → Logger → Logger
  unfolding log opened_log_file
  set_log_file path file s =
      let (rv, w) = pool_create s.world in
      let s : Logger = record s { world = w } in
      if is_success rv
      then elim file [
        | some f ↦ record s { log_file = some f }
        | none ↦ opened_log_file path (file_open path s.world) s
      ]
      else log log_err (codes "UNABLE TO CREATE APR POOL") s

  -- `mfs_logging_init_ex`
  unfoldable pub logging_init_ex : Bool → Bytes → Bytes → Option File → Logger → Logger
  unfolding level_of facility_of logging_init set_log_file
  logging_init_ex to_syslog level identifier file s =
      let (log_level, s) = level_of level s in
      if to_syslog
      then (let (log_facility, s) = facility_of identifier s in
          logging_init log_level log_facility s)
      else set_log_file identifier file (record s { level = log_level })
