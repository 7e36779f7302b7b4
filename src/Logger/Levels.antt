-- ===== src/Logger/Levels.antt =====
-- What the logger keeps, and the level and the facility that a call sets.
use lib_mogilefs.Prelude.{
  ℕ, ◌≡◌, refl, ◌∙◌, inl, inr, Bool, true, false, Bool-cases, Option, none, some, Option-cases,
  ◌++◌, leb, if◌then◌else◌,
}
use lib_mogilefs.Prelude.CString.{Bytes, codes}
use lib_mogilefs.Apr.{Status, is_success}
use lib_mogilefs.Network.{AprApi}
use lib_mogilefs.Logger.{
  LogApi, Logger, find_name, named, emit, log, log_apr, no_level, level_of, facility_of,
  opened_log_file, set_log_file, logging_init, logging_init_ex,
}

module _ (apr : AprApi) (api : LogApi apr) where
  open apr use {network}
  open network use {World, pool_create}
  open api use {prioritynames, facilitynames, log_err, log_warning, log_user, File, file_open}

  log-kept :
      (level : ℕ) (text : Bytes) (s : Logger apr api)
      → ((log apr api level text s).level ≡ s.level)
        × ((log apr api level text s).facility ≡ s.facility)
  unfolding log emit
  log-kept level text s = elim (Bool-cases (leb level s.level)) [
    | inl e ↦ elim (Option-cases s.log_file) [
      | inl none_open ↦ rw (e, none_open) (refl, refl)
      | inr (f, open_file) ↦ rw (e, open_file) (refl, refl)
    ]
    | inr e ↦ rw e (refl, refl)
  ]

  log_apr-kept :
      (level : ℕ) (error : Status) (text : Bytes) (s : Logger apr api)
      → ((log_apr apr api level error text s).level ≡ s.level)
        × ((log_apr apr api level error text s).facility ≡ s.facility)
  unfolding log_apr emit
  log_apr-kept level error text s = elim (Bool-cases (leb level s.level)) [
    | inl e ↦ elim (Option-cases s.log_file) [
      | inl none_open ↦ rw (e, none_open) (refl, refl)
      | inr (f, open_file) ↦ rw (e, open_file) (refl, refl)
    ]
    | inr e ↦ rw e (refl, refl)
  ]

  level_of-named :
      (name : Bytes) (s : Logger apr api)
      → ((level_of apr api name s).0 ≡ named name prioritynames log_warning)
        × ((level_of apr api name s).1.facility ≡ s.facility)
  unfolding level_of
  level_of-named name s = elim (Option-cases (find_name name prioritynames)) [
    | inl e ↦ rw (e, level_of, named) (refl, (log-kept log_err (no_level apr api name) s).1)
    | inr (n, e) ↦ rw (e, level_of, named) (refl, refl)
  ]

  facility_of-named :
      (name : Bytes) (s : Logger apr api)
      → (facility_of apr api name s).0 ≡ named name facilitynames log_user
  unfolding facility_of
  facility_of-named name s = elim (Option-cases (find_name name facilitynames)) [
    | inl e ↦ rw (e, facility_of, named) refl
    | inr (n, e) ↦ rw (e, facility_of, named) refl
  ]

  opened_log_file-kept :
      (path : Bytes) (r : Status × Option File × World) (s : Logger apr api)
      → ((opened_log_file apr api path r s).level ≡ s.level)
        × ((opened_log_file apr api path r s).facility ≡ s.facility)
  unfolding opened_log_file
  opened_log_file-kept path (rv, opened, w) s =
      let t : Logger apr api = record s {
        log_file = elim opened [ none ↦ s.log_file | some f ↦ some f ];
        world = w;
      } in
      elim (Bool-cases (is_success rv)) [
        | inl e ↦ rw (e, opened_log_file) (refl, refl)
        | inr e ↦
            rw (e, opened_log_file)
              (log_apr-kept log_err rv (codes "unable to open log file " ++ path ++ codes ":") t)
      ]

  set_log_file-kept :
      (path : Bytes) (file : Option File) (s : Logger apr api)
      → ((set_log_file apr api path file s).level ≡ s.level)
        × ((set_log_file apr api path file s).facility ≡ s.facility)
  unfolding set_log_file
  set_log_file-kept path file s =
      let t : Logger apr api = record s { world = (pool_create s.world).1 } in
      elim (Bool-cases (is_success (pool_create s.world).0)) [
        | inr e ↦ rw (e, set_log_file) (log-kept log_err (codes "UNABLE TO CREATE APR POOL") t)
        | inl e ↦ elim (Option-cases file) [
          | inr (f, given) ↦ rw (e, set_log_file, given) (refl, refl)
          | inl not_given ↦
              rw (e, set_log_file, not_given)
                (opened_log_file-kept path (file_open path (pool_create s.world).1) t)
        ]
      ]

  -- Whatever fails, after the call the level is the one of the name, or LOG_WARNING; the facility
  -- is the one of the identifier, or LOG_USER, with syslog, and the one from before with a file.
  pub logging_init_ex-named :
      (to_syslog : Bool) (level identifier : Bytes) (file : Option File) (s : Logger apr api)
      → ((logging_init_ex apr api to_syslog level identifier file s).level
          ≡ named level prioritynames log_warning)
        × ((logging_init_ex apr api to_syslog level identifier file s).facility
            ≡ (if to_syslog then named identifier facilitynames log_user else s.facility))
  unfolding logging_init_ex logging_init
  logging_init_ex-named true level identifier file s =
      ((level_of-named level s).0, facility_of-named identifier (level_of apr api level s).1)
  logging_init_ex-named false level identifier file s = (
    (set_log_file-kept identifier file _).0 ∙ (level_of-named level s).0,
    (set_log_file-kept identifier file _).1 ∙ (level_of-named level s).1,
  )
