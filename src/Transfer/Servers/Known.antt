-- ===== src/Transfer/Servers/Known.antt =====
-- The table of file servers: one server for a host and port, found again later.
use lib_mogilefs.Prelude.{
  ◌≡◌, refl, sym, ◌∙◌, ap, ◌≢◌, ◌⊎◌, inl, inr, false, Option, none, some, Bool-cases, Option-cases,
}
use lib_mogilefs.Prelude.CString.{Bytes, str_eq, str_eq_self, eq_of_str_eq}
use lib_mogilefs.Apr.{Status, is_success}
use lib_mogilefs.Network.{AprApi}
use lib_mogilefs.Transfer.{TransferApi}
use lib_mogilefs.Transfer.Servers.{
  FileServer, Files, Found, exits, no_server, server, world_of, in_world, find_server,
  add_file_server, get_file_server,
}

none_ne_some : {A : Type 0} {a : A} → none ≢ some a
none_ne_some e = cc

module _ (apr : AprApi) (api : TransferApi apr) where
  open apr use {network}
  open network use {World}

  pub Found-cases :
      (f : Found apr api)
      → (f ≡ exits)
        ⊎ ((rv : Status) × (f ≡ no_server rv))
        ⊎ ((fs : FileServer apr api) × (f ≡ server fs))
  Found-cases exits = inl refl
  Found-cases (no_server rv) = inr (inl (rv, refl))
  Found-cases (server fs) = inr (inr (fs, refl))

  -- What a lookup does to the table.
  pub record IsLookup (hostinfo : Bytes) (s s' : Files apr api) (f : Found apr api) : Type 0 where
    -- the trackers stay as they are
    pub pool_kept : s'.trackers.pool ≡ s.trackers.pool
    -- a server that was known stays
    pub known_kept :
        (h : Bytes) (fs : FileServer apr api)
        → find_server apr api s.file_servers h ≡ some fs
        → find_server apr api s'.file_servers h ≡ some fs
    -- a server that is handed out is known from then on
    pub known_after :
        (fs : FileServer apr api)
        → f ≡ server fs
        → find_server apr api s'.file_servers hostinfo ≡ some fs
    -- no other server is added
    pub others_kept :
        (h : Bytes)
        → str_eq hostinfo h ≡ false
        → find_server apr api s'.file_servers h ≡ find_server apr api s.file_servers h

  abbrev server_of : Found apr api → Option (FileServer apr api)
  server_of (server fs) = some fs
  server_of _ = none

  unchanged :
      (hostinfo : Bytes) (s : Files apr api) (w : World)
      → IsLookup hostinfo s (in_world apr api s w) exits
  unchanged hostinfo s w = record {
    pool_kept = refl;
    known_kept = λ h fs e. e;
    known_after = λ fs e. cc;
    others_kept = λ h other. refl;
  }

  found :
      (hostinfo : Bytes) (s : Files apr api) (known : FileServer apr api) (w : World)
      → find_server apr api s.file_servers hostinfo ≡ some known
      → IsLookup hostinfo s (in_world apr api s w) (server known)
  found hostinfo s known w e = record {
    pool_kept = refl;
    known_kept = λ h fs e. e;
    known_after = λ fs same. e ∙ ap server_of same;
    others_kept = λ h other. refl;
  }

  add_file_server-IsLookup :
      (hostinfo : Bytes) (s : Files apr api)
      → find_server apr api s.file_servers hostinfo ≡ none
      → IsLookup hostinfo s
          (add_file_server apr api hostinfo s).1
          (add_file_server apr api hostinfo s).0
  unfolding add_file_server
  add_file_server-IsLookup hostinfo s missing =
      elim (Bool-cases (is_success (api.reslist_create (world_of apr api s)).0)) [
        | inl good ↦
            rw (missing, add_file_server, good)
              (record {
                pool_kept = refl;
                known_kept = λ h fs e. elim (Bool-cases (str_eq hostinfo h)) [
                  | inl same ↦ absurd (unknown h fs (sym (eq_of_str_eq hostinfo h same)) e)
                  | inr other ↦ rw other e
                ];
                known_after = λ fs e. rw (str_eq_self hostinfo) (ap server_of e);
                others_kept = λ h other. rw other refl;
              })
        | inr bad ↦
            rw (missing, add_file_server, bad)
              (record {
                pool_kept = refl;
                known_kept = λ h fs e. e;
                known_after = λ fs e. cc;
                others_kept = λ h other. refl;
              })
      ]
    where
      unknown :
          (h : Bytes) (fs : FileServer apr api)
          → h ≡ hostinfo
          → find_server apr api s.file_servers h ≢ some fs
      unknown h fs same e =
          none_ne_some (sym missing ∙ sym (ap (find_server apr api s.file_servers) same) ∙ e)

  -- Whatever the locks and the creation of a list of connections return, getting the server of a
  -- host and port leaves the pool of trackers and the servers that are known as they are, adds none
  -- but under that name, and finds the server that it hands out under that name again.
  pub get_file_server-IsLookup :
      (hostinfo : Bytes) (s : Files apr api)
      → IsLookup hostinfo s
          (get_file_server apr api hostinfo s).1
          (get_file_server apr api hostinfo s).0
  unfolding get_file_server
  get_file_server-IsLookup hostinfo s =
      elim (Bool-cases (is_success (network.rdlock (world_of apr api s)).0)) [
        | inr bad ↦ rw bad (unchanged hostinfo s _)
        | inl read ↦ elim (Option-cases (find_server apr api s.file_servers hostinfo)) [
          | inr (fs, known) ↦ rw (read, known, get_file_server) (found hostinfo s fs _ known)
          | inl missing ↦
              elim (Bool-cases
                (is_success (network.wrlock (network.rdlock (world_of apr api s)).1).0)) [
                  | inr bad ↦ rw (read, missing, get_file_server, bad) (unchanged hostinfo s _)
                  | inl write ↦
                      rw (read, missing, get_file_server, write)
                        (let l =
                            add_file_server-IsLookup hostinfo
                              (in_world apr api s
                                (network.wrlock (network.rdlock (world_of apr api s)).1).1)
                              missing in
                          record {
                            pool_kept = l.pool_kept;
                            known_kept = l.known_kept;
                            known_after = l.known_after;
                            others_kept = l.others_kept;
                          })
                ]
        ]
      ]
