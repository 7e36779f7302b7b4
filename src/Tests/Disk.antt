-- ===== src/Tests/Disk.antt =====
-- A platform with one tracker connection, one file, and file servers that hold what is put to them.
use lib_mogilefs.Prelude.{
  ℕ, zero, suc, ◌+◌, ◌≡◌, refl, ap, Bool, true, false, ◌&&◌, none, some, List, [], ◌∷◌, ◌++◌, arith,
  ◌==◌, eq_of_==, if◌then◌else◌, length, take, drop, Bool-cases, Option-cases, inl, inr,
}
use lib_mogilefs.Prelude.CString.{Bytes, codes, str_eq_self}
use lib_mogilefs.Apr.{success, eof, econnrefused, ℤ, pos, negsuc}
use lib_mogilefs.Network.{NetworkApi, AprApi}
use lib_mogilefs.Transfer.{
  TransferApi, concat, ReadCallback, WriteCallback, Reads, read_all, read_more, Writes, written_all,
  write_more,
}
use lib_mogilefs.Tests.Platform.{
  assoc, digits, list_hash, decimal_format, small_numbers, filled_memory, cutting, recv_piece,
  recv-le_lem, recv_spends_lem,
}

-- What trackers will send, the file before and behind its position, and what the file servers hold.
pub record Disk : Type 0 where
  pub replies : List Bytes
  pub contents : Bytes
  pub ahead : Bytes
  pub held : List (Bytes × Bytes)

abbrev pub disk_network : NetworkApi
disk_network = record {
  World = Disk;
  Socket = ℕ;
  Sockaddr = ℕ;
  sockaddr_info_get = λ address port w. (success, port, w);
  socket_create = λ w. (success, 3, w);
  socket_connect = λ s sa w. (if sa == 0 then econnrefused else success, w);
  socket_send = λ s request w. (success, w);
  socket_recv = λ s n w. (
    (recv_piece s n w.replies).0,
    (recv_piece s n w.replies).1,
    record w { replies = (recv_piece s n w.replies).2 },
  );
  socket_close = λ s w. w;
  traffic = λ w. length w.replies;
  recv-le = λ s n w. recv-le_lem s n w.replies;
  recv_spends = λ s n w. recv_spends_lem s n w.replies;
  rdlock = λ w. (success, w);
  wrlock = λ w. (success, w);
  mutex_lock = λ w. (success, w);
  pool_create = λ w. (success, w);
  mutex_create = λ w. (success, w);
  rwlock_create = λ w. (success, w);
  time_now = λ w. (100000000, w);
  rand_index = λ n w. (0, w);
  rand_index-lt = λ n w h. h;
}

abbrev pub disk_platform : AprApi
disk_platform = record {
  format = decimal_format;
  numbers = small_numbers;
  memory = filled_memory;
  hash = list_hash;
  tokens = cutting;
  network = disk_network;
}

-- The world changes without a write to the file.
abbrev Quiet : Disk → Disk → Type 0
Quiet w v = (v.contents ≡ w.contents) × (v.ahead ≡ w.ahead)

-- Some calls of a read callback, for four bytes each, until one gives none.
abbrev pull : {S : Type 0} → ℕ → ReadCallback Disk S → S → Disk → Bool × List Bytes × S × Disk
pull zero cb s w = (true, [], s, w)
pull (suc left) cb s w = elim (cb 4 s w).0 [
  | none ↦ (false, [], (cb 4 s w).1, (cb 4 s w).2)
  | some c ↦ let (fine, cs, t, v) = pull left cb (cb 4 s w).1 (cb 4 s w).2 in (fine, c ∷ cs, t, v)
]

triple : {A B C : Type 0} (r : A × B × C) (a : A) → r.0 ≡ a → r ≡ (a, r.1, r.2)
triple (x, y, z) a e = rw e refl

pub pull-Reads :
    {S : Type 0} (left : ℕ) (cb : ReadCallback Disk S) (s : S) (w end : Disk)
    → (pull left cb s w).0 ≡ true
    → Quiet (pull left cb s w).3 end
    → Reads Quiet cb (pull left cb s w).2 end s w (pull left cb s w).1
pull-Reads zero cb s w end = λ e quiet. read_all quiet
pull-Reads (suc left) cb s w end = elim (Option-cases (cb 4 s w).0) [
  | inl e ↦ rw (e, pull) (λ f. cc)
  | inr (c, e) ↦
      rw (e, pull)
        (λ f quiet.
          read_more (refl, refl) (triple (cb 4 s w) (some c) e)
            (pull-Reads left cb (cb 4 s w).1 (cb 4 s w).2 end f quiet))
]

-- The calls of a write callback on some pieces, as long as they are taken whole.
abbrev feed : {S : Type 0} → List Bytes → WriteCallback Disk S → S → Disk → Bool × S × Disk
feed [] cb s w = (true, s, w)
feed (c ∷ cs) cb s w =
    let rest = feed cs cb (cb c s w).1 (cb c s w).2 in
    if (cb c s w).0 == length c then rest else (false, (cb c s w).1, (cb c s w).2)

pub feed-Writes :
    {S : Type 0} (cs : List Bytes) (cb : WriteCallback Disk S) (s : S) (w : Disk)
    → (feed cs cb s w).0 ≡ true
    → Writes Quiet cb (feed cs cb s w).1 (feed cs cb s w).2 s w cs
feed-Writes [] cb s w = λ e. written_all (refl, refl)
feed-Writes (c ∷ cs) cb s w = elim (Bool-cases ((cb c s w).0 == length c)) [
  | inr short ↦ rw short (λ e. cc)
  | inl whole ↦ rw whole (λ e.
      write_more (refl, refl)
        (triple (cb c s w) (length c) (eq_of_== (cb c s w).0 (length c) whole))
        (feed-Writes cs cb (cb c s w).1 (cb c s w).2 e))
]

abbrev pub printed : ℤ → Bytes
printed (pos n) = digits n n
printed (negsuc n) = b'-' ∷ digits (n + 1) (n + 1)

-- What a GET finds at any URL, in two pieces.
abbrev pub page : List Bytes
page = codes "0123456" ∷ codes "789" ∷ []

pub take-drop : (n : ℕ) (s : Bytes) → take n s ++ drop n s ≡ s
take-drop zero s = refl
take-drop (suc n) [] = refl
take-drop (suc n) (c ∷ s) = ap (◌∷◌ c) (take-drop n s)

abbrev put_disk : {S : Type 0} → Bytes → ℤ → ReadCallback Disk S → S → Disk → Bool × S × Disk
put_disk url (negsuc n) cb s w = (false, s, w)
put_disk url (pos n) cb s w =
    let (fine, chunks, t, v) = pull 8 cb s w in
    (fine && length (concat chunks) == n, t, record v { held = (url, concat chunks) ∷ v.held })

both : (a b : Bool) → (a && b) ≡ true → (a ≡ true) × (b ≡ true)
both a b e = ground arith

pub put_disk_ok :
    {S : Type 0} (url : Bytes) (n : ℕ) (cb : ReadCallback Disk S) (s : S) (w : Disk)
    → (put_disk url (pos n) cb s w).0 ≡ true
    → (chunks : List Bytes) × Reads Quiet cb
        (put_disk url (pos n) cb s w).1
        (put_disk url (pos n) cb s w).2
        s
        w
        chunks
      × (length (concat chunks) ≡ n)
      × (assoc (put_disk url (pos n) cb s w).2.held url ≡ some (concat chunks))
put_disk_ok url n cb s w e =
    let run = pull 8 cb s w in
    let (fine, size) = both run.0 (length (concat run.1) == n) e in
    (
      run.1,
      pull-Reads 8 cb s w (record run.3 { held = (url, concat run.1) ∷ run.3.held }) fine
          (refl, refl),
      eq_of_== (length (concat run.1)) n size,
      rw (str_eq_self url) refl,
    )

abbrev pub disk_transfer : TransferApi disk_platform
disk_transfer = record {
  uri_parse = λ url. (
    success,
    record { scheme = some (codes "http"); hostinfo = some (codes "fs:80"); path = some url },
  );
  ltoa = printed;
  ltoa-pos = λ n small. refl;
  sleep = λ n w. w;
  File = ℕ;
  file_seek = λ f n w. (
    success,
    record w { contents = take n (w.contents ++ w.ahead); ahead = drop n (w.contents ++ w.ahead) },
  );
  file_size = λ f w. (success, pos (length (w.contents ++ w.ahead)), w);
  file_read = λ f n w. (eof, [], w);
  file_write_full = λ f s w.
      (success, length s, record w { contents = w.contents ++ s; ahead = drop (length s) w.ahead });
  file_mktemp = λ w. (success, 0, record w { contents = []; ahead = [] });
  file_open = λ path w. (success, 0, record w { contents = []; ahead = w.contents ++ w.ahead });
  dir_make_recursive = λ path w. (success, w);
  written = λ f w. w.contents;
  behind = λ f w. w.ahead;
  written-file_mktemp = λ w e. refl;
  behind-file_mktemp = λ w e. refl;
  written-file_open = λ path w e. refl;
  count-file_write_full = λ f s w e. refl;
  written-file_write_full = λ f s w e. refl;
  behind-file_write_full = λ f s w. refl;
  contents-file_seek = λ f n w. take-drop n (w.contents ++ w.ahead);
  written-file_seek = λ f n w e. refl;
  brigade_pflatten = λ bs. (success, concat bs);
  brigade_pflatten-concat = λ bs e. refl;
  Connections = ℕ;
  Curl = ℕ;
  reslist_create = λ w. (success, 0, w);
  reslist_acquire = λ cs w. (success, 0, w);
  reslist_release = λ cs c w. (success, w);
  reslist_invalidate = λ cs c w. (success, w);
  reslist_destroy = λ cs w. (success, w);
  global_init = λ w. w;
  easy_init = λ w. (some 0, w);
  easy_cleanup = λ c w. w;
  Elsewhere = Quiet;
  written-Elsewhere = λ f w v e. e.0;
  behind-Elsewhere = λ f w v e. e.1;
  elsewhere_release = λ cs c w. (refl, refl);
  perform_put = λ c url n cb s w. put_disk url n cb s w;
  response_code = λ c w. 201;
  stored_at = λ url w. assoc w.held url;
  perform_put_ok = λ c url n cb s w e accepted. put_disk_ok url n cb s w e;
  perform_get = λ c url cb s w. feed page cb s w;
  body_at = λ url w. concat page;
  perform_get_ok = λ c url cb s w e. (page, feed-Writes page cb s w e, refl);
}
