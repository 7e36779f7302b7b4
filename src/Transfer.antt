-- ===== src/Transfer.antt =====
-- What the transfer of files uses of curl, and of APR's files, lists of resources and URIs, as a
-- record of operations with the behaviour that they document.
pub mod Servers
pub mod Upload
pub mod Download
pub mod System
use lib_mogilefs.Prelude.{
  ℕ, ◌<◌, ◌≡◌, Bool, true, ◌&&◌, Option, some, List, [], ◌∷◌, ◌++◌, length, take, drop, leb, ltb,
}
use lib_mogilefs.Prelude.CString.{Bytes}
use lib_mogilefs.Apr.{Status, ℤ, pos, is_success}
use lib_mogilefs.Network.{AprApi}

-- The fields of `apr_uri_t` that the program reads; a NULL is `none`.
pub record Uri : Type 0 where
  pub scheme : Option Bytes
  pub hostinfo : Option Bytes
  pub path : Option Bytes

abbrev pub concat : List Bytes → Bytes
concat [] = []
concat (c ∷ cs) = c ++ concat cs

-- A read callback on a state of its own: the bytes that are asked for at most, and what it gives,
-- or `none` for CURL_READFUNC_ABORT. A write callback: a piece, and how much of it was taken.
abbrev pub ReadCallback : Type 0 → Type 0 → Type 0
ReadCallback World S = ℕ → S → World → Option Bytes × S × World

abbrev pub WriteCallback : Type 0 → Type 0 → Type 0
WriteCallback World S = Bytes → S → World → ℕ × S × World

-- The calls that a transfer made: of a read callback, with the chunks that it gave, and of a write
-- callback, which took the pieces whole. Between two calls the world changes `Elsewhere`.
pub data Reads {World S : Type 0} (Elsewhere : World → World → Type 0) (cb : ReadCallback World S)
    (s' : S) (w' : World) : S → World → List Bytes → Type 0 where
  read_all : {w : World} → Elsewhere w w' → Reads Elsewhere cb s' w' s' w []
  read_more :
      {s t : S} {w v u : World} {n : ℕ} {c : Bytes} {cs : List Bytes}
      → Elsewhere w v
      → cb n s v ≡ (some c, t, u)
      → Reads Elsewhere cb s' w' t u cs
      → Reads Elsewhere cb s' w' s w (c ∷ cs)

pub data Writes {World S : Type 0} (Elsewhere : World → World → Type 0) (cb : WriteCallback World S)
    (s' : S) (w' : World) : S → World → List Bytes → Type 0 where
  written_all : {w : World} → Elsewhere w w' → Writes Elsewhere cb s' w' s' w []
  write_more :
      {s t : S} {w v u : World} {c : Bytes} {cs : List Bytes}
      → Elsewhere w v
      → cb c s v ≡ (length c, t, u)
      → Writes Elsewhere cb s' w' t u cs
      → Writes Elsewhere cb s' w' s w (c ∷ cs)

-- The codes of success of HTTP.
abbrev pub is_accepted : ℕ → Bool
is_accepted code = leb 200 code && ltb code 300

pub record TransferApi (apr : AprApi) : Type 1 where
  -- `apr_uri_parse`, and `apr_ltoa`, which prints a number that is not negative as `%d` does
  pub uri_parse : Bytes → Status × Uri
  pub ltoa : ℤ → Bytes
  pub ltoa-pos : (n : ℕ) → n < 9223372036854775808 → ltoa (pos n) ≡ apr.format.decimal n
  -- `apr_sleep`
  pub sleep : ℕ → apr.network.World → apr.network.World
  -- `apr_file_t`: `apr_file_seek` to a position from the start, `apr_file_info_get` for the size,
  -- `apr_file_read`, `apr_file_write_full`, `apr_file_mktemp`, `apr_file_open`,
  -- `apr_dir_make_recursive`
  pub File : Type 0
  pub file_seek : File → ℕ → apr.network.World → Status × apr.network.World
  pub file_size : File → apr.network.World → Status × ℤ × apr.network.World
  pub file_read : File → ℕ → apr.network.World → Status × Bytes × apr.network.World
  pub file_write_full : File → Bytes → apr.network.World → Status × ℕ × apr.network.World
  pub file_mktemp : apr.network.World → Status × File × apr.network.World
  pub file_open : Bytes → apr.network.World → Status × File × apr.network.World
  pub dir_make_recursive : Bytes → apr.network.World → Status × apr.network.World
  -- The bytes of a file before its position, and those from there on. A write replaces as many
  -- bytes as it counts; a new temporary file is empty, and a file that is opened is not truncated.
  pub written : File → apr.network.World → Bytes
  pub behind : File → apr.network.World → Bytes
  pub written-file_mktemp :
      (w : apr.network.World)
      → is_success (file_mktemp w).0 ≡ true
      → written (file_mktemp w).1 (file_mktemp w).2 ≡ []
  pub behind-file_mktemp :
      (w : apr.network.World)
      → is_success (file_mktemp w).0 ≡ true
      → behind (file_mktemp w).1 (file_mktemp w).2 ≡ []
  pub written-file_open :
      (path : Bytes) (w : apr.network.World)
      → is_success (file_open path w).0 ≡ true
      → written (file_open path w).1 (file_open path w).2 ≡ []
  pub count-file_write_full :
      (f : File) (s : Bytes) (w : apr.network.World)
      → is_success (file_write_full f s w).0 ≡ true
      → (file_write_full f s w).1 ≡ length s
  pub written-file_write_full :
      (f : File) (s : Bytes) (w : apr.network.World)
      → (file_write_full f s w).1 ≡ length s
      → written f (file_write_full f s w).2 ≡ written f w ++ s
  pub behind-file_write_full :
      (f : File) (s : Bytes) (w : apr.network.World)
      → behind f (file_write_full f s w).2 ≡ drop (file_write_full f s w).1 (behind f w)
  pub contents-file_seek :
      (f : File) (n : ℕ) (w : apr.network.World)
      → written f (file_seek f n w).1 ++ behind f (file_seek f n w).1 ≡ written f w ++ behind f w
  pub written-file_seek :
      (f : File) (n : ℕ) (w : apr.network.World)
      → is_success (file_seek f n w).0 ≡ true
      → written f (file_seek f n w).1 ≡ take n (written f w ++ behind f w)
  -- `apr_brigade_pflatten`, of memory buckets
  pub brigade_pflatten : List Bytes → Status × Bytes
  pub brigade_pflatten-concat :
      (bs : List Bytes)
      → is_success (brigade_pflatten bs).0 ≡ true
      → (brigade_pflatten bs).1 ≡ concat bs
  -- `apr_reslist_t`, with `mfs_http_connection` for its resources
  pub Connections : Type 0
  pub Curl : Type 0
  pub reslist_create : apr.network.World → Status × Connections × apr.network.World
  pub reslist_acquire : Connections → apr.network.World → Status × Curl × apr.network.World
  pub reslist_release : Connections → Curl → apr.network.World → Status × apr.network.World
  pub reslist_invalidate : Connections → Curl → apr.network.World → Status × apr.network.World
  pub reslist_destroy : Connections → apr.network.World → Status × apr.network.World
  -- `curl_global_init(0)`, `curl_easy_init` and `curl_easy_cleanup`
  pub global_init : apr.network.World → apr.network.World
  pub easy_init : apr.network.World → Option Curl × apr.network.World
  pub easy_cleanup : Curl → apr.network.World → apr.network.World
  -- `curl_easy_perform` for a PUT to a URL of so many bytes, and for a GET of it; whether the
  -- result is CURLE_OK. What else the world does in between does not write to the program's files.
  pub Elsewhere : apr.network.World → apr.network.World → Type 0
  pub written-Elsewhere :
      (f : File) (w v : apr.network.World) → Elsewhere w v → written f v ≡ written f w
  pub behind-Elsewhere :
      (f : File) (w v : apr.network.World) → Elsewhere w v → behind f v ≡ behind f w
  pub elsewhere_release :
      (cs : Connections) (c : Curl) (w : apr.network.World) → Elsewhere w (reslist_release cs c w).1
  pub perform_put :
      {S : Type 0}
      → Curl
      → Bytes
      → ℤ
      → ReadCallback apr.network.World S
      → S
      → apr.network.World
      → Bool × S × apr.network.World
  -- `CURLINFO_RESPONSE_CODE`, and the bytes that a server holds at a URL. A PUT that curl is
  -- content with, and whose response has a code of success, has sent all bytes it was told of, and
  -- they are stored; curl is content with other responses too.
  pub response_code : Curl → apr.network.World → ℕ
  pub stored_at : Bytes → apr.network.World → Option Bytes
  pub perform_put_ok :
      {S : Type 0} (c : Curl) (url : Bytes) (n : ℕ) (cb : ReadCallback apr.network.World S) (s : S)
      (w : apr.network.World)
      → (perform_put c url (pos n) cb s w).0 ≡ true
      → is_accepted (response_code c (perform_put c url (pos n) cb s w).2) ≡ true
      → (chunks : List Bytes) × Reads Elsewhere cb
          (perform_put c url (pos n) cb s w).1
          (perform_put c url (pos n) cb s w).2
          s
          w
          chunks
        × (length (concat chunks) ≡ n)
        × (stored_at url (perform_put c url (pos n) cb s w).2 ≡ some (concat chunks))
  pub perform_get :
      {S : Type 0}
      → Curl
      → Bytes
      → WriteCallback apr.network.World S
      → S
      → apr.network.World
      → Bool × S × apr.network.World
  -- The body of the reply to a GET. One that succeeds has passed all of it to the callback.
  pub body_at : Bytes → apr.network.World → Bytes
  pub perform_get_ok :
      {S : Type 0} (c : Curl) (url : Bytes) (cb : WriteCallback apr.network.World S) (s : S)
      (w : apr.network.World)
      → (perform_get c url cb s w).0 ≡ true
      → (pieces : List Bytes) × Writes Elsewhere cb
          (perform_get c url cb s w).1
          (perform_get c url cb s w).2
          s
          w
          pieces
        × (concat pieces ≡ body_at url w)
