-- ===== src/File/Directory/Entries.antt =====
-- The nodes that a tracker lists are those that `mfs_list_directory` returns.
use lib_mogilefs.Prelude.{
  ℕ, suc, ◌+◌, ◌*◌, ◌%◌, ◌<◌, ◌≡◌, refl, ap, true, Option, some, List, [], ◌∷◌, map, lt→ltb, length,
  All, arith,
}
use lib_mogilefs.Prelude.CString.{Bytes, codes}
use lib_mogilefs.Apr.{Status, success, pos}
use lib_mogilefs.Network.{AprApi}
use lib_mogilefs.File.Directory.{
  type_file, type_directory, type_symlink, FilepathEntry, zeroed, time_from_sec, read_entry,
  entry_key, field_of, read_entries, read_files, read_directory,
}

-- A file with its size, a directory, or a link with its target.
pub data Kind : Type 0 where
  a_file : ℕ → Kind
  a_directory : Kind
  a_link : Bytes → Kind

-- A node of the tracker's tree; its time is in seconds.
pub record Node : Type 0 where
  pub name : Bytes
  pub seconds : ℕ
  pub nid : ℕ
  pub kind : Kind

-- The numbers fit in 63 bits, the time also in microseconds.
abbrev pub IsSmallKind : Kind → Type 0
IsSmallKind (a_file size) = size < 9223372036854775808
IsSmallKind a_directory = Unit {0}
IsSmallKind (a_link target) = Unit {0}

abbrev pub IsSmall : Node → Type 0
IsSmall n = (n.seconds < 9223372036855) × (n.nid < 9223372036854775808) × IsSmallKind n.kind

abbrev with_kind : Kind → FilepathEntry → FilepathEntry
with_kind (a_file size) e = record e { type = type_file; size = size }
with_kind a_directory e = record e { type = type_directory }
with_kind (a_link target) e = record e { type = type_symlink; link = some target }

-- The entry that stands for a node, with its time in microseconds.
abbrev pub entry_of : Node → FilepathEntry
entry_of n =
    with_kind n.kind (record zeroed {
      name = some n.name;
      mtime = pos (n.seconds * 1000000);
      server_id = pos n.nid;
    })

module _ (apr : AprApi) where
  open apr use {format, numbers, hash}
  open hash use {Hash, hash_get}

  -- The fields by which the tracker describes a node.
  abbrev pub HasKind : (Bytes → Option Bytes) → Kind → Type 0
  HasKind find (a_file size) =
      (find (codes "type") ≡ some (codes "F")) × (find (codes "size") ≡ some (format.decimal size))
  HasKind find a_directory = find (codes "type") ≡ some (codes "D")
  HasKind find (a_link target) =
      (find (codes "type") ≡ some (codes "L")) × (find (codes "link") ≡ some target)

  abbrev pub Describes : (Bytes → Option Bytes) → Node → Type 0
  Describes find n =
      (find (codes "mtime") ≡ some (format.decimal n.seconds))
      × (find (codes "nid") ≡ some (format.decimal n.nid))
      × HasKind find n.kind

  -- A hash that lists nodes from a position on.
  abbrev pub Lists : Hash → ℕ → List Node → Type 0
  Lists result position [] = Unit {0}
  Lists result position (n ∷ ns) =
      (hash_get result (entry_key apr position) ≡ some n.name)
      × Describes (field_of apr result position) n
      × Lists result (position + 1) ns

  small_mod : (n : ℕ) → n < 9223372036854775808 → n % 18446744073709551616 ≡ n
  small_mod n h = omega arith

  small_time : (n : ℕ) → n < 9223372036855 → n < 9223372036854775808
  small_time n h = omega arith

  time_from_sec_small : (n : ℕ) → n < 9223372036855 → time_from_sec (pos n) ≡ pos (n * 1000000)
  time_from_sec_small n h =
      let product : n * 1000000 % 18446744073709551616 ≡ n * 1000000 = omega arith in
      let fits : n * 1000000 < 9223372036854775808 = omega arith in
      rw (product, lt→ltb _ _ fits) refl

  read_entry-Describes :
      (find : Bytes → Option Bytes) (name : Bytes) (seconds nid : ℕ) (kind : Kind)
      → IsSmall (record { name = name; seconds = seconds; nid = nid; kind = kind })
      → Describes find (record { name = name; seconds = seconds; nid = nid; kind = kind })
      → read_entry apr find (record zeroed { name = some name })
        ≡ (success, entry_of (record { name = name; seconds = seconds; nid = nid; kind = kind }))
  unfolding read_entry
  read_entry-Describes find name seconds nid (a_file size) (s1, s2, s3)
        (timed, placed, (typed, sized)) =
      rw (typed, read_entry)
        (rw (sized, timed, placed, read_entry)
          (rw
            (
              numbers.atoi64-decimal seconds (small_time seconds s1),
              numbers.atoi64-decimal nid s2,
              numbers.atoi64-decimal size s3,
              read_entry,
            )
            (rw (small_mod size s3, time_from_sec_small seconds s1) refl)))
  read_entry-Describes find name seconds nid a_directory (s1, s2, s3) (timed, placed, typed) =
      rw (typed, read_entry)
        (rw (timed, placed, read_entry)
          (rw
            (
              numbers.atoi64-decimal seconds (small_time seconds s1),
              numbers.atoi64-decimal nid s2,
              read_entry,
            )
            (rw (time_from_sec_small seconds s1) refl)))
  read_entry-Describes find name seconds nid (a_link target) (s1, s2, s3)
        (timed, placed, (typed, linked)) =
      rw (typed, read_entry)
        (rw (linked, timed, placed, read_entry)
          (rw
            (
              numbers.atoi64-decimal seconds (small_time seconds s1),
              numbers.atoi64-decimal nid s2,
              read_entry,
            )
            (rw (time_from_sec_small seconds s1) refl)))

  read_entries_step :
      (left position : ℕ) (result : Hash) (name : Bytes) (entry : FilepathEntry)
      (rest : List FilepathEntry)
      → hash_get result (entry_key apr position) ≡ some name
      → read_entry apr (field_of apr result position) (record zeroed { name = some name })
        ≡ (success, entry)
      → read_entries apr left (position + 1) result ≡ some rest
      → read_entries apr (suc left) position result ≡ some (entry ∷ rest)
  unfolding read_entries
  read_entries_step left position result name entry rest e f g =
      rw (e, read_entries)
        (rw (ap (λ (r : Status × FilepathEntry). r.0) f, g)
          (ap (λ (r : Status × FilepathEntry). some (r.1 ∷ rest)) f))

  read_entries-Lists :
      (ns : List Node) (position : ℕ) (result : Hash)
      → All IsSmall ns
      → Lists result position ns
      → read_entries apr (length ns) position result ≡ some (map entry_of ns)
  read_entries-Lists [] position result small h = unfold read_entries in refl
  read_entries-Lists (n ∷ ns) position result (small, smalls) (named, described, h) =
      read_entries_step (length ns) position result n.name (entry_of n) (map entry_of ns) named
        (read_entry-Describes (field_of apr result position) n.name n.seconds n.nid n.kind small
          described)
        (read_entries-Lists ns (position + 1) result smalls h)

  -- A reply whose hash lists between 1 and 31999 nodes from position 0 on, with their number under
  -- `files`, is read as those nodes, in order, with their times in microseconds. The numbers of the
  -- nodes fit in 63 bits, the times also in microseconds.
  pub read_directory-Lists :
      (ns : List Node) (result : Hash)
      → 0 < length ns
      → length ns < 32000
      → hash_get result (codes "files") ≡ some (format.decimal (length ns))
      → All IsSmall ns
      → Lists result 0 ns
      → read_directory apr (record { status = success; ok = true; result = result })
        ≡ some (record {
          status = success;
          filepath_entries = some (map entry_of ns);
          child_count = some (length ns);
        })
  unfolding read_directory read_files
  read_directory-Lists ns result some_nodes few counted small h =
      rw (counted, read_directory)
        (rw (numbers.atoi-decimal (length ns) (omega arith), read_files)
          (rw (lt→ltb 0 (length ns) some_nodes, lt→ltb (length ns) 32000 few)
            (rw (read_entries-Lists ns 0 result small h, read_files) refl)))
