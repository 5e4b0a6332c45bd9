-- ===== src/Cache/Placement.antt =====
-- Store and Link of internal/cache/cache.go: how a file comes into the cache. The eviction that Store
-- starts runs on its own.
pub mod Linked
use proxs.Prelude.{
  Bool, true, false, Option, none, some, if◌then◌else◌, ◌==◌, nat_eq, list_eq, Text,
}
use proxs.FilePath.{FilePath}
use proxs.Host.{
  Host, put_node, stat, read_file, created, write_file, remove_as, mkdir, link, open_file, remove,
  file, dir,
}
use proxs.Cache.Meta.{FileMeta, MetaJson}
use proxs.Cache.Entry.{FileCache, path, write_meta}

-- `os.SameFile` of what stands at two paths.
unfoldable pub same_file : Host → FilePath → FilePath → Bool
same_file h p q = elim (stat h p) [
  | none ↦ false
  | some a ↦ elim (stat h q) [ none ↦ false | some b ↦ a.inode == b.inode ]
]

-- `os.Link`: the new name must be free. What is written to one name later is not seen under the
-- other.
unfoldable pub link_file : FilePath → FilePath → Host → Bool × Host
link_file src dst h = elim (h.fs src) [
  | none ↦ (false, h)
  | some n ↦ elim n [
    | dir ↦ (false, h)
    | file f ↦ elim (h.fs dst) [
      | some _ ↦ (false, h)
      | none ↦ if h.denied link dst then (false, h) else (true, put_node h dst (some (file f)))
    ]
  ]
]

-- The copy that stands in for a link; an error of the copy itself is not seen.
unfoldable pub copy_over : FilePath → FilePath → Host → Option Host
copy_over src dst h = if h.denied open_file src then none else elim (stat h src) [
  | none ↦ none
  | some _ ↦ elim (created h dst) [
    | none ↦ none
    | some empty_file ↦
        let h' = put_node h dst (some (file empty_file)) in
        elim (read_file h' src) [ none ↦ some h' | some body ↦ some (write_file dst body h').1 ]
  ]
]

module _ ⦃json : MetaJson⦄ (fc : FileCache) (storage key : Text) where
  -- `Store`, with the bytes that the reader gives or `none` if reading it fails.
  unfoldable pub store : Option Text → FileMeta → Host → Option FilePath × Host
  store source meta h =
      let p = path fc storage key in
      if h.denied mkdir p then (none, h) else elim (created h p) [
        | none ↦ (none, h)
        | some empty_file ↦
            let h' = put_node h p (some (file empty_file)) in
            elim source [
              | none ↦ (none, (remove_as remove p h').1)
              | some body ↦
                  let (written, h'') = write_file p body h' in
                  if written
                  then (some p, write_meta fc storage key meta h'')
                  else (none, (remove_as remove p h'').1)
            ]
      ]

  -- `Link`.
  unfoldable pub link_entry : FilePath → FileMeta → Host → Host
  unfolding same_file link_file copy_over
  link_entry src meta h =
      let p = path fc storage key in
      let (linked, h') = link_file src p h in
      if h.denied mkdir p
      then h
      else if same_file h src p
      then write_meta fc storage key meta h
      else if linked
      then write_meta fc storage key meta h'
      else elim (copy_over src p h) [
        | none ↦ h
        | some copied ↦ write_meta fc storage key meta copied
      ]
