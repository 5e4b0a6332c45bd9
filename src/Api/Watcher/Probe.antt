-- ===== src/Api/Watcher/Probe.antt =====
-- What the watcher asks the system (internal/api/watcher.go): addWatchDirs and fileInUse. What the
-- kernel shows of the cache directory and of /proc is given; errors of inotify are ignored there.
use mathlib.Core.List.{flat_map}
use proxs.Prelude.{
  Bool, false, ◌&&◌, Option, none, some, List, [], ◌∷◌, any, leb, if◌then◌else◌, ◌==◌, nat_eq,
  list_eq, Text, codes,
}
use proxs.FilePath.{FilePath, join}
use proxs.Api.Listing.{DirEntry}

-- The keys of `prefixDirs`.
unfoldable pub prefix_dirs : List Text
prefix_dirs =
    codes "template/iso"
    ∷ codes "template/cache"
    ∷ codes "snippets"
    ∷ codes "dump"
    ∷ codes "import"
    ∷ codes "images"
    ∷ []

-- The subdirectory that an entry of a directory is.
unfoldable pub child_dirs : FilePath → DirEntry → List FilePath
child_dirs dir e = if e.is_dir then join dir (e.name ∷ []) ∷ [] else []

unfoldable pub dirs_below : (FilePath → Option (List DirEntry)) → FilePath → List FilePath
unfolding child_dirs
dirs_below read_dir dir = elim (read_dir dir) [
  | none ↦ []
  | some entries ↦ flat_map (child_dirs dir) entries
]

module _ (exists : FilePath → Bool) (read_dir : FilePath → Option (List DirEntry)) where
  -- A directory of a content type if it exists, and its subdirectories.
  unfoldable pub prefix_watches : FilePath → Text → List FilePath
  unfolding dirs_below
  prefix_watches base_dir sub_dir =
      let dir = join base_dir (sub_dir ∷ []) in
      if exists dir then dir ∷ dirs_below read_dir dir else []

  -- `addWatchDirs`, as the directories that it watches, for the names of the storages.
  unfoldable pub watch_dirs : FilePath → List Text → List FilePath
  unfolding prefix_watches prefix_dirs
  watch_dirs cache_dir storages =
      flat_map (λ storage. flat_map (prefix_watches (join cache_dir (storage ∷ []))) prefix_dirs)
        storages

-- An entry of /proc: the links of its open files, each of which can fail to be read, or none if the
-- directory of a process cannot be read.
pub record ProcEntry : Type 0 where
  pub pid : Text
  pub is_dir : Bool
  pub open_files : Option (List (Option FilePath))

unfoldable pub is_process : ProcEntry → Bool
is_process e = e.is_dir && elim e.pid [ [] ↦ false | c ∷ cs ↦ leb b'0' c && leb c b'9' ]

unfoldable pub is_link_to : FilePath → Option FilePath → Bool
is_link_to p none = false
is_link_to p (some link) = link == p

unfoldable pub holds_open : FilePath → ProcEntry → Bool
unfolding is_process is_link_to any
holds_open p e =
    if is_process e
    then elim e.open_files [ none ↦ false | some links ↦ any (is_link_to p) links ]
    else false

-- `fileInUse`; the argument is none if /proc cannot be read.
unfoldable pub file_in_use : Option (List ProcEntry) → FilePath → Bool
unfolding holds_open any
file_in_use none p = false
file_in_use (some entries) p = any (holds_open p) entries
