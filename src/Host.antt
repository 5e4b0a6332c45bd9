-- ===== src/Host.antt =====
-- The machine that the daemon runs on: its file system, with the calls of package os that the
-- daemon makes, and its clock. Every call may fail: `denied` says which do, and `torn` what a
-- write that failed half way left behind. Directories that hold files are not recorded as such, a
-- `dir` is an entry that the daemon did not make; the clock stands still within a call.
pub mod Laws
use proxs.Prelude.{
  ℕ, Bool, true, false, not, ◌||◌, Option, none, some, if◌then◌else◌, ◌==◌, nat_eq, list_eq, length,
  Text, [],
}
use proxs.FilePath.{FilePath}

pub data Op : Type 0 where
  mkdir create write link rename open_file remove retry clear_flag : Op

pub record File : Type 0 where
  pub content : Text
  pub mtime : ℕ
  pub inode : ℕ
  pub immutable : Bool

pub data Node : Type 0 where
  file : File → Node
  dir : Node

pub record Host : Type 0 where
  pub fs : FilePath → Option Node
  pub now : ℕ
  pub denied : Op → FilePath → Bool
  pub torn : FilePath → Text
  pub fresh_inode : FilePath → ℕ

-- What `os.Stat` tells.
pub record FileInfo : Type 0 where
  pub size : ℕ
  pub mtime : ℕ
  pub inode : ℕ
  pub is_dir : Bool

abbrev pub update {ℓ} : {A : Type ℓ} → (FilePath → A) → FilePath → A → FilePath → A
update f p v q = if p == q then v else f q

abbrev pub put_node : Host → FilePath → Option Node → Host
put_node h p n = record h { fs = update h.fs p n }

abbrev pub info_of : Node → FileInfo
info_of (file f) = record {
  size = length f.content;
  mtime = f.mtime;
  inode = f.inode;
  is_dir = false;
}
info_of dir = record { size = 0; mtime = 0; inode = 0; is_dir = true }

unfoldable pub stat : Host → FilePath → Option FileInfo
stat h p = elim (h.fs p) [ none ↦ none | some n ↦ some (info_of n) ]

-- `os.Open` followed by reading to the end, and `os.ReadFile`.
unfoldable pub read_file : Host → FilePath → Option Text
read_file h p = elim (h.fs p) [
  | none ↦ none
  | some n ↦ elim n [ file f ↦ if h.denied open_file p then none else some f.content | dir ↦ none ]
]

-- What `os.Create` makes of the entry at a path, if it may: a new empty file, or the old one
-- truncated.
unfoldable pub created : Host → FilePath → Option File
created h p = if h.denied create p then none else elim (h.fs p) [
  | none ↦ some (record { content = []; mtime = h.now; inode = h.fresh_inode p; immutable = false })
  | some n ↦ elim n [
    | file f ↦ if f.immutable then none else some (record f { content = []; mtime = h.now })
    | dir ↦ none
  ]
]

-- `os.Create`, a copy of `content` into the file, and the close.
unfoldable pub write_file : FilePath → Text → Host → Bool × Host
unfolding created
write_file p content h = elim (created h p) [
  | none ↦ (false, h)
  | some f ↦
      if h.denied write p
      then (false, put_node h p (some (file (record f { content = h.torn p }))))
      else (true, put_node h p (some (file (record f { content = content }))))
]

pub data Removal : Type 0 where
  removed not_exist failed : Removal

abbrev pub is_failed : Removal → Bool
is_failed failed = true
is_failed _ = false

-- `os.Remove`. A directory holds entries, so it stays.
unfoldable pub remove_as : Op → FilePath → Host → Removal × Host
remove_as op p h = elim (h.fs p) [
  | none ↦ (not_exist, h)
  | some n ↦ elim n [
    | file f ↦ if f.immutable || h.denied op p then (failed, h) else (removed, put_node h p none)
    | dir ↦ (failed, h)
  ]
]

-- `chattr -i`.
unfoldable pub clear_immutable : FilePath → Host → Host
clear_immutable p h = elim (h.fs p) [
  | none ↦ h
  | some n ↦ elim n [
    | file f ↦
        if h.denied clear_flag p
        then h
        else put_node h p (some (file (record f { immutable = false })))
    | dir ↦ h
  ]
]

abbrev pub replaceable : Option Node → Bool
replaceable none = true
replaceable (some (file f)) = not f.immutable
replaceable (some dir) = false

-- `os.Rename` of a file, over another if there is one, and whether it succeeded.
unfoldable pub rename_file : FilePath → FilePath → Host → Bool × Host
rename_file src dst h = elim (h.fs src) [
  | none ↦ (false, h)
  | some n ↦
      if h.denied rename dst || (not (replaceable (some n)) || not (replaceable (h.fs dst)))
      then (false, h)
      else (true, put_node (put_node h src none) dst (some n))
]
