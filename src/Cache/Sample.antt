-- ===== src/Cache/Sample.antt =====
-- A small machine for the examples: one storage, one file, metadata as numbers.
use proxs.Prelude.{
  ℕ, ◌≡◌, refl, Bool, true, false, Option, none, some, [], ◌∷◌, arith, if◌then◌else◌, ◌==◌, nat_eq,
  list_beq, list_eq, Text, codes, add_byte, split,
}
use proxs.FilePath.{FilePath, push_name, push_names, join}
use proxs.Host.{
  Op, File, Host, FileInfo, stat, created, mkdir, create, write, open_file, remove, retry, file,
}
use proxs.Host.Laws.{IsWritable}
use proxs.Cache.Meta.{FileMeta, MetaJson}
use proxs.Cache.Entry.{FileCache, path, meta_path}
use proxs.Cache.Paths.{IsEntry}

abbrev bit : Bool → ℕ
bit true = 1
bit false = 0

abbrev plain_marshal : FileMeta → Text
plain_marshal m = m.last_modified ∷ m.size ∷ m.cached_at ∷ bit m.pending_upload ∷ m.inode ∷ m.etag

abbrev plain_unmarshal : Text → Option FileMeta
plain_unmarshal (t ∷ s ∷ c ∷ p ∷ i ∷ etag) = some (record {
  etag = etag;
  last_modified = t;
  size = s;
  cached_at = c;
  pending_upload = p == 1;
  inode = i;
})
plain_unmarshal _ = none

pub plain_law : (m : FileMeta) → plain_unmarshal (plain_marshal m) ≡ some m
plain_law m = ground arith

-- A codec that keeps the law of encoding/json.
instance abbrev pub plain_json : MetaJson
plain_json = record {
  marshal = plain_marshal;
  unmarshal = plain_unmarshal;
  unmarshal-marshal = plain_law;
}

abbrev pub small_cache : FileCache
small_cache = record { base_dir = codes "c" ∷ []; max_mb = 1 }

abbrev pub iso_key : Text
iso_key = codes "t/a"

pub iso_entry : IsEntry (codes "s") iso_key
unfolding split add_byte list_beq
iso_entry = record {
  storage_whole = refl;
  storage_name = record { nonempty = refl; not_dot = refl; not_dots = refl };
  storage_not_meta = refl;
  key_names = (
    record { nonempty = refl; not_dot = refl; not_dots = refl },
    (record { nonempty = refl; not_dot = refl; not_dots = refl }, tt),
  );
}

abbrev pub iso_path : FilePath
iso_path = codes "c" ∷ codes "s" ∷ codes "t" ∷ codes "a" ∷ []

abbrev pub iso_file : Bool → File
iso_file flag = record { content = 7 ∷ 8 ∷ []; mtime = 50; inode = 9; immutable = flag }

abbrev pub machine : File → (Op → FilePath → Bool) → Host
machine f denied = record {
  fs = λ p. if p == iso_path then some (file f) else none;
  now = 100;
  denied = denied;
  torn = λ p. [];
  fresh_inode = λ p. 11;
}

abbrev pub allowed : Op → FilePath → Bool
allowed op p = false

-- Only removals fail.
abbrev pub no_removal : Op → FilePath → Bool
no_removal remove p = p == iso_path
no_removal retry p = p == iso_path
no_removal _ p = false

abbrev pub iso_info : FileInfo
iso_info = record { size = 2; mtime = 50; inode = 9; is_dir = false }

abbrev pub idle : Host
idle = machine (iso_file false) allowed

abbrev pub stuck : Host
stuck = machine (iso_file true) no_removal

pub path_iso : path small_cache (codes "s") iso_key ≡ iso_path
unfolding path join push_names push_name split add_byte list_beq
path_iso = refl

pub stat_iso : stat idle (path small_cache (codes "s") iso_key) ≡ some iso_info
unfolding stat path join push_names push_name split add_byte list_beq
stat_iso = refl

module _ (f : File) (denied : Op → FilePath → Bool) where
  abbrev meta_file : FilePath
  meta_file = meta_path small_cache (codes "s") iso_key

  pub machine-IsWritable :
      denied mkdir meta_file ≡ false
      → denied create meta_file ≡ false
      → denied write meta_file ≡ false
      → denied open_file meta_file ≡ false
      → IsWritable (machine f denied) meta_file
  unfolding created meta_path join push_names push_name split add_byte list_beq
  machine-IsWritable m c w o = record {
    mkdir_ok = m;
    write_ok = w;
    open_ok = o;
    create_ok = λ e. ground arith;
  }
