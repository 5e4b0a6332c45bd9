-- ===== src/Cache/Meta.antt =====
-- FileMeta of internal/cache/cache.go, and when it covers a file.
use proxs.Prelude.{
  ℕ, Text, Bool, false, ◌||◌, ◌&&◌, not, Option, none, some, ◌==◌, nat_eq, ltb, ◌≡◌,
}
use proxs.Host.{FileInfo}

-- Times are nanoseconds since the zero time.
pub record FileMeta : Type 0 where
  pub etag : Text
  pub last_modified : ℕ
  pub size : ℕ
  pub cached_at : ℕ
  pub pending_upload : Bool
  pub inode : ℕ

-- encoding/json on a FileMeta: what was marshalled can be read back.
pub record MetaJson : Type 0 where
  pub marshal : FileMeta → Text
  pub unmarshal : Text → Option FileMeta
  pub unmarshal-marshal : (m : FileMeta) → unmarshal (marshal m) ≡ some m

-- `Covers`, on a pointer that may be nil.
unfoldable pub covers : Option FileMeta → FileInfo → Bool
covers none info = false
covers (some m) info =
    not m.pending_upload
    && (m.size == info.size && not (ltb m.cached_at info.mtime))
    && (m.inode == 0 || m.inode == info.inode)
