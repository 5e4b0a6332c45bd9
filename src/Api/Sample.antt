-- ===== src/Api/Sample.antt =====
-- Buckets and files for the examples.

use proxs.Prelude.{
  length, true, false, none, some, [], ◌∷◌, if◌then◌else◌, ◌==◌, nat_eq, list_eq, Text, codes,
}
use proxs.Host.{Host, FileInfo, file}
use proxs.S3client.Memory.{Object, Bucket, memory}
use proxs.S3client.{ObjectInfo}
use proxs.Cache.Meta.{FileMeta}
use proxs.Cache.Entry.{meta_path}
use proxs.Cache.Sample.{plain_json, small_cache, iso_key, iso_path, iso_file, idle}

-- An empty bucket that can be reached.
abbrev pub new_bucket : Bucket
new_bucket = record {
  objects = λ k. none;
  unreachable = λ op. false;
  lands = λ op. false;
  clock = 100;
}

abbrev pub pending_mark : FileMeta
pending_mark = record {
  etag = [];
  last_modified = 50;
  size = 2;
  cached_at = 50;
  pending_upload = true;
  inode = 9;
}

abbrev pub marked_host : Host
marked_host = record idle {
  fs = λ p.
      if p == iso_path
      then some (file (iso_file false))
      else if p == meta_path small_cache (codes "s") iso_key
      then some (
          file (record {
            content = plain_json.marshal pending_mark;
            mtime = 50;
            inode = 12;
            immutable = false;
          }))
      else none;
}

-- The file as it was opened, before PVE replaced it.
abbrev pub old_info : FileInfo
old_info = record { size = 5; mtime = 40; inode = 8; is_dir = false }

abbrev pub iso_object : Object
iso_object = record { body = 7 ∷ 8 ∷ []; etag = codes "e"; last_modified = 30; tags = [] }

abbrev pub full_bucket : Bucket
full_bucket = record new_bucket { objects = λ k. some iso_object }

abbrev pub bare : Host
bare = record idle { fs = λ p. none }

-- An object that is newer than the file.
abbrev pub aged_object : Object
aged_object = record { body = 1 ∷ []; etag = codes "f"; last_modified = 90; tags = [] }

abbrev pub aged_bucket : Bucket
aged_bucket = record new_bucket { objects = λ k. some aged_object }

abbrev pub other_key : Text
other_key = codes "t/b"

-- A bucket that cannot be reached.
abbrev pub cut_off : Bucket
cut_off = record full_bucket { unreachable = λ op. true }

-- What HEAD tells of an object.
abbrev pub object_info : Object → ObjectInfo
object_info o = record {
  key = iso_key;
  size = length o.body;
  etag = o.etag;
  last_modified = o.last_modified;
}
