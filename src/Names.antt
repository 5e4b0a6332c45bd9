-- ===== src/Names.antt =====
-- The names of volumes and keys: contentToPrefix, detectFormat and the volume names of handleList
-- (internal/api/api.go).
use proxs.Prelude.{
  ◌||◌, ◌++◌, if◌then◌else◌, ◌==◌, nat_eq, list_eq, Text, codes, has_suffix, to_lower,
}

-- `contentToPrefix`.
unfoldable pub content_to_prefix : Text → Text
content_to_prefix content =
    if content == codes "iso"
    then codes "template/iso/"
    else if content == codes "vztmpl"
    then codes "template/cache/"
    else if content == codes "snippets"
    then codes "snippets/"
    else if content == codes "backup"
    then codes "dump/"
    else if content == codes "import"
    then codes "import/"
    else if content == codes "images"
    then codes "images/"
    else content ++ codes "/"

-- `detectFormat`.
unfoldable pub detect_format : Text → Text
detect_format key =
    let lower = to_lower key in
    if has_suffix lower (codes ".iso")
    then codes "iso"
    else if has_suffix lower (codes ".tar.gz")
        || has_suffix lower (codes ".tar.xz")
        || has_suffix lower (codes ".tar.zst")
    then codes "tgz"
    else codes "raw"
