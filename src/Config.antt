-- ===== src/Config.antt =====
-- The storages that storage.cfg defines (internal/config/config.go): ParseStorageCfg on the lines of
-- the file, and DiscoverStorages. The parsers of numbers and of credential files are parameters.
pub mod Sections
pub mod Daemon
mod Examples
use proxs.Prelude.{
  ℕ, Bool, true, false, not, ◌&&◌, ◌||◌, Option, none, some, List, ◌∷◌, ◌++◌, map, reverse, ltb,
  if◌then◌else◌, ◌==◌, nat_eq, list_eq, Text, codes, has_prefix, trim_prefix, contains_byte,
  trim_right, trim_space, cut_at, [],
}

-- `StorageConfig`. The age in days and the part size are not negative.
pub record StorageConfig : Type 0 where
  pub storage_id : Text
  pub bucket : Text
  pub endpoint : Text
  pub region : Text
  pub use_ssl : Bool
  pub path_style : Bool
  pub access_key : Text
  pub secret_key : Text
  pub cache_max_age : ℕ
  pub part_size_mb : ℕ

-- `ProxyConfig`.
pub record ProxyConfig : Type 0 where
  pub http_proxy : Text
  pub https_proxy : Text
  pub no_proxy : Text

-- What `strconv` reads, `none` for an error or a negative number.
pub record Numbers : Type 0 where
  pub atoi : Text → Option ℕ
  pub parse_int64 : Text → Option ℕ

-- A storage with the defaults of a new section.
abbrev pub new_storage : Text → StorageConfig
new_storage name = record {
  storage_id = name;
  bucket = [];
  endpoint = [];
  region = codes "us-east-1";
  use_ssl = true;
  path_style = false;
  access_key = [];
  secret_key = [];
  cache_max_age = 0;
  part_size_mb = 0;
}

abbrev pub is_true : Text → Bool
is_true val = val == codes "1" || val == codes "yes" || val == codes "true"

unfoldable pub clean_endpoint : Text → Text
clean_endpoint val =
    trim_right (λ c. c == b'/') (trim_prefix (trim_prefix val (codes "https://")) (codes "http://"))

unfoldable pub set_max_age : Numbers → Text → StorageConfig → StorageConfig
set_max_age numbers val sc = elim (numbers.atoi val) [
  | none ↦ sc
  | some days ↦ record sc { cache_max_age = days }
]

unfoldable pub set_part_size : Numbers → Text → StorageConfig → StorageConfig
set_part_size numbers val sc = elim (numbers.parse_int64 val) [
  | none ↦ sc
  | some mb ↦ if ltb 0 mb then record sc { part_size_mb = mb } else sc
]

-- The switch on a property's key.
unfoldable pub set_property : Numbers → Text → Text → StorageConfig → StorageConfig
unfolding clean_endpoint set_max_age set_part_size
set_property numbers key val sc =
    if key == codes "endpoint"
    then record sc { endpoint = clean_endpoint val }
    else if key == codes "bucket"
    then record sc { bucket = val }
    else if key == codes "region"
    then record sc { region = val }
    else if key == codes "use-ssl"
    then record sc { use_ssl = is_true val }
    else if key == codes "path-style"
    then record sc { path_style = is_true val }
    else if key == codes "cache-max-age"
    then set_max_age numbers val sc
    else if key == codes "part-size-mb"
    then set_part_size numbers val sc
    else sc

unfoldable pub property_line : Numbers → Text → StorageConfig → StorageConfig
unfolding set_property
property_line numbers line sc =
    let (key, rest) = cut_at b' ' line in
    elim rest [ none ↦ sc | some val ↦ set_property numbers (trim_space key) (trim_space val) sc ]

-- The section that a header begins, if it is one of type s3.
unfoldable pub section_header : Text → Option StorageConfig
section_header line =
    let (stype, rest) = cut_at b':' line in
    elim rest [
      | none ↦ none
      | some sname ↦
          if trim_space stype == codes "s3" then some (new_storage (trim_space sname)) else none
    ]

-- The variables of the loop: the storages so far, the last one first, and the current section.
pub record Parser : Type 0 where
  pub storages : List StorageConfig
  pub current : Option StorageConfig

-- Saves the current section.
abbrev pub saved : Parser → List StorageConfig
saved p = elim p.current [ none ↦ p.storages | some sc ↦ sc ∷ p.storages ]

unfoldable pub is_property : Text → Bool
is_property raw = has_prefix raw (codes "\t") || has_prefix raw (codes " ")

-- The loop's body.
unfoldable pub parse_line : Numbers → Text → Parser → Parser
unfolding is_property section_header property_line
parse_line numbers raw p =
    let line = trim_space raw in
    if line == [] || has_prefix line (codes "#")
    then p
    else if not (is_property raw) && contains_byte line b':'
    then record { storages = saved p; current = section_header line }
    else if is_property raw
    then elim p.current [
      | none ↦ p
      | some sc ↦ record p { current = some (property_line numbers line sc) }
    ]
    else p

unfoldable pub parse_lines : Numbers → List Text → Parser → Parser
parse_lines numbers [] p = p
parse_lines numbers (raw ∷ raws) p = parse_lines numbers raws (parse_line numbers raw p)

-- `ParseStorageCfg`, from the lines of the file on.
unfoldable pub parse_storage_cfg : Numbers → List Text → List StorageConfig
unfolding parse_lines
parse_storage_cfg numbers raws =
    reverse (saved (parse_lines numbers raws (record { storages = []; current = none })))

-- `Credential`.
pub record Credential : Type 0 where
  pub access : Text
  pub secret : Text

-- `LoadCredential`: the files of the credential directory and their JSON, or an error.
unfoldable pub load_credential :
    (Text → Option Text) → (Text → Option Credential) → Text → Option Credential
load_credential files unmarshal storage = elim (files (storage ++ codes ".json")) [
  | none ↦ none
  | some data_read ↦ unmarshal data_read
]

unfoldable pub with_credential : Option Credential → StorageConfig → StorageConfig
with_credential none sc = sc
with_credential (some cred) sc = record sc { access_key = cred.access; secret_key = cred.secret }

-- `DiscoverStorages`: `none` if storage.cfg cannot be read; a storage without credentials is kept.
unfoldable pub discover_storages :
    Numbers → (Text → Option Credential) → Option (List Text) → Option (List StorageConfig)
discover_storages numbers load none = none
discover_storages numbers load (some raws) = some (
    map (λ (sc : StorageConfig). with_credential (load sc.storage_id) sc)
      (parse_storage_cfg numbers raws))
