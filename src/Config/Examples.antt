-- ===== src/Config/Examples.antt =====
-- The theorem about storage.cfg at a small file.
use proxs.Prelude.{
  ◌≡◌, refl, none, [], ◌∷◌, ◌++◌, nat_eq, list_beq, list_eq, Text, codes, has_prefix, contains_byte,
  trim_left, trim_right, is_space, trim_space, cut_at,
}
use proxs.Config.{
  Numbers, new_storage, set_property, property_line, section_header, is_property, parse_line,
  parse_lines, parse_storage_cfg,
}
use proxs.Config.Sections.{IsHeader, parse_storage_cfg-append}

-- Numbers that are not read.
abbrev no_numbers : Numbers
no_numbers = record { atoi = λ s. none; parse_int64 = λ s. none }

abbrev s3_header : Text
s3_header = codes "s3: a"

abbrev dir_header : Text
dir_header = codes "dir: b"

abbrev bucket_line : Text
bucket_line = codes " bucket x"

dir_header-IsHeader : IsHeader dir_header
unfolding trim_space trim_left trim_right is_space has_prefix is_property contains_byte list_beq
dir_header-IsHeader = record {
  not_empty = refl;
  no_comment = refl;
  not_indented = refl;
  has_colon = refl;
}

parse_storage_cfg-append_example :
    parse_storage_cfg no_numbers ((s3_header ∷ bucket_line ∷ []) ++ dir_header ∷ bucket_line ∷ [])
    ≡ parse_storage_cfg no_numbers (s3_header ∷ bucket_line ∷ [])
      ++ parse_storage_cfg no_numbers (dir_header ∷ bucket_line ∷ [])
parse_storage_cfg-append_example =
    parse_storage_cfg-append no_numbers (s3_header ∷ bucket_line ∷ []) dir_header (bucket_line ∷ [])
      dir_header-IsHeader

-- The property of the section of another type is not taken for one of the storage.
two_sections :
    parse_storage_cfg no_numbers (s3_header ∷ bucket_line ∷ dir_header ∷ bucket_line ∷ [])
    ≡ record (new_storage (codes "a")) { bucket = codes "x" } ∷ []
unfolding parse_storage_cfg parse_lines parse_line section_header property_line set_property cut_at
    trim_space trim_left trim_right is_space has_prefix is_property contains_byte list_beq
two_sections = refl
