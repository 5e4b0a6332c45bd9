-- ===== src/Config/Sections.antt =====
-- ParseStorageCfg of internal/config/config.go on several sections.
use mathlib.Core.List.{reverse-append}
use proxs.Prelude.{
  ◌≡◌, refl, ap, ◌∙◌, true, false, none, List, [], ◌∷◌, ◌++◌, arith, ◌==◌, nat_eq, list_eq, Text,
  codes, has_prefix, contains_byte, trim_space,
}
use proxs.Config.{
  StorageConfig, Numbers, section_header, Parser, saved, is_property, parse_line, parse_lines,
  parse_storage_cfg,
}

-- A line that begins a section.
pub record IsHeader (raw : Text) : Type 0 where
  pub not_empty : (trim_space raw == []) ≡ false
  pub no_comment : has_prefix (trim_space raw) (codes "#") ≡ false
  pub not_indented : is_property raw ≡ false
  pub has_colon : contains_byte (trim_space raw) b':' ≡ true

module _ (numbers : Numbers) where
  parse_lines-append :
      (raws more : List Text) (p : Parser)
      → parse_lines numbers (raws ++ more) p ≡ parse_lines numbers more (parse_lines numbers raws p)
  unfolding parse_lines
  parse_lines-append [] more p = refl
  parse_lines-append (raw ∷ raws) more p = parse_lines-append raws more (parse_line numbers raw p)

  -- The same parser state, on top of storages that were found before.
  abbrev pub above : List StorageConfig → Parser → Parser
  above before p = record p { storages = p.storages ++ before }

  parse_line-above :
      (before : List StorageConfig) (raw : Text) (p : Parser)
      → parse_line numbers raw (above before p) ≡ above before (parse_line numbers raw p)
  unfolding parse_line
  parse_line-above before raw p = ground arith

  parse_lines-above :
      (before : List StorageConfig) (raws : List Text) (p : Parser)
      → parse_lines numbers raws (above before p) ≡ above before (parse_lines numbers raws p)
  unfolding parse_lines
  parse_lines-above before [] p = refl
  parse_lines-above before (raw ∷ raws) p =
      ap (parse_lines numbers raws) (parse_line-above before raw p)
      ∙ parse_lines-above before raws (parse_line numbers raw p)

  parse_line-header :
      (raw : Text) (p : Parser)
      → IsHeader raw
      → parse_line numbers raw p
        ≡ record { storages = saved p; current = section_header (trim_space raw) }
  unfolding parse_line
  parse_line-header raw p k = ground (arith, k.not_empty, k.no_comment, k.not_indented, k.has_colon)

  saved-above :
      (before : List StorageConfig) (p : Parser) → saved (above before p) ≡ saved p ++ before
  saved-above before p = ground arith

  -- Cut before the header of a section, of whatever type, storage.cfg defines the storages of the
  -- part above followed by those of the part below: no line of one section changes another.
  pub parse_storage_cfg-append :
      (raws : List Text) (header : Text) (more : List Text)
      → IsHeader header
      → parse_storage_cfg numbers (raws ++ header ∷ more)
        ≡ parse_storage_cfg numbers raws ++ parse_storage_cfg numbers (header ∷ more)
  unfolding parse_storage_cfg
  parse_storage_cfg-append raws header more k =
      let p = parse_lines numbers raws (record { storages = []; current = none }) in
      let q : Parser = record { storages = []; current = section_header (trim_space header) } in
      rw
        (
          parse_lines-append raws (header ∷ more),
          parse_lines,
          parse_line-header header p k,
          parse_line-header header _ k,
          parse_lines-above (saved p) more q,
          saved-above (saved p) (parse_lines numbers more q),
        )
        (reverse-append (saved (parse_lines numbers more q)) (saved p))
