-- ===== src/FilePath.antt =====
-- Absolute, cleaned paths of package path/filepath, as their components from the root down.
pub mod Laws
use proxs.Prelude.{
  ℕ, Text, codes, split, has_suffix, Bool, false, ◌||◌, List, ◌∷◌, ◌++◌, map, ◌==◌, list_eq, nat_eq,
  if◌then◌else◌, ◌≡◌, [],
}

abbrev pub FilePath : Type 0
FilePath = List Text

abbrev pub slash : ℕ
slash = 47

-- The parent directory; that of the root is the root.
unfoldable pub parent : FilePath → FilePath
parent [] = []
parent (c ∷ []) = []
parent (c ∷ d ∷ p) = c ∷ parent (d ∷ p)

-- One component of an uncleaned path, as `filepath.Clean` treats it.
unfoldable pub push_name : FilePath → Text → FilePath
unfolding parent
push_name p c =
    if c == [] || c == codes "." then p else if c == codes ".." then parent p else p ++ c ∷ []

unfoldable pub push_names : FilePath → List Text → FilePath
push_names p [] = p
push_names p (c ∷ cs) = push_names (push_name p c) cs

-- `filepath.Join(base, elems...)`.
unfoldable pub join : FilePath → List Text → FilePath
join base [] = base
join base (e ∷ es) = join (push_names base (split slash e)) es

-- The components of `filepath.Rel(base, target)` of two absolute paths, none for ".".
unfoldable pub rel : FilePath → FilePath → List Text
rel [] target = target
rel (b ∷ bs) [] = map (λ _. codes "..") (b ∷ bs)
rel (b ∷ bs) (t ∷ ts) =
    let inner = rel bs ts in if b == t then inner else map (λ _. codes "..") (b ∷ bs) ++ t ∷ ts

-- Components back to a slash-separated text.
unfoldable pub join_slash : List Text → Text
join_slash [] = []
join_slash (c ∷ []) = c
join_slash (c ∷ d ∷ cs) = c ++ slash ∷ join_slash (d ∷ cs)

-- The last component, `filepath.Base` of a path that is not the root.
unfoldable pub base_name : FilePath → Text
base_name [] = []
base_name (c ∷ []) = c
base_name (c ∷ d ∷ p) = base_name (d ∷ p)

-- Text appended to a path, `p + ".meta"`.
unfoldable pub append_text : FilePath → Text → FilePath
append_text [] s = s ∷ []
append_text (c ∷ []) s = (c ++ s) ∷ []
append_text (c ∷ d ∷ p) s = c ∷ append_text (d ∷ p) s

-- `strings.HasSuffix(path, suffix)` for a suffix without a slash.
unfoldable pub path_has_suffix : FilePath → Text → Bool
path_has_suffix p suffix = has_suffix (base_name p) suffix

-- `strings.Contains(path, "/name/")`: a directory of that name lies on the way.
unfoldable pub passes_through : FilePath → Text → Bool
passes_through [] name = false
passes_through (c ∷ []) name = false
passes_through (c ∷ d ∷ p) name = c == name || passes_through (d ∷ p) name

-- A component that cleaning keeps.
pub record IsName (c : Text) : Type 0 where
  pub nonempty : (c == []) ≡ false
  pub not_dot : (c == codes ".") ≡ false
  pub not_dots : (c == codes "..") ≡ false
