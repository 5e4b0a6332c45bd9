-- ===== src/Api/Watcher/InUse.antt =====
-- When fileInUse (internal/api/watcher.go) finds that a file is in use.
use mathlib.Core.List.{Memᴰ}
use proxs.Prelude.{
  Option-cases, ap, eq_refl, subst, ◌≡◌, refl, sym, ◌↔◌, Bool, true, Option, none, some, List, [],
  ◌∷◌, any, arith, Bool-cases, inl, inr, eq_iff, nat_eq, list_eq,
}
use proxs.FilePath.{FilePath}
use proxs.Api.Watcher.Probe.{ProcEntry, is_process, is_link_to, holds_open, file_in_use}

module _ {ℓ} {A : Type ℓ} (p : A → Bool) where
  any-member : (xs : List A) → any p xs ≡ true → (a : A) × Memᴰ a xs × (p a ≡ true)
  unfolding any
  any-member [] e = ground arith
  any-member (x ∷ xs) e = elim (Bool-cases (p x)) [
    | inl y ↦ (x, Memᴰ.head refl, y)
    | inr n ↦ let (a, m, y) = any-member xs (ground (arith, e, n)) in (a, Memᴰ.tail m, y)
  ]

  member-any : {a : A} (xs : List A) → Memᴰ a xs → p a ≡ true → any p xs ≡ true
  unfolding any
  member-any [] m y = elim m [ ]
  member-any (x ∷ xs) (Memᴰ.head e) y = rw (sym e, y) refl
  member-any (x ∷ xs) (Memᴰ.tail m) y = let rest = member-any xs m y in ground (arith, rest)

-- A process has the file open, as far as its descriptors can be read.
record IsOpen (entries : List ProcEntry) (p : FilePath) : Type 0 where
  entry : ProcEntry
  links : List (Option FilePath)
  listed : Memᴰ entry entries
  process : is_process entry ≡ true
  shown : entry.open_files ≡ some links
  held : Memᴰ (some p) links

holds_open-links :
    (p : FilePath) (e : ProcEntry)
    → holds_open p e ≡ true
    → (links : List (Option FilePath)) × (e.open_files ≡ some links)
      × (is_process e ≡ true)
      × (any (is_link_to p) links ≡ true)
unfolding holds_open
holds_open-links p e h = elim (Option-cases e.open_files) [
  | inl r ↦ ground arith
  | inr (links, r) ↦ (links, r, ground arith, ground arith)
]

is_link_to-eq : (p : FilePath) (l : Option FilePath) → is_link_to p l ≡ true → l ≡ some p
unfolding is_link_to
is_link_to-eq p none e = ground arith
is_link_to-eq p (some link) e = ap some ((eq_iff link p).0 e)

holds_open-IsOpen :
    (entries : List ProcEntry) (p : FilePath) (e : ProcEntry)
    → Memᴰ e entries
    → holds_open p e ≡ true
    → IsOpen entries p
holds_open-IsOpen entries p e m h =
    let (links, r, process, some_link) = holds_open-links p e h in
    let (l, among, same) = any-member (is_link_to p) links some_link in
    record {
      entry = e;
      links = links;
      listed = m;
      process = process;
      shown = r;
      held = subst (λ x. Memᴰ x links) (is_link_to-eq p l same) among;
    }

IsOpen-holds_open :
    (entries : List ProcEntry) (p : FilePath) (o : IsOpen entries p) → holds_open p o.entry ≡ true
unfolding holds_open
IsOpen-holds_open entries p o =
    let found = member-any (is_link_to p) o.links o.held (eq_refl p) in
    rw (holds_open, o.process, o.shown) found

-- A file is in use exactly if a process has it open, as far as /proc can be read.
file_in_use-IsOpen :
    (entries : List ProcEntry) (p : FilePath)
    → (file_in_use (some entries) p ≡ true) ↔ IsOpen entries p
unfolding file_in_use
file_in_use-IsOpen entries p = (
  λ e.
      let (entry, m, h) = any-member (holds_open p) entries e in
      holds_open-IsOpen entries p entry m h,
  λ o. member-any (holds_open p) entries o.listed (IsOpen-holds_open entries p o),
)
