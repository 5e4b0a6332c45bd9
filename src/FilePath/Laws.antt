-- ===== src/FilePath/Laws.antt =====
-- Joining, splitting and relativising paths.
use mathlib.Core.List.{append_cancel_right, reverse-append, append_assoc, append-nil}
use proxs.Prelude.{
  ℕ, ◌<◌, ◌≡◌, refl, sym, ap, ◌∙◌, ◌≢◌, inl, inr, true, false, List, [], ◌∷◌, ◌++◌, reverse, arith,
  Bool-cases, ◌==◌, eq_iff, eq_refl, nat_eq, list_eq, length, length-append, All, Text, codes,
  has_prefix, has_suffix, add_byte, split,
}
use proxs.FilePath.{
  FilePath, slash, push_name, push_names, join, rel, join_slash, base_name, append_text,
  path_has_suffix, IsName,
}

pub head-eq {ℓ} : {A : Type ℓ} {x y : A} {xs ys : List A} → x ∷ xs ≡ y ∷ ys → x ≡ y
head-eq e = cc

pub tail-eq {ℓ} : {A : Type ℓ} {x y : A} {xs ys : List A} → x ∷ xs ≡ y ∷ ys → xs ≡ ys
tail-eq e = cc

push_name-IsName : (p : FilePath) (c : Text) → IsName c → push_name p c ≡ p ++ c ∷ []
unfolding push_name
push_name-IsName p c h = rw (h.nonempty, h.not_dot, h.not_dots)

pub push_names-All : (p : FilePath) (cs : List Text) → All IsName cs → push_names p cs ≡ p ++ cs
unfolding push_names
push_names-All p [] h = rw append-nil
push_names-All p (c ∷ cs) h =
    rw (push_name-IsName p c h.0) (push_names-All (p ++ c ∷ []) cs h.1 ∙ append_assoc p (c ∷ []) cs)

pub rel-append : (base p : FilePath) → rel base (base ++ p) ≡ p
unfolding rel
rel-append [] p = refl
rel-append (b ∷ bs) p = rw (eq_refl b) (rel-append bs p)

pub split-cons : (b : ℕ) (s : Text) → (p : Text) × (ps : List Text) × (split b s ≡ p ∷ ps)
unfolding split add_byte
split-cons b [] = ([], [], refl)
split-cons b (c ∷ s) = elim (Bool-cases (c == b)) [
  | inl e ↦ ([], split b s, rw e)
  | inr e ↦ let (p, ps, q) = split-cons b s in (c ∷ p, ps, rw e (rw q))
]

join_slash-add_byte :
    (c : ℕ) (p : Text) (ps : List Text) → join_slash (add_byte c (p ∷ ps)) ≡ c ∷ join_slash (p ∷ ps)
unfolding join_slash add_byte
join_slash-add_byte c p [] = refl
join_slash-add_byte c p (q ∷ ps) = refl

-- Splitting at slashes and joining again gives the text back.
pub join_slash-split : (s : Text) → join_slash (split slash s) ≡ s
unfolding split join_slash
join_slash-split [] = refl
join_slash-split (c ∷ s) =
    let (p, ps, q) = split-cons slash s in
    let ih = join_slash-split s in
    elim (Bool-cases (c == slash)) [
      | inl e ↦ rw e (cc (q, ih, (eq_iff c slash).0 e))
      | inr e ↦ rw e (cc (q, ih, join_slash-add_byte c p ps))
    ]

module _ (base : FilePath) where
  -- A joined path under clean components is the base and the components of the texts.
  pub join-clean :
      (storage key : Text)
      → All IsName (split slash storage)
      → All IsName (split slash key)
      → join base (storage ∷ key ∷ []) ≡ base ++ split slash storage ++ split slash key
  unfolding join
  join-clean storage key hs hk =
      rw (push_names-All base _ hs) (push_names-All (base ++ split slash storage) _ hk)

append_text-add_byte :
    (c : ℕ) (p : Text) (ps : List Text) (t : Text)
    → append_text (add_byte c (p ∷ ps)) t ≡ add_byte c (append_text (p ∷ ps) t)
unfolding append_text add_byte
append_text-add_byte c p [] t = refl
append_text-add_byte c p (q ∷ ps) t = refl

-- A text without a slash goes to the last component.
pub split-append :
    (s t : Text) → split slash t ≡ t ∷ [] → split slash (s ++ t) ≡ append_text (split slash s) t
unfolding split append_text
split-append [] t h = h
split-append (c ∷ s) t h =
    let (p, ps, q) = split-cons slash s in
    let ih = split-append s t h in
    elim (Bool-cases (c == slash)) [
      | inl e ↦ rw e (cc (q, ih))
      | inr e ↦ rw e (cc (q, ih, append_text-add_byte c p ps t))
    ]

beq-of-length : (s t : Text) → length t < length s → (s == t) ≡ false
beq-of-length s t h = elim (Bool-cases (s == t)) [
  | inl e ↦ absurd (omega (arith, ap length ((eq_iff s t).0 e)))
  | inr e ↦ e
]

-- A component stays clean when a text of three bytes or more is appended to it.
IsName-append : (c t : Text) → 2 < length t → IsName (c ++ t)
IsName-append c t h = record {
  nonempty = beq-of-length (c ++ t) [] (omega (arith, length-append {0} c t));
  not_dot = beq-of-length (c ++ t) (codes ".") (omega (arith, length-append {0} c t));
  not_dots = beq-of-length (c ++ t) (codes "..") (omega (arith, length-append {0} c t));
}

pub append_text-All :
    (cs : List Text) (t : Text) → 2 < length t → All IsName cs → All IsName (append_text cs t)
unfolding append_text
append_text-All [] t h a = (IsName-append [] t h, tt)
append_text-All (c ∷ []) t h a = (IsName-append c t h, tt)
append_text-All (c ∷ d ∷ cs) t h a = (a.0, append_text-All (d ∷ cs) t h a.1)

pub append_text-append :
    (p : FilePath) (c : Text) (cs : List Text) (t : Text)
    → append_text (p ++ c ∷ cs) t ≡ p ++ append_text (c ∷ cs) t
unfolding append_text
append_text-append [] c cs t = refl
append_text-append (d ∷ []) c cs t = refl
append_text-append (d ∷ e ∷ p) c cs t = ap (λ q. d ∷ q) (append_text-append (e ∷ p) c cs t)

-- Appending a text makes another path.
pub append_text-ne :
    (c : Text) (cs : List Text) (t : Text) → 0 < length t → append_text (c ∷ cs) t ≢ c ∷ cs
unfolding append_text
append_text-ne c [] t h e = absurd (omega (arith, length-append {0} c t, ap length (head-eq e)))
append_text-ne c (d ∷ cs) t h e = append_text-ne d cs t h (tail-eq e)

append_text-nonempty : (c : Text) (cs : List Text) (t : Text) → append_text (c ∷ cs) t ≢ []
unfolding append_text
append_text-nonempty c [] t e = cc
append_text-nonempty c (d ∷ cs) t e = cc

has_prefix-nil : (t : Text) → has_prefix t [] ≡ true
unfolding has_prefix
has_prefix-nil [] = refl
has_prefix-nil (c ∷ t) = refl

-- Appending the same text to two paths keeps them apart.
pub append_text-injective :
    (c d : Text) (cs ds : List Text) (t : Text)
    → append_text (c ∷ cs) t ≡ append_text (d ∷ ds) t
    → c ∷ cs ≡ d ∷ ds
unfolding append_text
append_text-injective c d [] [] t e = ap (λ x. x ∷ []) (append_cancel_right c d t (head-eq e))
append_text-injective c d [] (y ∷ ds) t e = absurd (append_text-nonempty y ds t (sym (tail-eq e)))
append_text-injective c d (x ∷ cs) [] t e = absurd (append_text-nonempty x cs t (tail-eq e))
append_text-injective c d (x ∷ cs) (y ∷ ds) t e =
    cc (head-eq e, append_text-injective x y cs ds t (tail-eq e))

base_name-append_text :
    (c : Text) (cs : List Text) (t : Text)
    → base_name (append_text (c ∷ cs) t) ≡ base_name (c ∷ cs) ++ t
unfolding base_name append_text
base_name-append_text c [] t = refl
base_name-append_text c (d ∷ []) t = refl
base_name-append_text c (d ∷ e ∷ cs) t = base_name-append_text d (e ∷ cs) t

has_prefix-append : (s t : Text) → has_prefix (s ++ t) s ≡ true
unfolding has_prefix
has_prefix-append [] t = has_prefix-nil t
has_prefix-append (c ∷ s) t = ground (arith, has_prefix-append s t)

-- A path that a text was appended to ends in that text.
pub path_has_suffix-append_text :
    (c : Text) (cs : List Text) (t : Text) → path_has_suffix (append_text (c ∷ cs) t) t ≡ true
unfolding path_has_suffix has_suffix
path_has_suffix-append_text c cs t =
    rw (base_name-append_text c cs t, reverse-append (base_name (c ∷ cs)) t)
      (has_prefix-append (reverse t) (reverse (base_name (c ∷ cs))))

pub base_name-append :
    (p : FilePath) (c : Text) (cs : List Text) → base_name (p ++ c ∷ cs) ≡ base_name (c ∷ cs)
unfolding base_name
base_name-append [] c cs = refl
base_name-append (d ∷ []) c cs = refl
base_name-append (d ∷ e ∷ p) c cs = base_name-append (e ∷ p) c cs

add_byte-ne : {c : ℕ} {s : Text} → [] ≡ c ∷ s → ⊥
add_byte-ne e = cc

-- A text without a slash is the first component of what is joined to it.
pub split-whole :
    (s k : Text) → split slash s ≡ s ∷ [] → split slash (s ++ slash ∷ k) ≡ s ∷ split slash k
unfolding split add_byte
split-whole [] k e = refl
split-whole (c ∷ s) k e = elim (Bool-cases (c == slash)) [
  | inl b ↦ absurd (add_byte-ne (head-eq (rw b at e)))
  | inr b ↦
      let (p, ps, q) = split-cons slash s in
      let e' = rw (b, q) at e in let ih = split-whole s k (cc (q, e')) in rw b (rw ih)
]

pub append_text-split :
    (c k t : Text) → append_text (c ∷ split slash k) t ≡ c ∷ append_text (split slash k) t
unfolding append_text
append_text-split c k t = let (p, ps, q) = split-cons slash k in rw q

pub path_has_suffix-below :
    (base : FilePath) (c : Text) (cs : List Text) (t : Text)
    → path_has_suffix (append_text (base ++ c ∷ cs) t) t ≡ true
path_has_suffix-below [] c cs t = path_has_suffix-append_text c cs t
path_has_suffix-below (b ∷ bs) c cs t = path_has_suffix-append_text b (bs ++ c ∷ cs) t

-- Appending to a path of several components leaves the first; one component stays one.
pub append_text-head :
    (c : Text) (cs : List Text) (t x y : Text) (ys : List Text)
    → append_text (c ∷ cs) t ≡ x ∷ y ∷ ys
    → c ≡ x
unfolding append_text
append_text-head c [] t x y ys e = cc
append_text-head c (d ∷ cs) t x y ys e = head-eq e
