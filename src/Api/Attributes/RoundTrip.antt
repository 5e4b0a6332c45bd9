-- ===== src/Api/Attributes/RoundTrip.antt =====
-- handleGetAttr after handleSetAttr (internal/api/api.go).
use proxs.S3client.Library.{Sdk, IsLawful}
use mathlib.Core.List.{Memᴰ}
use mathlib.Core.List.Memᴰ
use mathlib.Core.Option.{some_inj}
use proxs.Prelude.{
  sym, subst, eq_refl, Option-cases, ◌↔◌, ap, ◌∙◌, Bool-cases, false, ◌≡◌, refl, inl, inr, true,
  Option, none, some, List, [], ◌∷◌, map, arith, if◌then◌else◌, ◌==◌, eq_iff, nat_eq, list_eq, Text,
  lookup, IsMap, insert, lookup-insert, insert-IsMap, lookup-erase, erase-IsMap,
}
use proxs.S3client.{to_text, tag_map, get_object_tagging, put_object_tagging}
use proxs.S3client.Laws.{answer_cases}
use proxs.Api.Attributes.{change_tag, tags_or_none, handle_get_attr, handle_set_attr}

tag_map-IsMap :
    (read : List (Option Text × Option Text)) (tags : List (Text × Text))
    → IsMap tags
    → IsMap (tag_map read tags)
unfolding tag_map
tag_map-IsMap [] tags m = m
tag_map-IsMap ((k, v) ∷ read) tags m =
    tag_map-IsMap read (insert (to_text k) (to_text v) tags)
      (insert-IsMap (to_text k) (to_text v) tags m)

abbrev lifted : List (Text × Text) → List (Option Text × Option Text)
lifted = map λ (t : Text × Text). (some t.0, some t.1)

lifted_member :
    (tags : List (Text × Text)) {t : Option Text × Option Text}
    → Memᴰ t (lifted tags)
    → (p : Text × Text) × Memᴰ p tags × (t ≡ (some p.0, some p.1))
lifted_member [] m = elim m [ ]
lifted_member (p ∷ tags) (Memᴰ.head e) = (p, Memᴰ.head refl, e)
lifted_member (p ∷ tags) (Memᴰ.tail m) =
    let (q, among, e) = lifted_member tags m in (q, Memᴰ.tail among, e)

-- A key that no tag has is left as it was.
tag_map-absent :
    (other : Text) (read : List (Option Text × Option Text)) (before : List (Text × Text))
    → ((t : Option Text × Option Text) → Memᴰ t read → (to_text t.0 == other) ≡ false)
    → lookup other (tag_map read before) ≡ lookup other before
unfolding tag_map
tag_map-absent other [] before n = refl
tag_map-absent other ((k, v) ∷ read) before n = ground (
  arith,
  tag_map-absent other read (insert (to_text k) (to_text v) before) (λ t m. n t (Memᴰ.tail m)),
  lookup-insert (to_text k) (to_text v) other before,
  n (k, v) (Memᴰ.head refl),
)

-- Some tag has the key, or the map had it before.
data IsThere (other v : Text) (read : List (Option Text × Option Text))
    (before : List (Text × Text)) : Type 0 where
  among :
      (t : Option Text × Option Text)
      → Memᴰ t read
      → (to_text t.0 == other) ≡ true
      → IsThere other v read before
  earlier : lookup other before ≡ some v → IsThere other v read before

-- The order of the tags does not matter where those of a key have one value.
tag_map-value :
    (other v : Text) (read : List (Option Text × Option Text)) (before : List (Text × Text))
    → ((t : Option Text × Option Text)
        → Memᴰ t read
        → (to_text t.0 == other) ≡ true
        → to_text t.1 ≡ v)
    → IsThere other v read before
    → lookup other (tag_map read before) ≡ some v
unfolding tag_map
tag_map-value other v [] before one (among t m e) = elim m [ ]
tag_map-value other v [] before one (earlier e) = e
tag_map-value other v ((k, w) ∷ read) before one there =
    tag_map-value other v read (insert (to_text k) (to_text w) before) (λ t m. one t (Memᴰ.tail m))
      (elim (Bool-cases (to_text k == other)) [
        | inl y ↦ earlier (
            ground (
              arith,
              lookup-insert (to_text k) (to_text w) other before,
              one (k, w) (Memᴰ.head refl) y,
            ))
        | inr n ↦ moved n there
      ])
  where
    moved :
        (to_text k == other) ≡ false
        → IsThere other v ((k, w) ∷ read) before
        → IsThere other v read (insert (to_text k) (to_text w) before)
    moved n (among t (Memᴰ.head q) e) =
        cc (ap (λ (x : Option Text × Option Text). to_text x.0 == other) q, n, e)
    moved n (among t (Memᴰ.tail m) e) = among t m e
    moved n (earlier e) =
        earlier (ground (arith, lookup-insert (to_text k) (to_text w) other before))

lookup-absent :
    (other : Text) (tags : List (Text × Text)) {p : Text × Text}
    → lookup other tags ≡ none
    → Memᴰ p tags
    → (p.0 == other) ≡ false
lookup-absent other [] e m = elim m [ ]
lookup-absent other ((k, v) ∷ tags) e (Memᴰ.head q) =
    ap (λ (x : Text × Text). x.0 == other) q ∙ ground arith
lookup-absent other ((k, v) ∷ tags) e (Memᴰ.tail m) = lookup-absent other tags (ground arith) m

member-lookup :
    (other : Text) (tags : List (Text × Text)) {p : Text × Text}
    → IsMap tags
    → Memᴰ p tags
    → (p.0 == other) ≡ true
    → lookup other tags ≡ some p.1
member-lookup other [] i m e = elim m [ ]
member-lookup other ((k, v) ∷ tags) i (Memᴰ.head q) e =
    ground (arith, ap (λ (x : Text × Text). x.0 == other) q, ap (λ (x : Text × Text). x.1) q)
member-lookup other ((k, v) ∷ tags) {p} i (Memᴰ.tail m) e =
    ground (arith, member-lookup other tags i.1 m e, i.0, eq_iff k other)

lookup-member :
    (other v : Text) (tags : List (Text × Text)) → lookup other tags ≡ some v → Memᴰ (other, v) tags
lookup-member other v [] e = cc e
lookup-member other v ((k, w) ∷ tags) e = elim (Bool-cases (k == other)) [
  | inl y ↦ Memᴰ.head (ground (arith, (eq_iff k other).0 y))
  | inr n ↦ Memᴰ.tail (lookup-member other v tags (ground arith))
]

-- What a change of an attribute makes of another or the same one.
abbrev pub changed_value : Text → Text → Text → Option Text → Option Text
changed_value attr value other old =
    if attr == other then (if value == [] then none else some value) else old

change_tag-IsMap :
    (attr value : Text) (tags : List (Text × Text))
    → IsMap tags
    → IsMap (change_tag attr value tags)
unfolding change_tag
change_tag-IsMap attr value tags m =
    ground (arith, erase-IsMap attr tags m, insert-IsMap attr value tags m)

lookup-change_tag :
    (attr value other : Text) (tags : List (Text × Text))
    → lookup other (change_tag attr value tags) ≡ changed_value attr value other (lookup other tags)
unfolding change_tag
lookup-change_tag attr value other tags =
    ground (arith, lookup-erase attr other tags, lookup-insert attr value other tags)

old-IsMap :
    ⦃sdk : Sdk⦄ (key : Text) (s : sdk.State) → IsMap (tags_or_none (get_object_tagging key s))
unfolding get_object_tagging
old-IsMap ⦃sdk = sdk⦄ key s = elim (answer_cases (sdk.tagging key s)) [
  | inl (e, r) ↦ rw (r, get_object_tagging) tt
  | inr (read, r) ↦ rw (r, get_object_tagging) (tag_map-IsMap read [] tt)
]

-- What is read of a set of tags, in any order.
lookup-tag_map :
    (other : Text) (tags : List (Text × Text)) (raw : List (Option Text × Option Text))
    → IsMap tags
    → ((t : Option Text × Option Text) → Memᴰ t raw ↔ Memᴰ t (lifted tags))
    → lookup other (tag_map raw []) ≡ lookup other tags
lookup-tag_map other tags raw i same = elim (Option-cases (lookup other tags)) [
  | inl n ↦
      tag_map-absent other raw [] (λ t m.
        let (p, among_tags, e) = lifted_member tags ((same t).0 m) in
        ap (λ (x : Option Text × Option Text). to_text x.0 == other) e
        ∙ lookup-absent other tags n among_tags)
      ∙ sym n
  | inr (v, e) ↦
      tag_map-value other v raw []
        (λ t m k.
          let (p, among_tags, q) = lifted_member tags ((same t).0 m) in
          let at = ap (λ (x : Option Text × Option Text). to_text x.0 == other) q in
          ap (λ (x : Option Text × Option Text). to_text x.1) q
          ∙ some_inj.0 (sym (member-lookup other tags i among_tags (sym at ∙ k)) ∙ e))
        (among (some other, some v) ((same _).1 (Memᴰ.map _ (lookup-member other v tags e)))
          (eq_refl other))
      ∙ sym e
]

module _ ⦃sdk : Sdk⦄ (laws : IsLawful sdk) where
  put-get_tagging :
      (key other : Text) (tags read : List (Text × Text)) (s : sdk.State)
      → IsMap tags
      → (put_object_tagging key tags s).0 ≡ true
      → get_object_tagging key (put_object_tagging key tags s).1 ≡ some read
      → lookup other read ≡ lookup other tags
  unfolding put_object_tagging get_object_tagging
  put-get_tagging key other tags read s i p g = elim (answer_cases (sdk.put_tagging key tags s).0) [
    | inl (e, r) ↦ ground arith
    | inr (u, r) ↦ elim (answer_cases (sdk.tagging key (sdk.put_tagging key tags s).1)) [
      | inl (e, t) ↦ ground arith
      | inr (raw, t) ↦
          let at : tag_map raw [] ≡ read = ground arith in
          subst (λ x. lookup other x ≡ lookup other tags) at
            (lookup-tag_map other tags raw i (laws.tagging_reads key tags s raw r t))
    ]
  ]

  -- After an attribute was set, or deleted by an empty value, and the answer was ok, whatever is
  -- read has the new value of the attribute, and of every other one the value that it had before
  -- if the tags could be read then, or else none: a failed read drops the other attributes.
  pub handle_get_attr-handle_set_attr :
      (key attr value other : Text) (read : List (Text × Text)) (s : sdk.State)
      → (handle_set_attr key attr value s).0 ≡ true
      → handle_get_attr key (handle_set_attr key attr value s).1 ≡ some read
      → lookup other read
        ≡ changed_value attr value other (lookup other (tags_or_none (handle_get_attr key s)))
  unfolding handle_set_attr handle_get_attr
  handle_get_attr-handle_set_attr key attr value other read s p g =
      let old = tags_or_none (get_object_tagging key s) in
      put-get_tagging key other (change_tag attr value old) read s
        (change_tag-IsMap attr value old (old-IsMap key s)) p g
      ∙ lookup-change_tag attr value other old
