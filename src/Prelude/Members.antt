-- ===== src/Prelude/Members.antt =====
-- Members of lists that a loop gathers.
use mathlib.Core.Path.{refl, subst}
use mathlib.Core.Logic.{inl, inr}
use mathlib.Core.List.{List, [], ◌∷◌, flat_map, Memᴰ}
use mathlib.Core.List.Memᴰ

module _ {ℓ κ} {A : Type ℓ} {B : Type κ} (f : A → List B) where
  pub flat_map_member :
      (xs : List A) {b : B} → Memᴰ b (flat_map f xs) → (a : A) × Memᴰ a xs × Memᴰ b (f a)
  unfolding flat_map
  flat_map_member [] m = elim m [ ]
  flat_map_member (x ∷ xs) m = elim (Memᴰ.append_cases (f x) m) [
    | inl here ↦ (x, Memᴰ.head refl, here)
    | inr there ↦ let (a, among, made) = flat_map_member xs there in (a, Memᴰ.tail among, made)
  ]

  pub member_flat_map :
      {a : A} {b : B} {xs : List A} → Memᴰ a xs → Memᴰ b (f a) → Memᴰ b (flat_map f xs)
  unfolding flat_map
  member_flat_map {b} (Memᴰ.head {xs} e) made =
      Memᴰ.append_left (flat_map f xs) (subst (λ x. Memᴰ b (f x)) e made)
  member_flat_map (Memᴰ.tail {x} among) made = Memᴰ.append_right (f x) (member_flat_map among made)
