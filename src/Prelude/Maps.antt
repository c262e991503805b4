-- ===== src/Prelude/Maps.antt =====
-- `HashMap` and `HashSet` as lists: a key stands once in a map, a member once in a set.
use mathlib.Core.Path.{◌≡◌, refl, sym}
use mathlib.Core.Logic.{◌↔◌, inl, inr}
use mathlib.Core.Bool.{Bool, true, false, ◌||◌}
use mathlib.Core.Option.{Option, none, some}
use mathlib.Core.List.{List, [], ◌∷◌, Memᴰ}
use mathlib.Core.List.Memᴰ
use native.Mathlib.Omega.{arith}
use privadex.Prelude.Tests.{PartialEq, ◌==◌, if◌then◌else◌, Bool-cases}

module _ {ℓ κ} {K : Type ℓ} {V : Type κ} ⦃e : PartialEq K⦄ where
  unfoldable pub get : K → List (K × V) → Option V
  get k [] = none
  get k ((j, v) ∷ m) = if j == k then some v else get k m

  unfoldable pub insert : K → V → List (K × V) → List (K × V)
  insert k v [] = (k, v) ∷ []
  insert k v ((j, w) ∷ m) = if j == k then (k, v) ∷ m else (j, w) ∷ insert k v m

  pub get-insert :
      (k j : K) (v : V) (m : List (K × V))
      → get j (insert k v m) ≡ (if k == j then some v else get j m)
  unfolding get insert
  get-insert k j v [] = refl
  get-insert k j v ((i, w) ∷ m) =
      ground (arith, e.eq_iff k j, e.eq_iff i k, e.eq_iff i j, get-insert k j v m)

  unfoldable pub erase : K → List (K × V) → List (K × V)
  erase k [] = []
  erase k ((j, v) ∷ m) = let rest = erase k m in if j == k then rest else (j, v) ∷ rest

  pub get-erase_other :
      (k j : K) (m : List (K × V)) → (k == j) ≡ false → get j (erase k m) ≡ get j m
  unfolding get erase
  get-erase_other k j [] h = refl
  get-erase_other k j ((i, w) ∷ m) h =
      ground (arith, e.eq_iff k j, e.eq_iff i k, e.eq_iff i j, get-erase_other k j m h)

module _ {ℓ} {A : Type ℓ} ⦃e : PartialEq A⦄ where
  unfoldable pub contains : A → List A → Bool
  contains a [] = false
  contains a (x ∷ xs) = x == a || contains a xs

  unfoldable pub add : A → List A → List A
  unfolding contains
  add a xs = if contains a xs then xs else a ∷ xs

  unfoldable pub remove : A → List A → List A
  remove a [] = []
  remove a (x ∷ xs) = if x == a then xs else x ∷ remove a xs

  pub contains_iff : (a : A) (xs : List A) → (contains a xs ≡ true) ↔ Memᴰ a xs
  unfolding contains
  contains_iff a [] = (λ h. cc, λ m. absurd (Memᴰ.not-nil m))
  contains_iff a (x ∷ xs) = elim (Bool-cases (x == a)) [
    | inl same ↦ (λ h. Memᴰ.head (sym ((e.eq_iff x a).0 same)), λ m. rw same)
    | inr other ↦ (
      λ h. Memᴰ.tail ((contains_iff a xs).0 (ground arith)),
      λ m. elim (Memᴰ.cases_cons m) [
        | inl same ↦ rw ((e.eq_iff x a).1 (sym same))
        | inr more ↦ ground (arith, (contains_iff a xs).1 more)
      ],
    )
  ]

  pub contains-false : (a : A) (xs : List A) → (Memᴰ a xs → ⊥) → contains a xs ≡ false
  contains-false a xs h = elim (Bool-cases (contains a xs)) [
    | inl here ↦ absurd (h ((contains_iff a xs).0 here))
    | inr gone ↦ gone
  ]

  pub add_new : (a : A) (xs : List A) → contains a xs ≡ false → add a xs ≡ a ∷ xs
  unfolding add
  add_new a xs h = rw h

  pub remove-cons : (a : A) (xs : List A) → remove a (a ∷ xs) ≡ xs
  unfolding remove
  remove-cons a xs = rw ((e.eq_iff a a).1 refl)
