-- ===== src/Common/Replaced.antt =====
-- Lists of which one member at a time is replaced by what it becomes, and when they come to an end.
use mathlib.Core.Path.{◌≡◌, refl, sym, ap, subst, ◌∙◌}
use mathlib.Core.List.{List, [], ◌∷◌, ◌++◌, Memᴰ}
use mathlib.Core.WellFounded.{Acc}
use native.Mathlib.Omega.{arith}

module _ {ℓ κ} {A : Type ℓ} (Becomes : A → List A → Type κ) where
  -- One of what a member becomes.
  abbrev pub Below : A → A → Type (ℓ ⊔ κ)
  Below y x = (new : List A) × Becomes x new × Memᴰ y new

  abbrev pub Replaced : List A → List A → Type (ℓ ⊔ κ)
  Replaced ys xs =
      (before after new : List A) × (x : A) × (xs ≡ before ++ (x ∷ after))
      × Becomes x new
      × (ys ≡ before ++ (new ++ after))

  -- Such an entry may stand before every list that comes to an end.
  abbrev Stands : A → Type (ℓ ⊔ κ)
  Stands x = (xs : List A) → Acc Replaced xs → Acc Replaced (x ∷ xs)

  stand_before :
      (new xs : List A)
      → ((y : A) → Memᴰ y new → Stands y)
      → Acc Replaced xs
      → Acc Replaced (new ++ xs)
  stand_before [] xs each ends = ends
  stand_before (y ∷ new) xs each ends =
      each y (Memᴰ.head refl) (new ++ xs) (stand_before new xs (λ z m. each z (Memᴰ.tail m)) ends)

  -- What stands before a list that comes to an end is replaced itself, or the list is.
  Replaced-cons :
      (x : A) (xs : List A)
      → ((y : A) → Below y x → Stands y)
      → Acc Replaced xs
      → ((ys : List A) → Replaced ys xs → Acc Replaced (x ∷ ys))
      → (ys : List A) → Replaced ys (x ∷ xs)
      → Acc Replaced ys
  Replaced-cons x xs below ends again ys ([], after, new, z, e, becomes, same) =
      let head : x ≡ z = ground arith in
      let tail : xs ≡ after = ground arith in
      subst (Acc Replaced) (sym same) (
        stand_before new after
          (λ y m. below y (new, subst (λ a. Becomes a new) (sym head) becomes, m))
          (subst (Acc Replaced) tail ends))
  Replaced-cons x xs below ends again ys (y ∷ before, after, new, z, e, becomes, same) =
      let head : x ≡ y = ground arith in
      let tail : xs ≡ before ++ (z ∷ after) = ground arith in
      let rest = before ++ (new ++ after) in
      subst (Acc Replaced) (ap (λ a. a ∷ rest) head ∙ sym same)
        (again rest (before, after, new, z, tail, becomes, refl))

  Stands-Below : (x : A) → ((y : A) → Below y x → Stands y) → Stands x
  Stands-Below x below xs (Acc.intro _ rest) =
      Acc.intro (x ∷ xs)
        (Replaced-cons x xs below (Acc.intro xs rest) (λ ys r. Stands-Below x below ys (rest ys r)))

  Stands-Acc : (x : A) → Acc Below x → Stands x
  Stands-Acc x (Acc.intro _ below) = Stands-Below x (λ y b. Stands-Acc y (below y b))

  -- If every member comes to an end, so does the list.
  pub Replaced-Acc : ((x : A) → Acc Below x) → (xs : List A) → Acc Replaced xs
  Replaced-Acc each [] = Acc.intro [] none_left
    where
      none_left : (ys : List A) → Replaced ys [] → Acc Replaced ys
      none_left ys ([], after, new, z, e, becomes, same) = cc
      none_left ys (y ∷ before, after, new, z, e, becomes, same) = cc
  Replaced-Acc each (x ∷ xs) = Stands-Acc x (each x) xs (Replaced-Acc each xs)
