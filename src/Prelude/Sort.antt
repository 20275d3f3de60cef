-- ===== src/Prelude/Sort.antt =====
-- Python's stable sort of lists, and its comparison of tuples and texts.
use Prim.Native.Nat.{ℕ, zero, suc}
use mathlib.Core.Path.{◌≡◌, refl, sym, ap, ◌∙◌}
use mathlib.Core.Bool.{Bool, true, false}
use mathlib.Core.List.{List, [], ◌∷◌, ◌++◌}
use mathlib.Core.Logic.{inl, inr}
use native.Mathlib.Omega.{arith}
use istanbulmcp.Prelude.Tests.{if◌then◌else◌, leb, Bool-cases}
use istanbulmcp.Prelude.Lists.{take, length, All, All-take}

-- A test `a <= b` that compares any two elements.
pub record IsOrder {ℓ} {A : Type ℓ} (le : A → A → Bool) : Type ℓ where
  pub total : (a b : A) → le a b ≡ false → le b a ≡ true
  pub trans : (a b c : A) → le a b ≡ true → le b c ≡ true → le a c ≡ true

module _ {ℓ} {A : Type ℓ} (le : A → A → Bool) where
  unfoldable pub insert : A → List A → List A
  insert x [] = x ∷ []
  insert x (y ∷ ys) = if le x y then x ∷ y ∷ ys else y ∷ insert x ys

  -- `sorted(xs)`: equal elements keep their order.
  unfoldable pub sort : List A → List A
  unfolding insert
  sort [] = []
  sort (x ∷ xs) = insert x (sort xs)

  -- Two sorted lists in one; on equal elements the first list's comes first.
  unfoldable pub merge : List A → List A → List A
  merge [] ys = ys
  merge (x ∷ xs) [] = x ∷ xs
  merge (x ∷ xs) (y ∷ ys) = elim (le x y) [
    | true ↦ x ∷ merge xs (y ∷ ys)
    | false ↦ y ∷ merge (x ∷ xs) ys
  ]

  abbrev pub IsSorted : List A → Type 0
  IsSorted [] = Unit
  IsSorted (x ∷ xs) = All (λ y. le x y ≡ true) xs × IsSorted xs

  -- `a <= b` of Python tuples and texts, element by element.
  unfoldable pub lex : List A → List A → Bool
  lex [] ys = true
  lex (x ∷ xs) [] = false
  lex (x ∷ xs) (y ∷ ys) =
      let rest = lex xs ys in if le x y then (if le y x then rest else true) else false

  pub length-insert : (x : A) (xs : List A) → length (insert x xs) ≡ suc (length xs)
  unfolding insert
  length-insert x [] = refl
  length-insert x (y ∷ ys) = ground (arith, length-insert x ys)

  pub length-sort : (xs : List A) → length (sort xs) ≡ length xs
  unfolding sort
  length-sort [] = refl
  length-sort (x ∷ xs) = length-insert x (sort xs) ∙ ap suc (length-sort xs)

  pub All-insert {κ} : (P : A → Type κ) (x : A) (xs : List A) → P x → All P xs → All P (insert x xs)
  unfolding insert
  All-insert P x [] h a = (h, tt)
  All-insert P x (y ∷ ys) h a = elim (Bool-cases (le x y)) [
    | inl e ↦ rw e (h, a)
    | inr e ↦ rw e (a.0, All-insert P x ys h a.1)
  ]

  pub All-sort {κ} : (P : A → Type κ) (xs : List A) → All P xs → All P (sort xs)
  unfolding sort
  All-sort P [] a = tt
  All-sort P (x ∷ xs) a = All-insert P x (sort xs) a.0 (All-sort P xs a.1)

  module _ (o : IsOrder le) where
    insert-merge : (x : A) (xs ys : List A) → insert x (merge xs ys) ≡ merge (insert x xs) ys
    unfolding insert merge
    insert-merge x [] [] = refl
    insert-merge x [] (y ∷ ys) = ground (arith, insert-merge x [] ys)
    insert-merge x (z ∷ zs) [] = ground arith
    insert-merge x (z ∷ zs) (y ∷ ys) = ground (
      arith,
      insert-merge x zs (y ∷ ys),
      insert-merge x (z ∷ zs) ys,
      o.trans x z y,
      o.total z y,
      o.trans x y z,
    )

    -- Sorting two lists together is merging them sorted.
    pub sort-append : (xs ys : List A) → sort (xs ++ ys) ≡ merge (sort xs) (sort ys)
    unfolding sort merge
    sort-append [] ys = refl
    sort-append (x ∷ xs) ys = ap (insert x) (sort-append xs ys) ∙ insert-merge x (sort xs) (sort ys)

    below_all :
        (x y : A) (ys : List A)
        → le x y ≡ true
        → All (λ z. le y z ≡ true) ys
        → All (λ z. le x z ≡ true) ys
    below_all x y [] h a = tt
    below_all x y (z ∷ zs) h a = (o.trans x y z h a.0, below_all x y zs h a.1)

    insert-IsSorted : (x : A) (xs : List A) → IsSorted xs → IsSorted (insert x xs)
    unfolding insert
    insert-IsSorted x [] s = (tt, tt)
    insert-IsSorted x (y ∷ ys) s = elim (Bool-cases (le x y)) [
      | inl e ↦ rw e ((e, below_all x y ys e s.0), s)
      | inr e ↦
          rw e (All-insert (λ z. le y z ≡ true) x ys (o.total x y e) s.0, insert-IsSorted x ys s.1)
    ]

    pub sort-IsSorted : (xs : List A) → IsSorted (sort xs)
    unfolding sort
    sort-IsSorted [] = tt
    sort-IsSorted (x ∷ xs) = insert-IsSorted x (sort xs) (sort-IsSorted xs)

  -- A sorted list is its own sort.
  pub sort_of_IsSorted : (xs : List A) → IsSorted xs → sort xs ≡ xs
  unfolding sort insert
  sort_of_IsSorted [] s = refl
  sort_of_IsSorted (x ∷ []) s = refl
  sort_of_IsSorted (x ∷ y ∷ ys) s = ground (arith, sort_of_IsSorted (y ∷ ys) s.1)

  pub take-IsSorted : (n : ℕ) (xs : List A) → IsSorted xs → IsSorted (take n xs)
  take-IsSorted zero xs s = tt
  take-IsSorted (suc n) [] s = tt
  take-IsSorted (suc n) (x ∷ xs) s =
      (All-take (λ y. le x y ≡ true) n xs s.0, take-IsSorted n xs s.1)

  pub take-take : (n : ℕ) (xs : List A) → take n (take n xs) ≡ take n xs
  take-take zero xs = refl
  take-take (suc n) [] = refl
  take-take (suc n) (x ∷ xs) = ap (◌∷◌ x) (take-take n xs)

  take-cons_take : (n : ℕ) (x : A) (xs : List A) → take n (x ∷ take n xs) ≡ take n (x ∷ xs)
  take-cons_take zero x xs = refl
  take-cons_take (suc n) x [] = refl
  take-cons_take (suc n) x (y ∷ ys) = ap (◌∷◌ x) (take-cons_take n y ys)

  -- The front of a merge needs no more than the fronts of its parts.
  pub take-merge :
      (n : ℕ) (xs ys : List A) → take n (merge xs ys) ≡ take n (merge (take n xs) (take n ys))
  unfolding merge
  take-merge zero xs ys = refl
  take-merge (suc n) [] [] = refl
  take-merge (suc n) [] (y ∷ ys) = ap (◌∷◌ y) (sym (take-take n ys))
  take-merge (suc n) (x ∷ xs) [] = ap (◌∷◌ x) (sym (take-take n xs))
  take-merge (suc n) (x ∷ xs) (y ∷ ys) = elim (Bool-cases (le x y)) [
    | inl e ↦
        rw (e, merge)
          (ap (◌∷◌ x) (
            take-merge n xs (y ∷ ys)
            ∙ sym (
                take-merge n (take n xs) (y ∷ take n ys)
                ∙ (λ i. take n (merge (take-take n xs i) (take-cons_take n y ys i))))))
    | inr e ↦
        rw (e, merge)
          (ap (◌∷◌ y) (
            take-merge n (x ∷ xs) ys
            ∙ sym (
                take-merge n (x ∷ take n xs) (take n ys)
                ∙ (λ i. take n (merge (take-cons_take n x xs i) (take-take n ys i))))))
  ]

  pub lex-IsOrder : IsOrder le → IsOrder lex
  unfolding lex
  lex-IsOrder o = record { total = lex_total; trans = lex_trans }
    where
      lex_total : (xs ys : List A) → lex xs ys ≡ false → lex ys xs ≡ true
      lex_total [] ys h = absurd (cc)
      lex_total (x ∷ xs) [] h = refl
      lex_total (x ∷ xs) (y ∷ ys) h = ground (arith, o.total x y, lex_total xs ys)

      lex_trans : (xs ys zs : List A) → lex xs ys ≡ true → lex ys zs ≡ true → lex xs zs ≡ true
      lex_trans [] ys zs h k = refl
      lex_trans (x ∷ xs) [] zs h k = absurd (cc)
      lex_trans (x ∷ xs) (y ∷ ys) [] h k = absurd (cc)
      lex_trans (x ∷ xs) (y ∷ ys) (z ∷ zs) h k =
          ground (arith, o.trans x y z, o.trans y z x, o.trans z x y, lex_trans xs ys zs)

pub leb-IsOrder : IsOrder leb
leb-IsOrder = record { total = λ a b h. ground arith; trans = λ a b c h k. ground arith }
