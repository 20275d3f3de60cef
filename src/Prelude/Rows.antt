-- ===== src/Prelude/Rows.antt =====
-- Rows that services keep once, sort and cut off: what Python's sets of seen keys, `sort(key=...)`
-- and `rows[:limit]` do with them.
use Prim.Native.Nat.{ℕ, zero, suc, ◌≤◌, min}
use mathlib.Core.Path.{subst, ◌≡◌, refl, ap, ◌∙◌}
use mathlib.Core.Logic.{◌↔◌, inl, inr}
use mathlib.Core.Bool.{Bool, true, false, ◌&&◌}
use mathlib.Core.Option.{Option, none, some}
use mathlib.Core.List.{List, [], ◌∷◌, ◌++◌, Perm, append_assoc}
use mathlib.Core.List.Perm
use native.Mathlib.Omega.{arith}
use istanbulmcp.Prelude.Tests.{if◌then◌else◌, leb, Bool-cases}
use istanbulmcp.Prelude.Lists.{take, length, any, All, length-take, All-map}
use istanbulmcp.Prelude.Int.{leb_ℤ}
use istanbulmcp.Prelude.Bytes.{same_bytes, same_bytes_iff}
use istanbulmcp.Prelude.Sort.{
  sort, insert, lex, IsOrder, IsSorted, sort-IsSorted, length-sort, lex-IsOrder, leb-IsOrder,
}

-- A part of a key: a text, or None.
abbrev pub Part : Type 0
Part = Option (List ℕ)

abbrev same_part : Part → Part → Bool
same_part none none = true
same_part none (some t) = false
same_part (some s) none = false
same_part (some s) (some t) = same_bytes s t

same_part_iff : (a b : Part) → (same_part a b ≡ true) ↔ (a ≡ b)
same_part_iff none none = ((λ h. refl), (λ h. refl))
same_part_iff none (some t) = ((λ h. cc), (λ h. cc))
same_part_iff (some s) none = ((λ h. cc), (λ h. cc))
same_part_iff (some s) (some t) =
    ((λ h. ap some ((same_bytes_iff s t).0 h)), (λ h. (same_bytes_iff s t).1 (cc)))

-- Equality of tuples of texts.
unfoldable pub same_key : List Part → List Part → Bool
same_key [] [] = true
same_key [] (b ∷ k) = false
same_key (a ∷ j) [] = false
same_key (a ∷ j) (b ∷ k) = same_part a b && same_key j k

pub same_key_iff : (j k : List Part) → (same_key j k ≡ true) ↔ (j ≡ k)
unfolding same_key
same_key_iff [] [] = ((λ h. refl), (λ h. refl))
same_key_iff [] (b ∷ k) = ((λ h. cc), (λ h. cc))
same_key_iff (a ∷ j) [] = ((λ h. cc), (λ h. cc))
same_key_iff (a ∷ j) (b ∷ k) = ground (arith, same_part_iff a b, same_key_iff j k)

module _ {ℓ} {A : Type ℓ} (key : A → List Part) where
  -- Whether a row's key is among those of some rows.
  abbrev pub is_seen : A → List A → Bool
  is_seen x seen = any (λ y. same_key (key y) (key x)) seen

  -- The loop that keeps the first row of each key.
  unfoldable pub unique_from : List A → List A → List A
  unique_from seen [] = []
  unique_from seen (x ∷ xs) =
      let skip = unique_from seen xs in
      let keep = x ∷ unique_from (seen ++ x ∷ []) xs in if is_seen x seen then skip else keep

  unfoldable pub unique : List A → List A
  unfolding unique_from
  unique xs = unique_from [] xs

  -- No two rows have one key.
  abbrev pub IsUnique : List A → Type 0
  IsUnique [] = Unit
  IsUnique (x ∷ xs) = All (λ y. same_key (key x) (key y) ≡ false) xs × IsUnique xs

  not_seen :
      (x y : A) (seen : List A)
      → is_seen y (seen ++ x ∷ []) ≡ false
      → (is_seen y seen ≡ false) × (same_key (key x) (key y) ≡ false)
  not_seen x y [] h = ground (arith, h)
  not_seen x y (z ∷ seen) h = ground (arith, h, not_seen x y seen)

  -- The rows that are kept have keys that were not seen, and no two of them one.
  unseen :
      (seen xs : List A)
      → All (λ y. is_seen y seen ≡ false) (unique_from seen xs) × IsUnique (unique_from seen xs)
  unfolding unique_from
  unseen seen [] = (tt, tt)
  unseen seen (x ∷ xs) = elim (Bool-cases (is_seen x seen)) [
    | inl e ↦ rw e (unseen seen xs)
    | inr e ↦
        let (new, distinct) = unseen (seen ++ x ∷ []) xs in
        let both = All-map (unique_from (seen ++ x ∷ []) xs) (λ y. not_seen x y seen) new in
        rw e ((e, All-map _ (λ y h. h.0) both), (All-map _ (λ y h. h.1) both, distinct))
  ]

  -- Nothing that holds of every row is lost.
  All-unique_from {κ} : (P : A → Type κ) (seen xs : List A) → All P xs → All P (unique_from seen xs)
  unfolding unique_from
  All-unique_from P seen [] a = tt
  All-unique_from P seen (x ∷ xs) a = elim (Bool-cases (is_seen x seen)) [
    | inl e ↦ rw e (All-unique_from P seen xs a.1)
    | inr e ↦ rw e ((a.0, All-unique_from P (seen ++ x ∷ []) xs a.1))
  ]

  pub unique-All {κ} : (P : A → Type κ) (xs : List A) → All P xs → All P (unique xs)
  unfolding unique
  unique-All P xs a = All-unique_from P [] xs a

  any_append :
      (p : A → Bool) (xs ys : List A) → any p (xs ++ ys) ≡ (if any p xs then true else any p ys)
  any_append p [] ys = refl
  any_append p (x ∷ xs) ys = ground (arith, any_append p xs ys)

  same_key_refl : (x : A) → same_key (key x) (key x) ≡ true
  same_key_refl x = (same_key_iff (key x) (key x)).1 refl

  -- Each row's key is among those seen before or kept.
  kept : (seen xs : List A) → All (λ y. is_seen y (seen ++ unique_from seen xs) ≡ true) xs
  unfolding unique_from
  kept seen [] = tt
  kept seen (x ∷ xs) = elim (Bool-cases (is_seen x seen)) [
    | inl e ↦
        let same : unique_from seen xs ≡ unique_from seen (x ∷ xs) = rw e refl in
        subst (λ rows. All (λ y. is_seen y (seen ++ rows) ≡ true) (x ∷ xs)) same
          (
            ground
                (arith, e, any_append (λ y. same_key (key y) (key x)) seen (unique_from seen xs)),
            kept seen xs,
          )
    | inr e ↦
        let later = unique_from (seen ++ x ∷ []) xs in
        let same : x ∷ later ≡ unique_from seen (x ∷ xs) = rw e refl in
        subst (λ rows. All (λ y. is_seen y (seen ++ rows) ≡ true) (x ∷ xs)) same
          (
            ground (
              arith,
              same_key_refl x,
              any_append (λ y. same_key (key y) (key x)) seen (x ∷ later),
            ),
            subst (λ rows. All (λ y. is_seen y rows ≡ true) xs) (append_assoc seen (x ∷ []) later)
                (kept (seen ++ x ∷ []) xs),
          )
  ]

  -- Each row's key is among those kept.
  pub unique-seen : (xs : List A) → All (λ y. is_seen y (unique xs) ≡ true) xs
  unfolding unique
  unique-seen xs = kept [] xs

  length-unique_from-le : (seen xs : List A) → length (unique_from seen xs) ≤ length xs
  unfolding unique_from
  length-unique_from-le seen [] = omega arith
  length-unique_from-le seen (x ∷ xs) =
      ground (arith, length-unique_from-le seen xs, length-unique_from-le (seen ++ x ∷ []) xs)

  pub length-unique-le : (xs : List A) → length (unique xs) ≤ length xs
  unfolding unique
  length-unique-le xs = length-unique_from-le [] xs

  pub unique-IsUnique : (xs : List A) → IsUnique (unique xs)
  unfolding unique
  unique-IsUnique xs = (unseen [] xs).1

-- `a <= b` of texts and of tuples of texts.
abbrev pub le_text : List ℕ → List ℕ → Bool
le_text = lex leb

abbrev pub le_texts : List (List ℕ) → List (List ℕ) → Bool
le_texts = lex le_text

pub le_texts-IsOrder : IsOrder le_texts
le_texts-IsOrder = lex-IsOrder le_text (lex-IsOrder leb leb-IsOrder)

pub leb_ℤ-IsOrder : IsOrder leb_ℤ
leb_ℤ-IsOrder = record {
  total = λ a b h. ground (arith, h);
  trans = λ a b c h k. ground (arith, h, k);
}

module _ {ℓ κ} {A : Type ℓ} {K : Type κ} where
  -- `a <= b` of keys.
  abbrev pub le_by : (K → K → Bool) → (A → K) → A → A → Bool
  le_by le key a b = le (key a) (key b)

  pub le_by-IsOrder : (le : K → K → Bool) (key : A → K) → IsOrder le → IsOrder (le_by le key)
  le_by-IsOrder le key o = record {
    total = λ a b. o.total (key a) (key b);
    trans = λ a b c. o.trans (key a) (key b) (key c);
  }

-- `a <= b` of pairs: the second part decides where the first parts are equal.
unfoldable pub then_by {ℓ} : {A : Type ℓ} → (A → A → Bool) → (A → A → Bool) → A → A → Bool
then_by le le' a b = if le a b then (if le b a then le' a b else true) else false

pub then_by-IsOrder {ℓ} :
    {A : Type ℓ} (le le' : A → A → Bool) → IsOrder le → IsOrder le' → IsOrder (then_by le le')
unfolding then_by
then_by-IsOrder le le' o o' = record {
  total = λ a b h. ground (arith, h, o.total a b, o.total b a, o'.total a b);
  trans = λ a b c h k.
      ground (arith, h, k, o.trans a b c, o.trans b c a, o.trans c a b, o'.trans a b c);
}

abbrev drop {ℓ} : {A : Type ℓ} → ℕ → List A → List A
drop zero xs = xs
drop (suc n) [] = []
drop (suc n) (x ∷ xs) = drop n xs

take-append-drop {ℓ} : {A : Type ℓ} (n : ℕ) (xs : List A) → take n xs ++ drop n xs ≡ xs
take-append-drop zero xs = refl
take-append-drop (suc n) [] = refl
take-append-drop (suc n) (x ∷ xs) = ap (λ l. x ∷ l) (take-append-drop n xs)

module _ {ℓ} {A : Type ℓ} (le : A → A → Bool) where
  insert-perm : (x : A) (xs : List A) → Perm (insert le x xs) (x ∷ xs)
  unfolding insert
  insert-perm x [] = Perm.refl (x ∷ [])
  insert-perm x (y ∷ ys) = elim (Bool-cases (le x y)) [
    | inl e ↦ rw e (Perm.refl (x ∷ y ∷ ys))
    | inr e ↦ rw e (Perm.trans (Perm.cons y (insert-perm x ys)) (Perm.swap x y ys))
  ]

  pub sort-perm : (xs : List A) → Perm (sort le xs) xs
  unfolding sort
  sort-perm [] = Perm.refl []
  sort-perm (x ∷ xs) = Perm.trans (insert-perm x (sort le xs)) (Perm.cons x (sort-perm xs))

  -- `shown` is the front of all rows in order, as many as the limit allows.
  pub record IsFront (limit : ℕ) (rows shown : List A) : Type ℓ where
    pub others : List A
    pub complete : Perm (shown ++ others) rows
    pub in_order : IsSorted le (shown ++ others)
    pub size : length shown ≡ min limit (length rows)

  pub sort-IsFront :
      (o : IsOrder le) (limit : ℕ) (rows : List A) → IsFront limit rows (take limit (sort le rows))
  sort-IsFront o limit rows =
      let whole = take-append-drop limit (sort le rows) in
      record {
        others = drop limit (sort le rows);
        complete = rw whole (sort-perm rows);
        in_order = rw whole (sort-IsSorted le o rows);
        size = length-take limit (sort le rows) ∙ ap (min limit) (length-sort le rows);
      }
