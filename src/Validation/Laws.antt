-- ===== src/Validation/Laws.antt =====
-- What the validators let through.
use istanbulmcp.Prelude.{
  ℕ, suc, ◌+◌, ◌≤◌, ◌<◌, Bool, true, ◌≡◌, ◌⊎◌, inl, inr, refl, Option, none, some, List, [], ◌∷◌,
  All, length, arith,
}
use istanbulmcp.Prelude.Int.{ℤ, pos, ◌≤ℤ◌}
use istanbulmcp.Validation.{
  Validated, accepts, raises, Float, nan, number, between, lt_float, resolve_limit, validate_text,
  Item, text, plain, null, unsupported, FilterValue, item, items, validate_item, validate_items,
  validate_filter_value, set_filter, validate_entries, validate_filters, Box, validate_bbox,
}

-- A limit that comes out lies between one and the maximum, and is the one asked for, or the default
-- if none was: an explicit zero is no request for the default.
pub resolve_limit_sound :
    (limit : Option ℤ) (default_limit max_limit n : ℤ)
    → resolve_limit limit default_limit max_limit ≡ accepts n
    → (pos 1 ≤ℤ n) × (n ≤ℤ max_limit) × ((limit ≡ some n) ⊎ ((limit ≡ none) × (n ≡ default_limit)))
unfolding resolve_limit
resolve_limit_sound none d m n h = (ground arith, ground arith, inr (refl, ground arith))
resolve_limit_sound (some k) d m n h = (ground arith, ground arith, inl (ground arith))

-- An accepted box has corners on the globe, and its lower corner lies strictly below and to the left
-- of its upper one; in particular no coordinate is not a number.
pub validate_bbox_sound :
    (values : List Float) (b : Box)
    → validate_bbox values ≡ accepts b
    → (between 180 b.min_lon ≡ true)
      × (between 90 b.min_lat ≡ true)
      × (between 180 b.max_lon ≡ true)
      × (between 90 b.max_lat ≡ true)
      × (lt_float b.min_lon b.max_lon ≡ true)
      × (lt_float b.min_lat b.max_lat ≡ true)
unfolding validate_bbox
validate_bbox_sound (number a ∷ number b ∷ number c ∷ number d ∷ []) box h = ground arith
validate_bbox_sound (nan ∷ b ∷ c ∷ d ∷ []) box h = ground arith
validate_bbox_sound (a ∷ nan ∷ c ∷ d ∷ []) box h = ground arith
validate_bbox_sound (a ∷ b ∷ nan ∷ d ∷ []) box h = ground arith
validate_bbox_sound (a ∷ b ∷ c ∷ nan ∷ []) box h = ground arith
validate_bbox_sound _ box h = ground arith

module _ (max_key max_value max_list : ℕ) where
  abbrev IsSmallItem : Item → Type 0
  IsSmallItem (text s) = length s ≤ max_value
  IsSmallItem (plain n) = Unit
  IsSmallItem null = Unit
  IsSmallItem unsupported = ⊥

  abbrev pub IsSmall : FilterValue → Type 0
  IsSmall (item x) = IsSmallItem x
  IsSmall (items xs) = (length xs ≤ max_list) × All IsSmallItem xs

  abbrev pub IsSafe : List ℕ × FilterValue → Type 0
  IsSafe (k, v) = (0 < length k) × (length k ≤ max_key) × IsSmall v

  validate_item-IsSmall :
      (x y : Item) → validate_item max_value max_list x ≡ accepts y → IsSmallItem y
  unfolding validate_item validate_text
  validate_item-IsSmall (text s) y h = go (validate_text s "filters" max_value 0) refl
    where
      go : (r : Validated (List ℕ)) → validate_text s "filters" max_value 0 ≡ r → IsSmallItem y
      go (accepts t) e = ground arith
      go (raises x) e = ground arith
  validate_item-IsSmall (plain n) y h = ground arith
  validate_item-IsSmall null y h = ground arith
  validate_item-IsSmall unsupported y h = absurd (cc)

  validate_items-All :
      (xs ys : List Item)
      → validate_items max_value max_list xs ≡ accepts ys
      → (length ys ≡ length xs) × All IsSmallItem ys
  unfolding validate_items
  validate_items-All [] ys h = ground arith
  validate_items-All (x ∷ xs) ys h =
      go (validate_item max_value max_list x) refl (validate_items max_value max_list xs) refl
        (validate_items-All xs)
    where
      go :
          (r : Validated Item)
          → validate_item max_value max_list x ≡ r
          → (q : Validated (List Item)) → validate_items max_value max_list xs ≡ q
          → ((zs : List Item)
              → validate_items max_value max_list xs ≡ accepts zs
              → (length zs ≡ length xs) × All IsSmallItem zs)
          → (length ys ≡ suc (length xs)) × All IsSmallItem ys
      go (accepts y) e (accepts zs) f ih = ground (arith, validate_item-IsSmall x y e, ih zs f)
      go (accepts y) e (raises z) f ih = ground arith
      go (raises z) e q f ih = ground arith

  set_filter-All :
      (k : List ℕ) (v : FilterValue) (fs : List (List ℕ × FilterValue))
      → IsSafe (k, v)
      → All IsSafe fs
      → All IsSafe (set_filter k v fs) × (length (set_filter k v fs) ≤ suc (length fs))
  unfolding set_filter
  set_filter-All k v [] h a = ground arith
  set_filter-All k v ((j, w) ∷ fs) h a = ground (arith, set_filter-All k v fs h a.1)

  validate_filter_value-IsSmall :
      (v w : FilterValue) → validate_filter_value max_value max_list v ≡ accepts w → IsSmall w
  unfolding validate_filter_value
  validate_filter_value-IsSmall (item x) w h = go (validate_item max_value max_list x) refl
    where
      go : (r : Validated Item) → validate_item max_value max_list x ≡ r → IsSmall w
      go (accepts y) e = ground (arith, validate_item-IsSmall x y e)
      go (raises z) e = ground arith
  validate_filter_value-IsSmall (items xs) w h = go (validate_items max_value max_list xs) refl
    where
      go : (r : Validated (List Item)) → validate_items max_value max_list xs ≡ r → IsSmall w
      go (accepts ys) e = ground (arith, validate_items-All xs ys e)
      go (raises z) e = ground arith

  validate_entries-All :
      (is_word : ℕ → Bool) (entries safe r : List (List ℕ × FilterValue))
      → validate_entries max_value max_list is_word max_key entries safe ≡ accepts r
      → All IsSafe safe
      → All IsSafe r × (length r ≤ length entries + length safe)
  unfolding validate_entries validate_text
  validate_entries-All is_word [] safe r h a = ground arith
  validate_entries-All is_word ((key, value) ∷ rest) safe r h a =
      go (validate_filter_value max_value max_list value) refl
        (validate_text key "filters" max_key 1) refl (validate_entries-All is_word rest)
    where
      go :
          (q : Validated FilterValue)
          → validate_filter_value max_value max_list value ≡ q
          → (t : Validated (List ℕ)) → validate_text key "filters" max_key 1 ≡ t
          → ((safe r : List (List ℕ × FilterValue))
              → validate_entries max_value max_list is_word max_key rest safe ≡ accepts r
              → All IsSafe safe
              → All IsSafe r × (length r ≤ length rest + length safe))
          → All IsSafe r × (length r ≤ suc (length rest) + length safe)
      go q e (raises z) f ih = ground arith
      go (raises z) e (accepts k) f ih = ground arith
      go (accepts v) e (accepts k) f ih =
          let small = validate_filter_value-IsSmall value v e in
          let stored = set_filter-All k v safe in
          ground (arith, small, stored, ih (set_filter k v safe) r)

  -- Accepted filters are no more than max_keys, under keys of 1 to max_key_length characters,
  -- with values that are short texts, other scalars, or short lists of these.
  pub validate_filters_sound :
      (is_word : ℕ → Bool) (max_keys : ℕ) (filters r : List (List ℕ × FilterValue))
      → validate_filters max_value max_list is_word max_keys max_key (some filters)
        ≡ accepts (some r)
      → (length r ≤ max_keys) × All IsSafe r
  unfolding validate_filters
  validate_filters_sound is_word max_keys filters r h =
      go (validate_entries max_value max_list is_word max_key filters []) refl
    where
      go :
          (q : Validated (List (List ℕ × FilterValue)))
          → validate_entries max_value max_list is_word max_key filters [] ≡ q
          → (length r ≤ max_keys) × All IsSafe r
      go (accepts fs) e = ground (arith, validate_entries-All is_word filters [] fs e tt)
      go (raises z) e = ground arith
