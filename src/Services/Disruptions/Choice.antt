-- ===== src/Services/Disruptions/Choice.antt =====
-- app/services/disruptions.py: which sources and options a query chooses.
use mathlib.Core.Path.{subst}
use mathlib.Core.Option.{some-injective}
use istanbulmcp.Prelude.Bytes.{same_bytes, same_bytes_iff, strip}
use istanbulmcp.Prelude.{
  ◌⊎◌, sym, ap, ◌∙◌, String, none, some, All-map, find?, ◌<◌, Bool, true, false, ◌==◌, ◌≡◌, ◌↔◌,
  refl, Option, List, [], ◌∷◌, filter, any, length, All, Bool-cases, inl, inr, arith,
}
use istanbulmcp.Prelude.Rows.{}
use istanbulmcp.Validation.{Validated, accepts, raises, invalid, validate_text}
use istanbulmcp.Services.{Text, Python}
use istanbulmcp.Services.Page.{accepts-bind}
use istanbulmcp.Services.Disruptions.{
  fits, has_mode, SourceSpec, source_specs, is_selected, select_specs, normalize_choice,
  optional_text,
}

pub filter-All {ℓ} : {A : Type ℓ} (p : A → Bool) (xs : List A) → All (λ x. p x ≡ true) (filter p xs)
filter-All p [] = tt
filter-All p (x ∷ xs) =
    let rest = filter-All p xs in
    elim (Bool-cases (p x)) [ inl e ↦ rw e (e, rest) | inr e ↦ rw e rest ]

abbrev pub Among : {A : Type 0} → A → List A → Type 0
Among x [] = ⊥
Among x (y ∷ ys) = (x ≡ y) ⊎ Among x ys

pub filter-Among :
    {A : Type 0} (p : A → Bool) (xs : List A) → All (λ x. Among x (filter p xs) ⊎ (p x ≡ false)) xs
filter-Among p [] = tt
filter-Among {A = A} p (x ∷ xs) = elim (Bool-cases (p x)) [
  | inl e ↦
      let same : x ∷ filter p xs ≡ filter p (x ∷ xs) = rw e refl in
      subst (λ ys. All (λ y. Among y ys ⊎ (p y ≡ false)) (x ∷ xs)) same
        (inl (inl refl), All-map xs (λ y. widen x y) (filter-Among p xs))
  | inr e ↦
      let same : filter p xs ≡ filter p (x ∷ xs) = rw e refl in
      subst (λ ys. All (λ y. Among y ys ⊎ (p y ≡ false)) (x ∷ xs)) same (inr e, filter-Among p xs)
]
  where
    widen :
        (x y : A)
        → Among y (filter p xs) ⊎ (p y ≡ false)
        → Among y (x ∷ filter p xs) ⊎ (p y ≡ false)
    widen x y (inl a) = inl (inr a)
    widen x y (inr n) = inr n

from-filter : {A : Type 0} (p : A → Bool) (xs : List A) → All (λ x. Among x xs) (filter p xs)
from-filter p [] = tt
from-filter p (x ∷ xs) =
    let rest = All-map (filter p xs) (λ y a. inr a) (from-filter p xs) in
    elim (Bool-cases (p x)) [ inl e ↦ rw e (inl refl, rest) | inr e ↦ rw e rest ]

find?-Among :
    (p : Text → Bool) (xs : List Text) (x : Text) → find? p xs ≡ some x → Among x xs × (p x ≡ true)
find?-Among p [] x h = absurd (ground (arith, h))
find?-Among p (y ∷ ys) x h = elim (Bool-cases (p y)) [
  | inl e ↦
      let k = rw e at h in let same : y ≡ x = some-injective _ _ k in (inl (sym same), rw same at e)
  | inr e ↦ let (a, q) = find?-Among p ys x (rw e at h) in (inr a, q)
]

-- What a choice of one value, if there is one, says of a value or of several.
abbrev pub Fits : Option Text → Text → Type 0
Fits none value = Unit
Fits (some wanted) value = wanted ≡ value

abbrev pub HasMode : Option Text → List Text → Type 0
HasMode none modes = Unit
HasMode (some wanted) modes = Among wanted modes

pub fits_iff : (o : Option Text) (t : Text) → (fits o t ≡ true) ↔ Fits o t
fits_iff none t = ((λ h. tt), (λ h. refl))
fits_iff (some w) t = same_bytes_iff w t

any_iff : (w : Text) (ts : List Text) → (any (same_bytes w) ts ≡ true) ↔ Among w ts
any_iff w [] = ((λ h. absurd (ground (arith, h))), (λ a. absurd a))
any_iff w (t ∷ ts) = (
  (λ h. elim (Bool-cases (same_bytes w t)) [
    | inl e ↦ inl ((same_bytes_iff w t).0 e)
    | inr e ↦ inr ((any_iff w ts).0 (rw e at h))
  ]),
  λ a. elim a [
    | inl same ↦ let e = (same_bytes_iff w t).1 same in ground (arith, e)
    | inr later ↦ let e = (any_iff w ts).1 later in ground (arith, e)
  ],
)

has_mode_iff : (o : Option Text) (ts : List Text) → (has_mode o ts ≡ true) ↔ HasMode o ts
has_mode_iff none ts = ((λ h. tt), (λ h. refl))
has_mode_iff (some w) ts = any_iff w ts

-- A source of the operator and the mode that were asked for.
abbrev pub IsFit : Option Text → Option Text → SourceSpec → Type 0
IsFit mode operator s = Fits operator s.operator × HasMode mode s.modes

selected_iff :
    (mode operator : Option Text) (s : SourceSpec)
    → (is_selected mode operator s ≡ true) ↔ IsFit mode operator s
selected_iff mode operator s =
    let a = fits_iff operator s.operator in
    let b = has_mode_iff mode s.modes in
    (
      (λ h. (a.0 (ground (arith, h)), b.0 (ground (arith, h)))),
      λ (x, y). let e = a.1 x in let e' = b.1 y in ground (arith, e, e'),
    )

-- The sources that are asked: all that fit, and no others.
pub record ArePicked (has_announcements : Bool) (mode operator : Option Text)
    (specs : List SourceSpec) : Type 0 where
  pub some_picked : 0 < length specs
  pub known : All (λ s. Among s (source_specs has_announcements)) specs
  pub fit : All (IsFit mode operator) specs
  pub every : All (λ s. Among s specs ⊎ (¬ IsFit mode operator s)) (source_specs has_announcements)

pub select_specs-ArePicked :
    (has_announcements : Bool) (mode operator : Option Text) (specs : List SourceSpec)
    → select_specs has_announcements mode operator ≡ accepts specs
    → ArePicked has_announcements mode operator specs
unfolding select_specs
select_specs-ArePicked has_announcements mode operator specs h =
    let all_specs = source_specs has_announcements in
    elim (Bool-cases (length (filter (is_selected mode operator) all_specs) == 0)) [
      | inl e ↦ absurd (ground (arith, e))
      | inr e ↦
          let same : filter (is_selected mode operator) all_specs ≡ specs =
            ground (arith, rw e at h) in
          subst (ArePicked has_announcements mode operator) same (record {
            some_picked = ground (arith, e);
            known = from-filter (is_selected mode operator) all_specs;
            fit =
                All-map _ (λ s. (selected_iff mode operator s).0)
                  (filter-All (is_selected mode operator) all_specs);
            every = All-map all_specs told (filter-Among (is_selected mode operator) all_specs);
          })
    ]
  where
    told :
        (s : SourceSpec)
        → Among s (filter (is_selected mode operator) (source_specs has_announcements))
          ⊎ (is_selected mode operator s ≡ false)
        → Among s (filter (is_selected mode operator) (source_specs has_announcements))
          ⊎ (¬ IsFit mode operator s)
    told s (inl a) = inl a
    told s (inr n) =
        inr (λ k. let e = (selected_iff mode operator s).1 k in absurd (ground (arith, n, e)))

-- The one of the options that a choice names, whatever its case and the space around it.
abbrev pub IsChoice : Python → List Text → Option Text → Option Text → Type 0
IsChoice py allowed none chosen = chosen ≡ none
IsChoice py allowed (some v) chosen =
    (option : Text) × (chosen ≡ some option)
    × Among option allowed
    × (py.casefold option ≡ py.casefold (strip v))

pub normalize_choice-IsChoice :
    (py : Python) (field : String) (allowed : List Text) (given chosen : Option Text)
    → normalize_choice py field allowed given ≡ accepts chosen
    → IsChoice py allowed given chosen
unfolding normalize_choice validate_text
normalize_choice-IsChoice py field allowed none chosen h = ground (arith, h)
normalize_choice-IsChoice py field allowed (some v) chosen h =
    let (safe, t, h1) = accepts-bind (validate_text v field 80 1) _ chosen h in
    let text : strip v ≡ safe = ground (arith, t) in
    go safe text (find? (λ option. same_bytes (py.casefold option) (py.casefold safe)) allowed) refl
      h1
  where
    go :
        (safe : Text)
        → strip v ≡ safe
        → (found : Option Text)
        → find? (λ option. same_bytes (py.casefold option) (py.casefold safe)) allowed ≡ found
        → ◌≡◌ {A = Validated (Option Text)}
            (elim found [
              | none ↦ raises (invalid field none none)
              | some option ↦ accepts (some option)
            ])
            (accepts chosen)
        → IsChoice py allowed (some v) chosen
    go safe text none e k = absurd (ground (arith, k))
    go safe text (some option) e k =
        let (a, q) =
          find?-Among (λ o. same_bytes (py.casefold o) (py.casefold safe)) allowed option e in
        (
          option,
          ground (arith, k),
          a,
          (same_bytes_iff (py.casefold option) (py.casefold safe)).0 q ∙ ap py.casefold (sym text),
        )

abbrev pub stripped : Option Text → Option Text
stripped none = none
stripped (some v) = some (strip v)

pub optional_text-stripped :
    (field : String) (given chosen : Option Text)
    → optional_text field given ≡ accepts chosen
    → chosen ≡ stripped given
unfolding optional_text validate_text
optional_text-stripped field none chosen h = ground (arith, h)
optional_text-stripped field (some v) chosen h = ground (arith, h)
