-- ===== src/Tests/Validation.antt =====
-- The validators at concrete inputs.
use istanbulmcp.Prelude.{ℕ, Bool, true, ◌≡◌, refl, some, List, [], ◌∷◌}
use istanbulmcp.Prelude.Bytes.{strip, is_space}
use istanbulmcp.Validation.{
  accepts, FilterValue, item, items, text, null, validate_filters, validate_entries, validate_text,
  validate_filter_value, validate_item, validate_items, set_filter,
}

abbrev letter : ℕ → Bool
letter c = true

abbrev filters : List (List ℕ × FilterValue)
filters = (b'a' ∷ b' ' ∷ [], item (text (b'x' ∷ []))) ∷ (b'b' ∷ [], items (null ∷ [])) ∷ []

abbrev accepted : List (List ℕ × FilterValue)
accepted = (b'a' ∷ [], item (text (b'x' ∷ []))) ∷ (b'b' ∷ [], items (null ∷ [])) ∷ []

filters_accepted : validate_filters 3 4 letter 2 5 (some filters) ≡ accepts (some accepted)
unfolding validate_filters validate_entries validate_text strip is_space validate_filter_value
    validate_item validate_items set_filter
filters_accepted = refl
