-- ===== src/Prelude/Dict.antt =====
-- Python's `dict` with text keys, in insertion order.
use Prim.Native.Nat.{◌+◌, ◌≤◌, ◌<◌}
use Prim.Native.String.{String}
use mathlib.Core.Path.{◌≡◌, refl}
use mathlib.Core.List.{List, [], ◌∷◌}
use mathlib.Core.Option.{Option, none, some}
use mathlib.Core.Logic.{inl, inr}
use native.Mathlib.Omega.{arith}
use text.Mathlib.TextEquality.{eq_iff}
use istanbulmcp.Prelude.Tests.{if◌then◌else◌, str_eq, Bool-cases}
use istanbulmcp.Prelude.Lists.{length, All}

abbrev pub Dict {ℓ} : Type ℓ → Type ℓ
Dict V = List (String × V)

module _ {ℓ} {V : Type ℓ} where
  -- `d.get(k)`
  unfoldable pub get : String → Dict V → Option V
  get k [] = none
  get k ((j, v) ∷ d) = if str_eq j k then some v else get k d

  -- `d[k] = v`: in place if the key is there, else at the end
  unfoldable pub put : String → V → Dict V → Dict V
  put k v [] = (k, v) ∷ []
  put k v ((j, w) ∷ d) = if str_eq j k then (j, v) ∷ d else (j, w) ∷ put k v d

  -- `d.pop(k, None)`
  unfoldable pub pop : String → Dict V → Dict V
  pop k [] = []
  pop k ((j, v) ∷ d) = let rest = pop k d in if str_eq j k then rest else (j, v) ∷ rest

  pub get-put :
      (k j : String) (v : V) (d : Dict V)
      → get j (put k v d) ≡ (if str_eq k j then some v else get j d)
  unfolding get put
  get-put k j v [] = refl
  get-put k j v ((i, w) ∷ d) = ground (arith, eq_iff k j, eq_iff i k, eq_iff i j, get-put k j v d)

  pub get-pop :
      (k j : String) (d : Dict V) → get j (pop k d) ≡ (if str_eq k j then none else get j d)
  unfolding get pop
  get-pop k j [] = ground arith
  get-pop k j ((i, w) ∷ d) = ground (arith, eq_iff k j, eq_iff i k, eq_iff i j, get-pop k j d)

  pub length-put-le : (k : String) (v : V) (d : Dict V) → length (put k v d) ≤ length d + 1
  unfolding put
  length-put-le k v [] = omega arith
  length-put-le k v ((i, w) ∷ d) = ground (arith, length-put-le k v d)

  pub length-put_hit :
      (k : String) (v w : V) (d : Dict V) → get k d ≡ some w → length (put k v d) ≡ length d
  unfolding put get
  length-put_hit k v w [] h = absurd (ground arith)
  length-put_hit k v w ((i, u) ∷ d) h = ground (arith, length-put_hit k v w d)

  pub length-pop-le : (k : String) (d : Dict V) → length (pop k d) ≤ length d
  unfolding pop
  length-pop-le k [] = omega arith
  length-pop-le k ((i, w) ∷ d) = ground (arith, length-pop-le k d)

  pub length-pop_hit :
      (k : String) (v : V) (d : Dict V) → get k d ≡ some v → length (pop k d) < length d
  unfolding pop get
  length-pop_hit k v [] h = absurd (ground arith)
  length-pop_hit k v ((i, w) ∷ d) h = ground (arith, length-pop_hit k v d, length-pop-le k d)

  -- A property of every value.
  abbrev pub Values {κ} : (V → Type κ) → Dict V → Type κ
  Values P d = All (λ e. P e.1) d

  pub Values-put {κ} :
      (P : V → Type κ) (k : String) (v : V) (d : Dict V) → P v → Values P d → Values P (put k v d)
  unfolding put
  Values-put P k v [] h ps = (h, tt)
  Values-put P k v ((i, w) ∷ d) h ps = elim (Bool-cases (str_eq i k)) [
    | inl e ↦ rw e (h, ps.1)
    | inr e ↦ rw e (ps.0, Values-put P k v d h ps.1)
  ]

  pub Values-pop {κ} : (P : V → Type κ) (k : String) (d : Dict V) → Values P d → Values P (pop k d)
  unfolding pop
  Values-pop P k [] ps = tt
  Values-pop P k ((i, w) ∷ d) ps = elim (Bool-cases (str_eq i k)) [
    | inl e ↦ rw e (Values-pop P k d ps.1)
    | inr e ↦ rw e (ps.0, Values-pop P k d ps.1)
  ]

  pub Values-get {κ} :
      (P : V → Type κ) (k : String) (v : V) (d : Dict V) → Values P d → get k d ≡ some v → P v
  unfolding get
  Values-get P k v [] ps h = absurd (ground arith)
  Values-get P k v ((i, w) ∷ d) ps h = elim (Bool-cases (str_eq i k)) [
    | inl e ↦ rw (some-eq (rw e at h)) at ps.0
    | inr e ↦ Values-get P k v d ps.1 (rw e at h)
  ]
    where
      some-eq : {a b : V} → some a ≡ some b → a ≡ b
      some-eq p = cc

  -- Each key stands once.
  abbrev pub IsDistinct : Dict V → Type ℓ
  IsDistinct [] = Unit
  IsDistinct ((k, v) ∷ d) = (get k d ≡ none) × IsDistinct d

  pub put-IsDistinct : (k : String) (v : V) (d : Dict V) → IsDistinct d → IsDistinct (put k v d)
  unfolding put get
  put-IsDistinct k v [] h = (refl, tt)
  put-IsDistinct k v ((i, w) ∷ d) h = elim (Bool-cases (str_eq i k)) [
    | inl e ↦ rw e h
    | inr e ↦
        rw e (ground (arith, get-put k i v d, eq_iff k i, eq_iff i k), put-IsDistinct k v d h.1)
  ]

  pub pop-IsDistinct : (k : String) (d : Dict V) → IsDistinct d → IsDistinct (pop k d)
  unfolding pop
  pop-IsDistinct k [] h = tt
  pop-IsDistinct k ((i, w) ∷ d) h = elim (Bool-cases (str_eq i k)) [
    | inl e ↦ rw e (pop-IsDistinct k d h.1)
    | inr e ↦ rw e (ground (arith, get-pop k i d), pop-IsDistinct k d h.1)
  ]
