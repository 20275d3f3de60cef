-- ===== src/Auth/Bearer.antt =====
-- Which requests ApiKeyAuthMiddleware identifies.
use istanbulmcp.Prelude.{
  ℕ, leb, ◌&&◌, ◌≤◌, String, true, false, ◌≡◌, ◌⊎◌, inl, inr, refl, ap, ◌∙◌, Option, none, some,
  List, [], ◌∷◌, ◌++◌, arith, ◌==◌, str_eq, eq_iff, length, map, any, all, if◌then◌else◌,
  Bool-cases, Option-cases,
}
use istanbulmcp.Prelude.Bytes.{codes, lower, same_bytes, same_bytes_iff}
use istanbulmcp.Guard.Middleware.{Scope}
use istanbulmcp.Auth.{
  key_char, matches_key, split_spaces, authorizations, bearer_parts, presented_key, match_hash,
  is_protected, identified, key_hashes, authenticate,
}

-- A text is one of a list of texts.
abbrev pub Member : String → List String → Type 0
Member k [] = ⊥
Member k (h ∷ hs) = (k ≡ h) ⊎ Member k hs

match_hash-acc : (c : String) (hs : List String) → match_hash c hs (some c) ≡ some c
unfolding match_hash
match_hash-acc c [] = refl
match_hash-acc c (h ∷ hs) = ground (arith, match_hash-acc c hs, eq_iff c h)

-- The loop finds exactly the digests that are configured.
pub match_hash-Member :
    (c : String) (hs : List String) → Member c hs → (m : Option String) → match_hash c hs m ≡ some c
unfolding match_hash
match_hash-Member c [] h m = absurd h
match_hash-Member c (x ∷ hs) (inl e) m = ground (arith, match_hash-acc c hs, eq_iff c x)
match_hash-Member c (x ∷ hs) (inr r) m = match_hash-Member c hs r (if str_eq c x then some x else m)

pub match_hash_sound :
    (c : String) (hs : List String) (m : Option String) (h : String)
    → match_hash c hs m ≡ some h
    → ((h ≡ c) × Member c hs) ⊎ (m ≡ some h)
unfolding match_hash
match_hash_sound c [] m h e = inr e
match_hash_sound c (x ∷ hs) m h e = elim (Bool-cases (str_eq c x)) [
  | inl q ↦ elim (match_hash_sound c hs (some x) h (rw q at e)) [
    | inl r ↦ inl (r.0, inr r.1)
    | inr r ↦ inl (ground (arith, eq_iff c x), inl ((eq_iff c x).0 q))
  ]
  | inr q ↦ elim (match_hash_sound c hs m h (rw q at e)) [
    | inl r ↦ inl (r.0, inr r.1)
    | inr r ↦ inr r
  ]
]

split_spaces-cases : (s : List ℕ) → (w : List ℕ) × (ws : List (List ℕ)) × (split_spaces s ≡ w ∷ ws)
unfolding split_spaces
split_spaces-cases [] = ([], [], refl)
split_spaces-cases (c ∷ s) =
    let (w, ws, e) = split_spaces-cases s in
    elim (Bool-cases (c == b' ')) [
      | inl q ↦ rw q ([], split_spaces s, refl)
      | inr q ↦ rw (q, e) (c ∷ w, ws, refl)
    ]

split_spaces-one : (s a : List ℕ) → split_spaces s ≡ a ∷ [] → s ≡ a
unfolding split_spaces
split_spaces-one [] a h = cc
split_spaces-one (c ∷ s) a h =
    let (w, ws, e) = split_spaces-cases s in
    let k = rw e at h in
    elim (Bool-cases (c == b' ')) [
      | inl q ↦ absurd (ground (arith, q, k))
      | inr q ↦
          let k' : ◌≡◌ {A = List (List ℕ)} ((c ∷ w) ∷ ws) (a ∷ []) = rw q at k in
          let none_left : ws ≡ [] = cc in
          let same : s ≡ w = split_spaces-one s w (rw none_left at e) in
          let front : c ∷ w ≡ a = cc in ap (◌∷◌ c) same ∙ front
    ]

split_spaces-two : (s a b : List ℕ) → split_spaces s ≡ a ∷ b ∷ [] → s ≡ a ++ b' ' ∷ b
unfolding split_spaces
split_spaces-two [] a b h = absurd (ground (arith, h))
split_spaces-two (c ∷ s) a b h =
    let (w, ws, e) = split_spaces-cases s in
    elim (Bool-cases (c == b' ')) [
      | inl q ↦
          let k : ◌≡◌ {A = List (List ℕ)} ([] ∷ split_spaces s) (a ∷ b ∷ []) = rw q at h in
          let rest : split_spaces s ≡ b ∷ [] = cc in
          let front : [] ≡ a = cc in
          let tail = split_spaces-one s b rest in
          let space : c ≡ b' ' = ground (arith, q) in rw (← front, tail, space) refl
      | inr q ↦
          let k : ◌≡◌ {A = List (List ℕ)} ((c ∷ w) ∷ ws) (a ∷ b ∷ []) = rw (q, e) at h in
          let rest : ws ≡ b ∷ [] = cc in
          let front : c ∷ w ≡ a = cc in
          let tail = split_spaces-two s w b (rw rest at e) in
          ap (◌∷◌ c) tail ∙ ap (λ (x : List ℕ). x ++ b' ' ∷ b) front
    ]

-- One header, of the scheme Bearer in any case, a space and a key of 32 to 256 allowed characters.
pub record IsPresented (headers : List (List ℕ)) (key : List ℕ) : Type 0 where
  pub scheme : List ℕ
  pub header : headers ≡ (scheme ++ b' ' ∷ key) ∷ []
  pub is_bearer : lower scheme ≡ codes "bearer"
  pub characters : all key_char key ≡ true
  pub long_enough : 32 ≤ length key
  pub short_enough : length key ≤ 256

presented_key-IsPresented :
    (headers : List (List ℕ)) (key : List ℕ)
    → presented_key headers ≡ some key
    → IsPresented headers key
unfolding presented_key bearer_parts matches_key
presented_key-IsPresented [] key h = absurd (ground (arith, h))
presented_key-IsPresented (x ∷ y ∷ headers) key h = absurd (ground (arith, h))
presented_key-IsPresented (x ∷ []) key h = go (split_spaces x) refl
  where
    go : (words : List (List ℕ)) → split_spaces x ≡ words → IsPresented (x ∷ []) key
    go [] e = absurd (ground (arith, h, e))
    go (a ∷ []) e = absurd (ground (arith, h, e))
    go (a ∷ b ∷ d ∷ more) e = absurd (ground (arith, h, e))
    go (a ∷ b ∷ []) e =
        let k = rw (e, presented_key) at h in
        let same : b ≡ key = ground (arith, k) in
        let fits : same_bytes (lower a) (codes "bearer") ≡ true = ground (arith, k) in
        let shape : (all key_char b && leb 32 (length b) && leb (length b) 256) ≡ true =
          ground (arith, k) in
        rw (← same) (record {
          scheme = a;
          header = ap (λ (t : List ℕ). t ∷ []) (split_spaces-two x a b e);
          is_bearer = (same_bytes_iff (lower a) (codes "bearer")).0 fits;
          characters = ground (arith, shape);
          long_enough = ground (arith, shape);
          short_enough = ground (arith, shape);
        })

-- A key holds no space, so it is one word.
split_spaces_key : (key : List ℕ) → all key_char key ≡ true → split_spaces key ≡ key ∷ []
unfolding split_spaces
split_spaces_key [] h = refl
split_spaces_key (c ∷ s) h = ground (arith, split_spaces_key s)

Member-map :
    (f : List ℕ → String) (k : List ℕ) (ks : List (List ℕ))
    → any (same_bytes k) ks ≡ true
    → Member (f k) (map f ks)
Member-map f k [] h = cc
Member-map f k (x ∷ ks) h = elim (Bool-cases (same_bytes k x)) [
  | inl e ↦ inl (ap f ((same_bytes_iff k x).0 e))
  | inr e ↦ inr (Member-map f k ks (rw e at h))
]

presented_bearer :
    (key : List ℕ)
    → matches_key key ≡ true
    → presented_key ((codes "Bearer " ++ key) ∷ []) ≡ some key
unfolding presented_key bearer_parts
presented_bearer key h = rw (split_spaces_key key (well_formed h)) (ground arith)
  where
    well_formed : matches_key key ≡ true → all key_char key ≡ true
    well_formed p = ground arith

Member-length : (h : String) (hs : List String) → Member h hs → (length hs == 0) ≡ false
Member-length h [] m = absurd m
Member-length h (x ∷ hs) m = ground arith

module _ (sha256 : List ℕ → String) (keys : List (List ℕ)) (s : Scope) where
  -- A request to a protected path whose one Authorization header is `Bearer` and a configured,
  -- well-formed key is identified by that key's digest.
  pub authenticate_accepts :
      (key : List ℕ)
      → s.kind ≡ "http"
      → is_protected s ≡ true
      → authorizations s.headers ≡ (codes "Bearer " ++ key) ∷ []
      → matches_key key ≡ true
      → any (same_bytes key) keys ≡ true
      → authenticate sha256 (key_hashes sha256 keys) s ≡ identified (sha256 key)
  unfolding authenticate key_hashes
  authenticate_accepts key http path header shape known =
      let m = Member-map sha256 key keys known in
      rw
        (
          header,
          presented_bearer key shape,
          match_hash-Member (sha256 key) (map sha256 keys) m none,
        )
        (ground (arith, Member-length (sha256 key) (map sha256 keys) m, eq_iff s.kind "http"))

  -- An identified request is an HTTP request to a protected path with one Authorization header,
  -- which is `Bearer`, in any case, a space and a key of 32 to 256 allowed characters; its identity
  -- is the digest of that key, and the digest of a configured one.
  pub authenticate_sound :
      (h : String)
      → authenticate sha256 (key_hashes sha256 keys) s ≡ identified h
      → (key : List ℕ) × IsPresented (authorizations s.headers) key
        × (s.kind ≡ "http")
        × (is_protected s ≡ true)
        × (h ≡ sha256 key)
        × Member h (map sha256 keys)
  unfolding authenticate key_hashes
  authenticate_sound h e = elim (Option-cases (presented_key (authorizations s.headers))) [
    | inl q ↦ absurd (ground arith)
    | inr (key, q) ↦ elim (Option-cases (match_hash (sha256 key) (map sha256 keys) none)) [
      | inl r ↦ absurd (ground arith)
      | inr (g, r) ↦ elim (match_hash_sound (sha256 key) (map sha256 keys) none g r) [
        | inl f ↦
            let same : h ≡ g = ground arith in
            (
              key,
              presented_key-IsPresented (authorizations s.headers) key q,
              ground (arith, e, eq_iff s.kind "http"),
              ground (arith, e),
              same ∙ f.0,
              rw (same ∙ f.0) (f.1),
            )
        | inr n ↦ absurd (ground arith)
      ]
    ]
  ]
