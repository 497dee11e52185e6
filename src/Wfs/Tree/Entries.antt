-- ===== src/Wfs/Tree/Entries.antt =====
-- Lists of keys and values in ascending order of their keys: what the nodes of a tree are to hold.
use watos.Common.{
  ℕ, zero, suc, ◌+◌, ◌-◌, ◌≤◌, ◌<◌, ◌≡◌, refl, sym, ap, ◌∙◌, ◌⊎◌, inl, inr, Bool, true, false, ◌&&◌,
  Option, none, some, List, [], ◌∷◌, ◌++◌, arith, ltb, ◌==◌, if◌then◌else◌, ==_iff, Bool-cases,
  length, get_elem?, take, drop, length-append, length-take, length-drop,
}
use watos.Wfs.Tree.Leaf.{Place, found, insert_at}

pub none≢some {ℓ} : {A : Type ℓ} {a : A} → none ≡ some a → ⊥
none≢some e = cc

module _ {ℓ} {V : Type ℓ} where
  -- every key is above `k`
  abbrev pub above : ℕ → List (ℕ × V) → Bool
  above k [] = true
  above k ((k', v) ∷ xs) = ltb k k' && above k xs

  abbrev pub ascending : List (ℕ × V) → Bool
  ascending [] = true
  ascending ((k, v) ∷ xs) = above k xs && ascending xs

  -- how many keys at the front are below `k`
  abbrev pub rank : ℕ → List (ℕ × V) → ℕ
  rank k [] = 0
  rank k ((k', v) ∷ xs) = if ltb k' k then suc (rank k xs) else 0

  abbrev pub lookup : ℕ → List (ℕ × V) → Option V
  lookup k [] = none
  lookup k ((k', v) ∷ xs) = if k' == k then some v else lookup k xs

  abbrev pub inserted : ℕ → V → List (ℕ × V) → List (ℕ × V)
  inserted k v xs = take (rank k xs) xs ++ (k, v) ∷ drop (rank k xs) xs

  abbrev pub removed : ℕ → List (ℕ × V) → List (ℕ × V)
  removed k xs = take (rank k xs) xs ++ drop (suc (rank k xs)) xs

  pub rank-le : (k : ℕ) (xs : List (ℕ × V)) → rank k xs ≤ length xs
  rank-le k [] = omega arith
  rank-le k ((k', v) ∷ xs) = ground (arith, rank-le k xs)

  above-get_elem? :
      (a : ℕ) (xs : List (ℕ × V)) (i : ℕ) {k : ℕ} {v : V}
      → above a xs ≡ true
      → get_elem? xs i ≡ some (k, v)
      → a < k
  above-get_elem? a [] i h e = ground arith
  above-get_elem? a ((k', v') ∷ xs) zero h e = ground arith
  above-get_elem? a ((k', v') ∷ xs) (suc i) h e = above-get_elem? a xs i (ground arith) e

  pub below_rank :
      (k : ℕ) (xs : List (ℕ × V)) (i : ℕ) {k' : ℕ} {v : V}
      → get_elem? xs i ≡ some (k', v)
      → i < rank k xs
      → k' < k
  below_rank k [] i e h = absurd (omega arith)
  below_rank k ((a, b) ∷ xs) zero e h = ground arith
  below_rank k ((a, b) ∷ xs) (suc i) e h = elim (Bool-cases (ltb a k)) [
    | inl t ↦ below_rank k xs i e (let h' : suc i < suc (rank k xs) = rw t at h in omega arith)
    | inr f ↦ absurd (let h' : suc i < 0 = rw f at h in omega arith)
  ]

  pub past_rank :
      (k : ℕ) (xs : List (ℕ × V)) (i : ℕ) {k' : ℕ} {v : V}
      → ascending xs ≡ true
      → get_elem? xs i ≡ some (k', v)
      → rank k xs ≤ i
      → (k ≤ k') × (rank k xs < i → k < k')
  past_rank k [] i s e h = ground arith
  past_rank k ((a, b) ∷ xs) zero s e h = elim (Bool-cases (ltb a k)) [
    | inl t ↦ absurd (let h' : suc (rank k xs) ≤ 0 = rw t at h in omega arith)
    | inr f ↦ rw f (ground arith, λ l. absurd (omega arith))
  ]
  past_rank k ((a, b) ∷ xs) (suc i) s e h = elim (Bool-cases (ltb a k)) [
    | inl t ↦
        let h' : suc (rank k xs) ≤ suc i = rw t at h in
        let (p, q) = past_rank k xs i (ground arith) e (omega arith) in
        rw t (p, λ l. q (omega arith))
    | inr f ↦
        let g = above-get_elem? a xs i (ground arith) e in rw f (ground arith, λ l. ground arith)
  ]

  -- where a search ends: the place of the key, or the place to insert it
  abbrev pub place_at : ℕ → ℕ → Option (ℕ × V) → Place
  place_at k r none = insert_at r
  place_at k r (some (k', v)) = if k' == k then found r else insert_at r

  abbrev pub locate : ℕ → List (ℕ × V) → Place
  locate k xs = place_at k (rank k xs) (get_elem? xs (rank k xs))

  pub get_elem?-inserted :
      (r : ℕ) (x : ℕ × V) (xs : List (ℕ × V)) (i : ℕ)
      → r ≤ length xs
      → get_elem? (take r xs ++ x ∷ drop r xs) i
        ≡ (if ltb i r then get_elem? xs i else if i == r then some x else get_elem? xs (i - 1))
  get_elem?-inserted zero x xs zero h = refl
  get_elem?-inserted zero x xs (suc i) h =
      let z : suc i - 1 ≡ i = omega arith in rw z (ground arith)
  get_elem?-inserted (suc r) x [] i h = absurd (omega arith)
  get_elem?-inserted (suc r) x (y ∷ xs) zero h = ground arith
  get_elem?-inserted (suc r) x (y ∷ xs) (suc zero) h =
      let ih = get_elem?-inserted r x xs zero (omega arith) in ground (arith, ih)
  get_elem?-inserted (suc r) x (y ∷ xs) (suc (suc i)) h =
      let z : suc (suc i) - 1 ≡ suc i = omega arith in
      let z' : suc i - 1 ≡ i = omega arith in
      let ih = rw z' at (get_elem?-inserted r x xs (suc i) (omega arith)) in
      rw (z, ih) (ground arith)

  pub get_elem?-removed :
      (r : ℕ) (xs : List (ℕ × V)) (i : ℕ)
      → get_elem? (take r xs ++ drop (suc r) xs) i
        ≡ (if ltb i r then get_elem? xs i else get_elem? xs (i + 1))
  get_elem?-removed zero [] i = ground arith
  get_elem?-removed zero (y ∷ xs) i = let z : i + 1 ≡ suc i = omega arith in rw z (ground arith)
  get_elem?-removed (suc r) [] i = ground arith
  get_elem?-removed (suc r) (y ∷ xs) zero = ground arith
  get_elem?-removed (suc r) (y ∷ xs) (suc i) =
      let z : suc i + 1 ≡ suc (i + 1) = omega arith in
      rw (z, get_elem?-removed r xs i) (ground arith)

  pub length-inserted :
      (k : ℕ) (v : V) (xs : List (ℕ × V)) → length (inserted k v xs) ≡ length xs + 1
  length-inserted k v xs = omega (
    arith,
    rank-le k xs,
    length-append (take (rank k xs) xs) ((k, v) ∷ drop (rank k xs) xs),
    length-take (rank k xs) xs,
    length-drop (rank k xs) xs,
  )

  pub length-removed :
      (k : ℕ) (xs : List (ℕ × V)) → rank k xs < length xs → length (removed k xs) + 1 ≡ length xs
  length-removed k xs h = omega (
    arith,
    length-append (take (rank k xs) xs) (drop (suc (rank k xs)) xs),
    length-take (rank k xs) xs,
    length-drop (suc (rank k xs)) xs,
  )

  above_later : (a b : ℕ) (xs : List (ℕ × V)) → a ≤ b → above b xs ≡ true → above a xs ≡ true
  above_later a b [] h k = refl
  above_later a b ((k', v) ∷ xs) h k = ground (arith, above_later a b xs)

  above-inserted :
      (a k : ℕ) (v : V) (xs : List (ℕ × V))
      → a < k
      → above a xs ≡ true
      → above a (inserted k v xs) ≡ true
  above-inserted a k v [] h e = ground arith
  above-inserted a k v ((k', v') ∷ xs) h e = elim (Bool-cases (ltb k' k)) [
    | inl t ↦ rw t (ground (arith, above-inserted a k v xs))
    | inr f ↦ rw f (ground arith)
  ]

  lookup-above : (a k : ℕ) (xs : List (ℕ × V)) → k ≤ a → above a xs ≡ true → lookup k xs ≡ none
  lookup-above a k [] h e = refl
  lookup-above a k ((k', v') ∷ xs) h e = ground (arith, lookup-above a k xs)

  -- Where the list is ascending, the entry at the rank of a key is the one with that key, if there is
  -- one.
  pub lookup_cases :
      (k : ℕ) (xs : List (ℕ × V))
      → ascending xs ≡ true
      → ((lookup k xs ≡ none) × ((s : ℕ) → place_at k s (get_elem? xs (rank k xs)) ≡ insert_at s))
        ⊎ ((v : V) × (lookup k xs ≡ some v)
            × (get_elem? xs (rank k xs) ≡ some (k, v))
            × (rank k xs < length xs))
  lookup_cases k [] s = inl (refl, λ s. refl)
  lookup_cases k ((k', v') ∷ xs) s = elim (Bool-cases (ltb k' k)) [
    | inl t ↦
        let ne : (k' == k) ≡ false = ground arith in
        elim (lookup_cases k xs (ground arith)) [
          | inl (l, p) ↦ rw (t, ne) (inl (l, p))
          | inr (v, l, g, b) ↦ rw (t, ne) (inr (v, l, g, omega arith))
        ]
    | inr f ↦ elim (Bool-cases (k' == k)) [
      | inl e ↦ rw (f, e) (inr (v', refl, ap (λ q. some (q, v')) ((==_iff k' k).0 e), omega arith))
      | inr ne ↦ rw (f, ne) (inl (lookup-above k' k xs (ground arith) (ground arith), λ s. refl))
    ]
  ]

  -- An entry whose key is not there yet goes to its place.
  pub ascending-inserted :
      (k : ℕ) (v : V) (xs : List (ℕ × V))
      → ascending xs ≡ true
      → lookup k xs ≡ none
      → ascending (inserted k v xs) ≡ true
  ascending-inserted k v [] s e = refl
  ascending-inserted k v ((k', v') ∷ xs) s e = elim (Bool-cases (k' == k)) [
    | inl same ↦ absurd (none≢some (sym (rw same at e)))
    | inr other ↦ elim (Bool-cases (ltb k' k)) [
      | inl t ↦
          let absent : lookup k xs ≡ none = rw other at e in
          let ih = ascending-inserted k v xs (ground arith) absent in
          rw t (ground (arith, ih, above-inserted k' k v xs))
      | inr f ↦ rw f (ground (arith, above_later k k' xs))
    ]
  ]

  above-removed : (a k : ℕ) (xs : List (ℕ × V)) → above a xs ≡ true → above a (removed k xs) ≡ true
  above-removed a k [] e = refl
  above-removed a k ((k', v') ∷ xs) e = elim (Bool-cases (ltb k' k)) [
    | inl t ↦ rw t (ground (arith, above-removed a k xs))
    | inr f ↦ rw f (ground arith)
  ]

  pub ascending-removed :
      (k : ℕ) (xs : List (ℕ × V)) → ascending xs ≡ true → ascending (removed k xs) ≡ true
  ascending-removed k [] s = refl
  ascending-removed k ((k', v') ∷ xs) s = elim (Bool-cases (ltb k' k)) [
    | inl t ↦ rw t (ground (arith, ascending-removed k xs, above-removed k' k xs))
    | inr f ↦ rw f (ground arith)
  ]

  -- The entry inserted is found, and no other key's changes.
  pub lookup-inserted :
      (k q : ℕ) (v : V) (xs : List (ℕ × V))
      → lookup k xs ≡ none
      → lookup q (inserted k v xs) ≡ (if k == q then some v else lookup q xs)
  lookup-inserted k q v [] e = refl
  lookup-inserted k q v ((k', v') ∷ xs) e = elim (Bool-cases (k' == k)) [
    | inl same ↦ absurd (none≢some (sym (rw same at e)))
    | inr other ↦ elim (Bool-cases (ltb k' k)) [
      | inl t ↦
          let absent : lookup k xs ≡ none = rw other at e in
          rw (t, lookup-inserted k q v xs absent) (ground arith)
      | inr f ↦ rw f refl
    ]
  ]

  -- The entry removed is gone, and no other key's changes.
  pub lookup-removed :
      (k q : ℕ) {v : V} (xs : List (ℕ × V))
      → ascending xs ≡ true
      → lookup k xs ≡ some v
      → lookup q (removed k xs) ≡ (if k == q then none else lookup q xs)
  lookup-removed k q [] s e = absurd (none≢some e)
  lookup-removed k q ((k', v') ∷ xs) s e = elim (Bool-cases (ltb k' k)) [
    | inl t ↦
        let other : (k' == k) ≡ false = ground arith in
        let there = rw other at e in
        rw (t, lookup-removed k q xs (ground arith) there) (ground arith)
    | inr f ↦ elim (Bool-cases (k' == k)) [
      | inl same ↦ elim (Bool-cases (k == q)) [
        | inl this ↦ rw (f, this) (lookup-above k' q xs (ground arith) (ground arith))
        | inr that ↦ let that' : (k' == q) ≡ false = ground arith in rw (f, that, that') refl
      ]
      | inr other ↦
          absurd
            (none≢some (sym (lookup-above k' k xs (ground arith) (ground arith)) ∙ (rw other at e)))
    ]
  ]
