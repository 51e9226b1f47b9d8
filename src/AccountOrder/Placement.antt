-- ===== src/AccountOrder/Placement.antt =====
-- The steps of `apply`: the map of accounts, the saved places, the sort.
use mathlib.Core.List.Perm
use mathlib.Core.List.{append-nil, append_assoc, map-append}
use ai_usage_tracker.Prelude.{
  ◌+◌, ◌≡◌, refl, true, false, ◌||◌, some, List, [], ◌∷◌, ◌++◌, Perm, arith, inl, inr, Option-cases,
  Bool-cases, sym, ap₂, suc, ◌∙◌, Distinct-before, length, Text, text_eq, text_eq_iff,
  eq_of_text_eq, contains, Distinct, includes,
}
use ai_usage_tracker.Model.{Account}
use ai_usage_tracker.AccountOrder.{
  ids, insert_account, collect_accounts, take_account, place, sort_insert, sort_accounts,
  older_first,
}

module _ {F : Type 0} where
  insert_account_new :
      (m : List (Account F)) (a : Account F)
      → contains (ids m) a.id ≡ false
      → insert_account m a ≡ m ++ a ∷ []
  unfolding insert_account contains
  insert_account_new [] a h = refl
  insert_account_new (x ∷ xs) a h = ground (arith, insert_account_new xs a)

  take_account-perm :
      (k : Text) (m : List (Account F)) (a : Account F) (rest : List (Account F))
      → take_account k m ≡ some (a, rest)
      → Perm m (a ∷ rest)
  unfolding take_account
  take_account-perm k [] a rest h = cc
  take_account-perm k (x ∷ xs) a rest h = elim (Bool-cases (text_eq x.id k)) [
    | inl hit ↦
        let same : (x ≡ a) × (xs ≡ rest) = ground (arith, hit) in
        rw (same.0, same.1) (Perm.refl (a ∷ rest))
    | inr miss ↦ elim (Option-cases (take_account k xs)) [
      | inl e ↦ absurd (ground (arith, miss, e))
      | inr ((b, r), e) ↦
          let found : Perm xs (b ∷ r) = take_account-perm k xs b r e in
          let same : (b ≡ a) × (x ∷ r ≡ rest) = ground (arith, miss, e) in
          rw (← same.0, ← same.1) (Perm.trans (Perm.cons x found) (Perm.swap b x r))
    ]
  ]

  pub place-perm :
      (ks : List Text) (m : List (Account F)) → Perm m ((place ks m).0 ++ (place ks m).1)
  unfolding place
  place-perm [] m = Perm.refl m
  place-perm (k ∷ ks) m = elim (Option-cases (take_account k m)) [
    | inl e ↦ rw (e, place) (place-perm ks m)
    | inr ((a, rest), e) ↦
        rw (e, place)
          (Perm.trans (take_account-perm k m a rest e) (Perm.cons a (place-perm ks rest)))
  ]

  sort_insert-perm : (a : Account F) (xs : List (Account F)) → Perm (sort_insert a xs) (a ∷ xs)
  unfolding sort_insert
  sort_insert-perm a [] = Perm.refl (a ∷ [])
  sort_insert-perm a (x ∷ xs) = elim (Bool-cases (older_first a x)) [
    | inl e ↦ rw e (Perm.refl (a ∷ x ∷ xs))
    | inr e ↦ rw e (Perm.trans (Perm.cons x (sort_insert-perm a xs)) (Perm.swap a x xs))
  ]

  pub sort_accounts-perm : (xs : List (Account F)) → Perm (sort_accounts xs) xs
  unfolding sort_accounts
  sort_accounts-perm [] = Perm.nil
  sort_accounts-perm (a ∷ xs) =
      Perm.trans (sort_insert-perm a (sort_accounts xs)) (Perm.cons a (sort_accounts-perm xs))

  pub collect_accounts-Distinct :
      (m xs : List (Account F)) → Distinct (ids (m ++ xs)) → collect_accounts m xs ≡ m ++ xs
  unfolding collect_accounts
  collect_accounts-Distinct m [] d = sym (append-nil m)
  collect_accounts-Distinct m (x ∷ xs) d =
      let whole : Distinct (ids m ++ x.id ∷ ids xs) = rw map-append at d in
      let new = insert_account_new m x (Distinct-before (ids m) x.id (ids xs) whole) in
      rw new (
        collect_accounts-Distinct (m ++ x ∷ []) xs (rw append_assoc d) ∙ append_assoc m (x ∷ []) xs)

  -- An id of the map is found, under its own id, and the others stay.
  take_account_found :
      (k : Text) (m : List (Account F))
      → contains (ids m) k ≡ true
      → (a : Account F) × (rest : List (Account F)) × (take_account k m ≡ some (a, rest))
        × (a.id ≡ k)
  unfolding take_account contains
  take_account_found k [] h = absurd (ground (arith, h))
  take_account_found k (x ∷ xs) h = elim (Bool-cases (text_eq x.id k)) [
    | inl hit ↦ (x, xs, ground (arith, hit), eq_of_text_eq x.id k hit)
    | inr miss ↦
        let (a, rest, e, same) = take_account_found k xs (ground (arith, miss)) in
        (a, x ∷ rest, ground (arith, miss, e), same)
  ]

  take_account-contains :
      (k : Text) (m : List (Account F)) (a : Account F) (rest : List (Account F)) (j : Text)
      → take_account k m ≡ some (a, rest)
      → contains (ids m) j ≡ (text_eq a.id j || contains (ids rest) j)
  unfolding take_account contains
  take_account-contains k [] a rest j h = absurd (ground (arith, h))
  take_account-contains k (x ∷ xs) a rest j h = elim (Bool-cases (text_eq x.id k)) [
    | inl hit ↦ let same : (x ≡ a) × (xs ≡ rest) = ground (arith, hit) in rw (same.0, same.1) refl
    | inr miss ↦ elim (Option-cases (take_account k xs)) [
      | inl e ↦ absurd (ground (arith, miss, e))
      | inr ((b, r), e) ↦
          let same : (b ≡ a) × (x ∷ r ≡ rest) = ground (arith, miss, e) in
          let found : contains (ids xs) j ≡ (text_eq b.id j || contains (ids r) j) =
            take_account-contains k xs b r j e in
          rw (← same.0, ← same.1) (ground (arith, found))
    ]
  ]

  take_account-length :
      (k : Text) (m : List (Account F)) (a : Account F) (rest : List (Account F))
      → take_account k m ≡ some (a, rest)
      → length m ≡ suc (length rest)
  unfolding take_account
  take_account-length k [] a rest h = absurd (ground (arith, h))
  take_account-length k (x ∷ xs) a rest h = elim (Bool-cases (text_eq x.id k)) [
    | inl hit ↦ let same : (x ≡ a) × (xs ≡ rest) = ground (arith, hit) in rw (same.1) refl
    | inr miss ↦ elim (Option-cases (take_account k xs)) [
      | inl e ↦ absurd (ground (arith, miss, e))
      | inr ((b, r), e) ↦
          let same : (b ≡ a) × (x ∷ r ≡ rest) = ground (arith, miss, e) in
          let found : length xs ≡ suc (length r) = take_account-length k xs b r e in
          rw (← same.1) (ground (arith, found))
    ]
  ]

  includes_rest :
      (k : Text) (m : List (Account F)) (a : Account F) (rest : List (Account F)) (js : List Text)
      → take_account k m ≡ some (a, rest)
      → a.id ≡ k
      → contains js k ≡ false
      → includes (ids m) js ≡ true
      → includes (ids rest) js ≡ true
  unfolding includes contains
  includes_rest k m a rest [] e same fresh h = refl
  includes_rest k m a rest (j ∷ js) e same fresh h = ground (
    arith,
    includes_rest k m a rest js e same,
    take_account-contains k m a rest j e,
    text_eq_iff j k,
    text_eq_iff a.id j,
  )

  -- Distinct saved ids that the map all has are placed in their order, one account each.
  pub place_all :
      (ks : List Text) (m : List (Account F))
      → Distinct ks
      → includes (ids m) ks ≡ true
      → (ids (place ks m).0 ≡ ks) × (length m ≡ length ks + length (place ks m).1)
  unfolding place includes
  place_all [] m d h = (refl, omega arith)
  place_all (k ∷ ks) m d h =
      let (a, rest, e, same) = take_account_found k m (ground (arith, h)) in
      let left : includes (ids rest) ks ≡ true =
        includes_rest k m a rest ks e same d.0 (ground (arith, h)) in
      let (order, count) = place_all ks rest d.1 left in
      rw (e, place)
        (ap₂ (λ x xs. x ∷ xs) same order, omega (arith, take_account-length k m a rest e, count))
