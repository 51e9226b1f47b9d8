-- ===== src/AccountOrder/Laws.antt =====
-- What `apply` and `save` guarantee.
use mathlib.Core.List.Perm
use mathlib.Core.List.{append-nil}
use ai_usage_tracker.Prelude.{
  suc, ◌≡◌, refl, ap, sym, ◌∙◌, ◌↔◌, ◌⊎◌, true, List, [], ◌∷◌, Perm, arith, length, Text, contains,
  Distinct, includes, set_eq, to_set_self, Distinct-of_length, contains_of_length,
  includes_of_contains, text_eq_refl, eq_of_text_eq, ok, err, Perm-Distinct, Perm-includes,
  length-perm,
}
use ai_usage_tracker.Model.{Account}
use ai_usage_tracker.JsonFile.{Codec, Write}
use ai_usage_tracker.AccountOrder.{
  AccountOrderFile, AccountOrderStore, OrderError, ids, place, sort_accounts, arrange, same_ids,
  persist, apply, check_order, save,
}
use ai_usage_tracker.AccountOrder.Placement.{
  place-perm, place_all, sort_accounts-perm, collect_accounts-Distinct,
}

nil_of_length {ℓ} : {A : Type ℓ} (xs : List A) → length xs ≡ 0 → xs ≡ []
nil_of_length [] h = refl
nil_of_length (x ∷ xs) h = absurd (omega arith)

length-ids : {F : Type 0} (accounts : List (Account F)) → length (ids accounts) ≡ length accounts
length-ids [] = refl
length-ids (x ∷ xs) = ap suc (length-ids xs)

-- A `HashMap` visits each of its entries once, in an order of its own.
abbrev pub VisitsAll : {F : Type 0} → (List (Account F) → List (Account F)) → Type 0
VisitsAll iteration = (m : List _) → Perm (iteration m) m

module _ {F : Type 0} (iteration : List (Account F) → List (Account F)) where
  pub arrange-perm :
      (saved : List Text) (accounts : List (Account F))
      → VisitsAll iteration
      → Distinct (ids accounts)
      → Perm (arrange iteration saved accounts) accounts
  unfolding arrange
  arrange-perm saved accounts visits d = rw (collect_accounts-Distinct [] accounts d) (
      Perm.trans
        (Perm.append_left (place saved accounts).0 (
          Perm.trans (sort_accounts-perm (iteration (place saved accounts).1))
            (visits (place saved accounts).1)))
        (Perm.symm (place-perm saved accounts)))

  -- Saved places for every account decide the whole order.
  pub ids-arrange :
      (saved : List Text) (accounts : List (Account F))
      → VisitsAll iteration
      → Distinct (ids accounts)
      → Distinct saved
      → includes (ids accounts) saved ≡ true
      → length saved ≡ length accounts
      → ids (arrange iteration saved accounts) ≡ saved
  unfolding arrange
  ids-arrange saved accounts visits d e h n =
      let (order, count) = place_all saved accounts e h in
      let all : (place saved accounts).1 ≡ [] =
        nil_of_length _ (ground (arith, count, n, length-ids accounts)) in
      rw
        (
          collect_accounts-Distinct [] accounts d,
          all,
          Perm.eq-nil (visits []),
          sort_accounts,
          append-nil,
        )
        order

same_ids_refl : (xs : List Text) → same_ids xs xs ≡ true
unfolding same_ids
same_ids_refl [] = refl
same_ids_refl (x ∷ xs) = ground (arith, text_eq_refl x, same_ids_refl xs)

eq_of_same_ids : (xs ys : List Text) → same_ids xs ys ≡ true → xs ≡ ys
unfolding same_ids
eq_of_same_ids [] [] h = refl
eq_of_same_ids [] (y ∷ ys) h = cc
eq_of_same_ids (x ∷ xs) [] h = cc
eq_of_same_ids (x ∷ xs) (y ∷ ys) h = ground (arith, eq_of_text_eq x y, eq_of_same_ids xs ys)

module _ {F : Type 0} where
  check_order_sound :
      (requested : List Text) (accounts : List (Account F))
      → Distinct (ids accounts)
      → check_order requested accounts ≡ ok tt
      → Distinct requested
        × (length requested ≡ length accounts)
        × (includes (ids accounts) requested ≡ true)
  unfolding check_order set_eq
  check_order_sound requested accounts d h =
      let lone : Distinct requested = Distinct-of_length requested (ground (arith, h)) in
      (lone, ground arith, ground (arith, to_set_self requested lone, to_set_self (ids accounts) d))

  check_order_complete :
      (requested : List Text) (accounts : List (Account F))
      → Distinct (ids accounts)
      → Distinct requested
      → length requested ≡ length accounts
      → includes (ids accounts) requested ≡ true
      → check_order requested accounts ≡ ok tt
  unfolding check_order set_eq
  check_order_complete requested accounts d lone n h =
      rw (to_set_self requested lone, to_set_self (ids accounts) d)
        (ground (arith, length-ids accounts))

-- If no two accounts share an id, the checks of `save` pass exactly when the request has no id twice, as many ids as there are
-- accounts, and the accounts' ids and no others.
pub check_order_iff :
    {F : Type 0} (requested : List Text) (accounts : List (Account F))
    → Distinct (ids accounts)
    → (check_order requested accounts ≡ ok tt) ↔ (
        Distinct requested
        × (length requested ≡ length accounts)
        × ((a : Text) → contains requested a ≡ contains (ids accounts) a))
check_order_iff requested accounts d = (
  λ h.
      let (lone, n, inside) = check_order_sound requested accounts d h in
      (
        lone,
        n,
        λ a.
            contains_of_length requested (ids accounts) a lone d inside
              (omega (arith, length-ids accounts)),
      ),
  λ h.
      check_order_complete requested accounts d h.0 h.1
        (includes_of_contains (ids accounts) requested (λ a k. sym (h.2 a) ∙ k)),
)

persist-account_ids :
    {P : Type 0} (json : Codec AccountOrderFile P) (io : Write) (s : AccountOrderStore P)
    → (persist json io s).0.account_ids ≡ s.account_ids
unfolding persist
persist-account_ids json io s = refl

module _ {P F : Type 0} (json : Codec AccountOrderFile P)
    (iteration : List (Account F) → List (Account F)) (visits : VisitsAll iteration) where
  -- If no two accounts share an id, `apply` orders every account once, keeps that order, on disk or
  -- not, and returns it or an error.
  pub apply-perm :
      (io : Write) (accounts : List (Account F)) (s : AccountOrderStore P)
      → Distinct (ids accounts)
      → Perm (arrange iteration s.account_ids accounts) accounts
        × ((apply json iteration io accounts s).0.account_ids
            ≡ ids (arrange iteration s.account_ids accounts))
        × (((apply json iteration io accounts s).1 ≡ ok (arrange iteration s.account_ids accounts))
            ⊎ ((e : OrderError) × ((apply json iteration io accounts s).1 ≡ err e)))
  unfolding apply persist
  apply-perm io accounts s d =
      let ordered = arrange iteration s.account_ids accounts in
      (
        arrange-perm iteration s.account_ids accounts visits d,
        ground (arith, eq_of_same_ids s.account_ids (ids ordered)),
        ground arith,
      )

  -- When the saved order is the order shown, `apply` writes nothing.
  apply_settled :
      (io : Write) (accounts : List (Account F)) (s : AccountOrderStore P)
      → ids (arrange iteration s.account_ids accounts) ≡ s.account_ids
      → apply json iteration io accounts s ≡ (s, ok (arrange iteration s.account_ids accounts))
  unfolding apply
  apply_settled io accounts s e =
      let same : same_ids s.account_ids (ids (arrange iteration s.account_ids accounts)) ≡ true =
        rw e (same_ids_refl s.account_ids) in
      rw same

  -- If no two accounts share an id, a second `apply` to the same accounts leaves the store as the
  -- first left it and returns the order that was kept.
  apply_again :
      (io again : Write) (accounts : List (Account F)) (s : AccountOrderStore P)
      → Distinct (ids accounts)
      → let s' = (apply json iteration io accounts s).0 in
        (apply json iteration again accounts s'
          ≡ (s', ok (arrange iteration s'.account_ids accounts)))
        × (ids (arrange iteration s'.account_ids accounts)
            ≡ ids (arrange iteration s.account_ids accounts))
  apply_again io again accounts s d =
      let (shown, kept, _) = apply-perm io accounts s d in
      let ordered = arrange iteration s.account_ids accounts in
      let same : Perm (ids ordered) (ids accounts) = Perm.map _ shown in
      let settled : ids (arrange iteration (ids ordered) accounts) ≡ ids ordered =
        ids-arrange iteration (ids ordered) accounts visits d (Perm-Distinct (Perm.symm same) d)
          (Perm-includes same)
          (omega (arith, length-perm shown, length-ids accounts, length-ids ordered)) in
      (apply_settled again accounts _ (rw kept settled), rw kept settled)

  -- If no two accounts share an id, the checks pass and the write succeeds, then `save` makes no
  -- second write and returns every account once, in the order requested.
  pub save_order :
      (io again : Write) (requested : List Text) (accounts : List (Account F))
      (s : AccountOrderStore P)
      → Distinct (ids accounts)
      → check_order requested accounts ≡ ok tt
      → (persist json io (record s { account_ids = requested })).1 ≡ ok tt
      → (save json iteration io again requested accounts s ≡ (
        (persist json io (record s { account_ids = requested })).0,
        ok (arrange iteration requested accounts),
      ))
        × (ids (arrange iteration requested accounts) ≡ requested)
        × Perm (arrange iteration requested accounts) accounts
  unfolding save
  save_order io again requested accounts s d accepted written =
      let (lone, n, inside) = check_order_sound requested accounts d accepted in
      let kept : (persist json io (record s { account_ids = requested })).0.account_ids
          ≡ requested =
        persist-account_ids json io _ in
      let settled : ids (arrange iteration requested accounts) ≡ requested =
        ids-arrange iteration requested accounts visits d lone inside n in
      let shown = apply_settled again accounts _ (rw kept settled) in
      (
        rw (accepted, save, written) (shown ∙ rw kept refl),
        settled,
        arrange-perm iteration requested accounts visits d,
      )
