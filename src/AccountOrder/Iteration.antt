-- ===== src/AccountOrder/Iteration.antt =====
-- The accounts left over, under two orders in which a `HashMap` may visit its entries.
use mathlib.Core.List.{Permᴰ}
use mathlib.Core.List.Perm
use mathlib.Core.List.Permᴰ
use mathlib.Core.List.{map-append}
use mathlib.Core.Logic.{∥∥₁_elim}
use ai_usage_tracker.Prelude.{
  ◌≡◌, refl, ap, ◌∙◌, true, false, List, [], ◌∷◌, ◌++◌, Perm, arith, Text, text_eq, text_eq_iff,
  text_eq_sym, text_leb_total, text_leb_antisym, text_leb_trans, contains, Distinct, Permᴰ-Distinct,
  Perm-Distinct,
}
use ai_usage_tracker.Model.{Account}
use ai_usage_tracker.AccountOrder.{ids, place, older_first, sort_insert, sort_accounts, arrange}
use ai_usage_tracker.AccountOrder.Placement.{place-perm, collect_accounts-Distinct}
use ai_usage_tracker.AccountOrder.Laws.{VisitsAll}

Distinct-pair : (x y : Text) (rest : List Text) → Distinct (y ∷ x ∷ rest) → text_eq x y ≡ false
unfolding contains
Distinct-pair x y rest d = ground arith

Distinct-after : (xs ys : List Text) → Distinct (xs ++ ys) → Distinct ys
Distinct-after [] ys d = d
Distinct-after (x ∷ xs) ys d = Distinct-after xs ys d.1

module _ {F : Type 0} where
  older_first_total : (a b : Account F) → older_first a b ≡ false → older_first b a ≡ true
  unfolding older_first
  older_first_total a b h = ground (
    arith,
    text_eq_iff a.created_at b.created_at,
    text_eq_iff b.created_at a.created_at,
    text_leb_total a.id b.id,
    text_leb_total a.created_at b.created_at,
  )

  older_first_antisym :
      (a b : Account F) → older_first a b ≡ true → older_first b a ≡ true → a.id ≡ b.id
  unfolding older_first
  older_first_antisym a b h k = ground (
    arith,
    text_eq_iff a.created_at b.created_at,
    text_eq_iff b.created_at a.created_at,
    text_leb_antisym a.id b.id,
    text_leb_antisym a.created_at b.created_at,
  )

  older_first_trans :
      (a b c : Account F) → older_first a b ≡ true → older_first b c ≡ true → older_first a c ≡ true
  unfolding older_first
  older_first_trans a b c h k = ground (
    arith,
    text_eq_iff a.created_at b.created_at,
    text_eq_iff b.created_at c.created_at,
    text_eq_iff a.created_at c.created_at,
    text_leb_trans a.id b.id c.id,
    text_leb_trans a.created_at b.created_at c.created_at,
    text_leb_antisym a.created_at b.created_at,
    text_leb_antisym b.created_at c.created_at,
  )

  sort_insert_comm :
      (a b : Account F) (xs : List (Account F))
      → text_eq a.id b.id ≡ false
      → sort_insert a (sort_insert b xs) ≡ sort_insert b (sort_insert a xs)
  unfolding sort_insert
  sort_insert_comm a b [] n =
      ground (arith, text_eq_iff a.id b.id, older_first_total a b, older_first_antisym a b)
  sort_insert_comm a b (x ∷ xs) n = ground (
    arith,
    text_eq_iff a.id b.id,
    older_first_total a b,
    older_first_antisym a b,
    older_first_trans a b x,
    older_first_trans b a x,
    sort_insert_comm a b xs n,
  )

  sort_accounts-permᴰ :
      {xs ys : List (Account F)}
      → Permᴰ xs ys
      → Distinct (ids xs)
      → sort_accounts xs ≡ sort_accounts ys
  unfolding sort_accounts
  sort_accounts-permᴰ Permᴰ.nil d = refl
  sort_accounts-permᴰ (Permᴰ.cons e p) d = rw (e, sort_accounts-permᴰ p d.1)
  sort_accounts-permᴰ (Permᴰ.swap {a = a} {b = b} {l = l} e f) d =
      rw (← e, ← f)
        (sort_insert_comm a b (sort_accounts l)
          (text_eq_sym a.id b.id ∙ Distinct-pair b.id a.id (ids l) d))
  sort_accounts-permᴰ (Permᴰ.trans p q) d =
      sort_accounts-permᴰ p d
      ∙ sort_accounts-permᴰ q (Permᴰ-Distinct (Permᴰ.map (λ (a : Account F). a.id) p) d)

  sort_ids-perm :
      {xs ys : List (Account F)}
      → Perm xs ys
      → Distinct (ids xs)
      → ids (sort_accounts xs) ≡ ids (sort_accounts ys)
  sort_ids-perm p d = ∥∥₁_elim p (hlevel) (λ q. ap ids (sort_accounts-permᴰ q d))

  -- If no two accounts share an id, the ids come out in one order, whatever the two maps' orders of
  -- iteration.
  pub arrange_iteration :
      (iteration other : List (Account F) → List (Account F))
      → VisitsAll iteration
      → VisitsAll other
      → (saved : List Text) (accounts : List (Account F)) → Distinct (ids accounts)
      → ids (arrange iteration saved accounts) ≡ ids (arrange other saved accounts)
  unfolding arrange
  arrange_iteration iteration other visits visits' saved accounts d =
      let (placed, left) = place saved accounts in
      let lone : Distinct (ids placed ++ ids left) =
        rw (← map-append) (Perm-Distinct (Perm.map _ (place-perm saved accounts)) d) in
      let alone : Distinct (ids left) = Distinct-after (ids placed) (ids left) lone in
      let same : ids (sort_accounts (iteration left)) ≡ ids (sort_accounts (other left)) =
        sort_ids-perm (Perm.trans (visits left) (Perm.symm (visits' left)))
          (Perm-Distinct (Perm.map _ (Perm.symm (visits left))) alone) in
      rw (collect_accounts-Distinct [] accounts d, map-append, map-append, same)
