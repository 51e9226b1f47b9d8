-- ===== src/Tests/Orders.antt =====
-- The account order.
use mathlib.Core.List.Perm
use mathlib.Core.List.{reverse_perm}
use ai_usage_tracker.Prelude.{
  ℕ, ◌≡◌, ◌⊎◌, ◌↔◌, refl, List, [], ◌∷◌, Perm, Text, codes, text_eq, contains, Distinct, length,
  text_leb, to_set, set_eq, includes, ok, err,
}
use ai_usage_tracker.Model.{Account}
use ai_usage_tracker.AccountOrder.{
  AccountOrderFile, AccountOrderStore, OrderError, ids, arrange, apply, check_order, persist, save,
}
use ai_usage_tracker.AccountOrder.Laws.{VisitsAll, apply-perm, save_order, check_order_iff}
use ai_usage_tracker.AccountOrder.Iteration.{arrange_iteration}
use ai_usage_tracker.Tests.Samples.{plain_codec, no_file, written, alpha, beta, gamma}

abbrev in_order : List (Account ℕ) → List (Account ℕ)
in_order m = m

in_order-VisitsAll : VisitsAll in_order
in_order-VisitsAll m = Perm.refl m

abbrev backwards : List (Account ℕ) → List (Account ℕ)
backwards m = mathlib.Core.List.reverse m

backwards-VisitsAll : VisitsAll backwards
backwards-VisitsAll m = reverse_perm m

abbrev three : List (Account ℕ)
three = gamma ∷ alpha ∷ beta ∷ []

abbrev store : AccountOrderStore AccountOrderFile
store = record { file = no_file; account_ids = codes "b" ∷ codes "x" ∷ [] }

abbrev request : List Text
request = codes "c" ∷ codes "b" ∷ codes "a" ∷ []

three-Distinct : Distinct (ids three)
unfolding contains text_eq
three-Distinct = (refl, (refl, (refl, tt)))

-- The saved account comes first, then the others, oldest first.
arranged : ids (arrange backwards store.account_ids three) ≡ codes "b" ∷ codes "a" ∷ codes "c" ∷ []
unfolding arrange text_eq text_leb
arranged = refl

apply-perm_example :
    Perm (arrange backwards store.account_ids three) three
    × ((apply plain_codec backwards written three store).0.account_ids
        ≡ ids (arrange backwards store.account_ids three))
    × (((apply plain_codec backwards written three store).1
          ≡ ok (arrange backwards store.account_ids three))
        ⊎ ((e : OrderError) × ((apply plain_codec backwards written three store).1 ≡ err e)))
apply-perm_example =
    apply-perm plain_codec backwards backwards-VisitsAll written three store three-Distinct

check_order_iff_example : (check_order request three ≡ ok tt) ↔ (
    Distinct request
    × (length request ≡ length three)
    × ((a : Text) → contains request a ≡ contains (ids three) a))
check_order_iff_example = check_order_iff request three three-Distinct

save_order_example :
    (save plain_codec backwards written
        (record { replaced = err (codes "disk full"); hardened = ok tt })
        request
        three
        store
      ≡ (
        (persist plain_codec written (record store { account_ids = request })).0,
        ok (arrange backwards request three),
      ))
    × (ids (arrange backwards request three) ≡ request)
    × Perm (arrange backwards request three) three
unfolding check_order text_eq contains to_set set_eq includes persist
save_order_example =
    save_order plain_codec backwards backwards-VisitsAll written
      (record { replaced = err (codes "disk full"); hardened = ok tt }) request three store
      three-Distinct refl refl

arrange_iteration_example :
    ids (arrange backwards store.account_ids three) ≡ ids (arrange in_order store.account_ids three)
arrange_iteration_example =
    arrange_iteration backwards in_order backwards-VisitsAll in_order-VisitsAll store.account_ids
      three three-Distinct
