-- ===== src/Accounts/Classified.antt =====
-- src-tauri/src/store/accounts.rs: the kinds of the usage windows of the saved accounts.
use ai_usage_tracker.Prelude.{
  ℕ, ◌≡◌, refl, Bool, some, List, [], ◌∷◌, map, All, Text, text_eq, inl, inr, Bool-cases,
  Option-cases, arith,
}
use ai_usage_tracker.Model.{Account}
use ai_usage_tracker.Windows.{classify_windows, classify_usage_twice}
use ai_usage_tracker.Accounts.Merge.{merge_account, newer_usage_lem}
use ai_usage_tracker.Accounts.Operations.{touch, update_account, upserted, drop_usage}

module _ {F : Type 0} (is_alphanumeric : ℕ → Bool) (to_lowercase : Text → Text) where
  -- The kinds of the account's windows are those that the code works out.
  abbrev pub IsClassified : Account F → Type 0
  IsClassified a = (classify_windows is_alphanumeric to_lowercase a).last_usage ≡ a.last_usage

  classify_self :
      (a : Account F) → IsClassified a → classify_windows is_alphanumeric to_lowercase a ≡ a
  unfolding classify_windows
  classify_self a h = rw h refl

  pub map-classify_self :
      (as' : List (Account F))
      → All IsClassified as'
      → map (classify_windows is_alphanumeric to_lowercase) as' ≡ as'
  map-classify_self [] h = refl
  map-classify_self (a ∷ as') h = rw (classify_self a h.0, map-classify_self as' h.1) refl

  pub classify-IsClassified :
      (a : Account F) → IsClassified (classify_windows is_alphanumeric to_lowercase a)
  unfolding classify_windows
  classify-IsClassified a = elim (Option-cases a.last_usage) [
    | inl e ↦ rw e refl
    | inr (u, e) ↦ rw (e, classify_usage_twice is_alphanumeric to_lowercase u) refl
  ]

  pub map-classify-IsClassified :
      (as' : List (Account F))
      → All IsClassified (map (classify_windows is_alphanumeric to_lowercase) as')
  map-classify-IsClassified [] = tt
  map-classify-IsClassified (a ∷ as') = (classify-IsClassified a, map-classify-IsClassified as')

  pub upserted-IsClassified :
      (now : Text) (incoming existing : Account F)
      → IsClassified incoming
      → IsClassified existing
      → IsClassified (upserted now incoming existing)
  unfolding classify_windows touch merge_account
  upserted-IsClassified now incoming existing h k =
      elim (newer_usage_lem existing.last_usage incoming.last_usage).2 [
        | inl e ↦ rw (e, k) refl
        | inr e ↦ rw (e, h) refl
      ]

  pub update_account-All :
      (id : Text) (f : Account F → Account F)
      → ((a : Account F) → IsClassified a → IsClassified (f a))
      → (xs : List (Account F)) (b : Account F) (ys : List (Account F))
      → update_account id f xs ≡ some (b, ys)
      → All IsClassified xs
      → All IsClassified ys
  unfolding update_account
  update_account-All id f keeps [] b ys e h = absurd (ground (arith, e))
  update_account-All id f keeps (x ∷ xs) b ys e h = elim (Bool-cases (text_eq x.id id)) [
    | inl hit ↦ let same : f x ∷ xs ≡ ys = ground (arith, hit, e) in rw (← same) (keeps x h.0, h.1)
    | inr miss ↦ elim (Option-cases (update_account id f xs)) [
      | inl n ↦ absurd (ground (arith, miss, n, e))
      | inr ((c, cs), s) ↦
          let same : x ∷ cs ≡ ys = ground (arith, miss, s, e) in
          rw (← same) (h.0, update_account-All id f keeps xs c cs s h.1)
    ]
  ]

  pub drop_usage-All : (xs : List (Account F)) → All IsClassified (map drop_usage xs)
  unfolding classify_windows
  drop_usage-All [] = tt
  drop_usage-All (x ∷ xs) = (refl, drop_usage-All xs)
