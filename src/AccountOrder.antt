-- ===== src/AccountOrder.antt =====
-- src-tauri/src/store/account_order.rs: the order in which the accounts are shown. One call runs at
-- a time; the locks leave no trace. A `HashMap` is the list of its entries, and `iteration` is the
-- order in which `into_values` visits them, which std leaves open.
pub mod Placement
pub mod Laws
pub mod Iteration
use ai_usage_tracker.Prelude.{
  ℕ, ◌≡◌, Bool, true, false, not, ◌&&◌, ◌||◌, Option, none, some, List, [], ◌∷◌, ◌++◌, map, ◌==◌,
  if◌then◌else◌, length, Text, text_eq, text_leb, without, to_set, set_eq, Result, ok, err,
}
use ai_usage_tracker.Model.{Account}
use ai_usage_tracker.JsonFile.{Codec, Io, Write, JsonFile, save_file, open_file}

pub record AccountOrderFile : Type 0 where
  pub version : ℕ
  pub account_ids : List Text

pub record AccountOrderStore (P : Type 0) : Type 0 where
  pub file : JsonFile P
  pub account_ids : List Text

pub data OrderError : Type 0 where
  -- "The account order must include every connected account exactly once."
  incomplete : OrderError
  -- "The account order contains a duplicate, missing, or unknown account."
  mismatched : OrderError
  file_error : Text → OrderError

module _ {F : Type 0} where
  abbrev pub ids : List (Account F) → List Text
  ids = map λ a. a.id

  -- `HashMap::insert` under the account's own id: a later account takes the place of an earlier.
  unfoldable pub insert_account : List (Account F) → Account F → List (Account F)
  insert_account [] a = a ∷ []
  insert_account (x ∷ xs) a = if text_eq x.id a.id then a ∷ xs else x ∷ insert_account xs a

  -- `accounts.into_iter().map(..).collect::<HashMap<_, _>>()`
  unfoldable pub collect_accounts : List (Account F) → List (Account F) → List (Account F)
  unfolding insert_account
  collect_accounts entries [] = entries
  collect_accounts entries (a ∷ as') = collect_accounts (insert_account entries a) as'

  -- `HashMap::remove`
  unfoldable pub take_account : Text → List (Account F) → Option (Account F × List (Account F))
  take_account k [] = none
  take_account k (x ∷ xs) =
      if text_eq x.id k
      then some (x, xs)
      else elim (take_account k xs) [ none ↦ none | some (a, rest) ↦ some (a, x ∷ rest) ]

  -- The loop over the saved ids: the accounts placed, and what is left of the map.
  unfoldable pub place : List Text → List (Account F) → List (Account F) × List (Account F)
  unfolding take_account
  place [] entries = ([], entries)
  place (k ∷ ks) entries = elim (take_account k entries) [
    | none ↦ place ks entries
    | some (a, rest) ↦ let (placed, left) = place ks rest in (a ∷ placed, left)
  ]

  -- `left.created_at.cmp(..).then_with(|| left.id.cmp(..))` is not Greater.
  unfoldable pub older_first : Account F → Account F → Bool
  older_first a b =
      if text_eq a.created_at b.created_at
      then text_leb a.id b.id
      else text_leb a.created_at b.created_at

  unfoldable pub sort_insert : Account F → List (Account F) → List (Account F)
  unfolding older_first
  sort_insert a [] = a ∷ []
  sort_insert a (x ∷ xs) = if older_first a x then a ∷ x ∷ xs else x ∷ sort_insert a xs

  -- `sort_by`, which is stable.
  unfoldable pub sort_accounts : List (Account F) → List (Account F)
  unfolding sort_insert
  sort_accounts [] = []
  sort_accounts (a ∷ as') = sort_insert a (sort_accounts as')

  module _ (iteration : List (Account F) → List (Account F)) where
    -- The accounts in order: those with a saved place, then the others, oldest first.
    unfoldable pub arrange : List Text → List (Account F) → List (Account F)
    unfolding collect_accounts place sort_accounts
    arrange saved accounts =
        let (placed, left) = place saved (collect_accounts [] accounts) in
        placed ++ sort_accounts (iteration left)

-- `*self.account_ids.read() != normalized_ids`, negated.
unfoldable pub same_ids : List Text → List Text → Bool
same_ids [] [] = true
same_ids [] (b ∷ bs) = false
same_ids (a ∷ as') [] = false
same_ids (a ∷ as') (b ∷ bs) = text_eq a b && same_ids as' bs

module _ {F : Type 0} where
  -- The checks of `save`: as many ids as accounts, none twice, and the same ids.
  unfoldable pub check_order : List Text → List (Account F) → Result OrderError (Unit {0})
  check_order requested accounts =
      if not (length requested == length accounts)
      then err incomplete
      else if not (length (to_set requested) == length requested)
          || not (set_eq (to_set requested) (to_set (ids accounts)))
      then err mismatched
      else ok tt

module _ {P : Type 0} (json : Codec AccountOrderFile P) where
  unfoldable pub load : Io → Io → Io → JsonFile P → Result Text (AccountOrderStore P)
  unfolding open_file
  load dir read private file =
      elim (open_file json dir read private (record { version = 0; account_ids = [] }) file) [
        | ok (f, saved) ↦ ok (record { file = f; account_ids = saved.account_ids })
        | err e ↦ err e
      ]

  -- The ids stay as they are in memory, whether or not they reach the disk.
  unfoldable pub persist :
      Write → AccountOrderStore P → AccountOrderStore P × Result OrderError (Unit {0})
  unfolding save_file
  persist io s =
      let (f, result) =
        save_file json io s.file (record { version = 1; account_ids = s.account_ids }) in
      (record s { file = f }, elim result [ ok _ ↦ ok tt | err e ↦ err (file_error e) ])

  unfoldable pub remove :
      Write → Text → AccountOrderStore P → AccountOrderStore P × Result OrderError (Unit {0})
  remove io account_id s =
      let rest = without account_id s.account_ids in
      if length rest == length s.account_ids
      then (s, ok tt)
      else persist io (record s { account_ids = rest })

  unfoldable pub clear :
      Write → AccountOrderStore P → AccountOrderStore P × Result OrderError (Unit {0})
  clear io s = elim s.account_ids [
    | [] ↦ (s, ok tt)
    | _ ∷ _ ↦ persist io (record s { account_ids = [] })
  ]

  module _ {F : Type 0} (iteration : List (Account F) → List (Account F)) where
    unfoldable pub apply :
        Write
        → List (Account F)
        → AccountOrderStore P
        → AccountOrderStore P × Result OrderError (List (Account F))
    apply io accounts s =
        let ordered = arrange iteration s.account_ids accounts in
        if same_ids s.account_ids (ids ordered)
        then (s, ok ordered)
        else let (s', result) = persist io (record s { account_ids = ids ordered }) in
          (s', elim result [ ok _ ↦ ok ordered | err e ↦ err e ])

    -- `save` writes the order, and `apply` writes again only if it changes the order.
    unfoldable pub save :
        Write
        → Write
        → List Text
        → List (Account F)
        → AccountOrderStore P
        → AccountOrderStore P × Result OrderError (List (Account F))
    save io again requested accounts s = elim (check_order requested accounts) [
      | err e ↦ (s, err e)
      | ok _ ↦
          let (s', result) = persist io (record s { account_ids = requested }) in
          elim result [ err e ↦ (s', err e) | ok _ ↦ apply again accounts s' ]
    ]
