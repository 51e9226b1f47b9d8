-- ===== src/Pairing/Choice.antt =====
-- src-tauri/src/pairing/mod.rs: what a confirmed transfer sends beside the accounts.
use ai_usage_tracker.Prelude.{
  ℕ, ◌≡◌, sym, ◌∙◌, ap, Bool, true, none, some, List, [], ◌∷◌, all_of, Text, ok, err, arith,
}
use ai_usage_tracker.Pairing.{
  PairingSessionManager, PairingTransferOptions, FrozenExtras, freeze, exported_extras, confirm_sas,
  take_confirm, send_confirm,
}
use ai_usage_tracker.Pairing.Frame.{act-IsSameRest, is_bystander}
use ai_usage_tracker.Pairing.History.{
  Action, Run, act, acts, send_next, sends, sets_include, sets_ui_state, clears_ui_state,
  set_include_settings, set_pending_ui_state, clear_pending_ui_state,
}

module _ {V : Type 0} where
  -- An action that is not a new transfer, the end of one, an export or an air-gap transfer.
  abbrev pub leaves_choice : Action V → Bool
  leaves_choice sends = true
  leaves_choice (sets_include b) = true
  leaves_choice (sets_ui_state a v) = true
  leaves_choice clears_ui_state = true
  leaves_choice other = is_bystander other

  act-frozen :
      (a : Action V) (r : Run V) (f : FrozenExtras V)
      → leaves_choice a ≡ true
      → r.manager.options.frozen ≡ some f
      → (act a r).manager.options.frozen ≡ some f
  unfolding act send_next send_confirm freeze set_include_settings set_pending_ui_state
      clear_pending_ui_state
  act-frozen sends r f l e = ground (arith, e)
  act-frozen (sets_include b) r f l e = e
  act-frozen (sets_ui_state (ok u) v) r f l e = e
  act-frozen (sets_ui_state (err x) v) r f l e = e
  act-frozen clears_ui_state r f l e = e
  act-frozen a r f l e = ap (λ o. o.frozen) (act-IsSameRest a r l).1 ∙ e

  acts-frozen :
      (h : List (Action V)) (r : Run V) (f : FrozenExtras V)
      → all_of leaves_choice h ≡ true
      → r.manager.options.frozen ≡ some f
      → (acts h r).manager.options.frozen ≡ some f
  unfolding acts
  acts-frozen [] r f l e = e
  acts-frozen (a ∷ h) r f l e =
      acts-frozen h (act a r) f (ground (arith, l)) (act-frozen a r f (ground (arith, l)) e)

  frozen_by : PairingTransferOptions V → FrozenExtras V
  frozen_by o = elim o.frozen [
    | none ↦ record { include_settings = o.include_settings; pending_ui_state = o.pending_ui_state }
    | some f ↦ f
  ]

  freeze-frozen : (o : PairingTransferOptions V) → (freeze o).frozen ≡ some (frozen_by o)
  unfolding freeze frozen_by
  freeze-frozen o = ground arith

  exported-frozen :
      (o : PairingTransferOptions V) (f : FrozenExtras V)
      → o.frozen ≡ some f
      → exported_extras o ≡ (f.include_settings, f.pending_ui_state)
  unfolding exported_extras
  exported-frozen o f e = ground (arith, e)

  exported-frozen_by :
      (o : PairingTransferOptions V)
      → exported_extras o ≡ ((frozen_by o).include_settings, (frozen_by o).pending_ui_state)
  unfolding exported_extras frozen_by
  exported-frozen_by o = ground arith

  confirmed-frozen :
      (sid : Text) (p : PairingSessionManager V)
      → (confirm_sas sid true p).1 ≡ ok tt
      → (confirm_sas sid true p).0.options.frozen ≡ some (frozen_by p.options)
  unfolding confirm_sas take_confirm send_confirm
  confirmed-frozen sid p h = ground (arith, h, freeze-frozen p.options)

  -- Once the code is confirmed, what the transfer sends beside the accounts is what the options
  -- said at that moment, whatever the page writes to them later, as long as no session starts, is
  -- cancelled for good or joined, and nothing is exported, over the network or by air gap.
  pub confirmed_choice_kept :
      (sid : Text) (p : PairingSessionManager V) (in_hand : List (ℕ × Bool)) (h : List (Action V))
      → (confirm_sas sid true p).1 ≡ ok tt
      → all_of leaves_choice h ≡ true
      → exported_extras
          (acts h
            (record { manager = (confirm_sas sid true p).0; in_hand = in_hand })).manager.options
        ≡ exported_extras p.options
  confirmed_choice_kept sid p in_hand h c l =
      exported-frozen _ (frozen_by p.options) (acts-frozen h _ _ l (confirmed-frozen sid p c))
      ∙ sym (exported-frozen_by p.options)
