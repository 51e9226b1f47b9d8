-- ===== src/Tests/Pairs.antt =====
-- Sessions between two devices: the theorems of Pairing at small histories. A layout is a number.
use ai_usage_tracker.Prelude.{
  ℕ, ◌≤◌, ◌≡◌, refl, true, false, none, some, List, [], ◌∷◌, codes, ok, err, arith, text_eq,
}
use ai_usage_tracker.Prelude.Maps.{lookup, insert}
use ai_usage_tracker.Pairing.{
  PairingSessionManager, PairingHostInit, PairingStatus, confirm_sas, exported_extras, interrupted,
}
use ai_usage_tracker.Pairing.Sessions.{count_join, begin_host, open_host}
use ai_usage_tracker.Pairing.History.{
  Action, Run, fresh, act, acts, begins_host, opens_host, offers_confirm, takes, sends,
  sets_include, counts_join,
}
use ai_usage_tracker.Pairing.Answers.{answers, offers, answers-le-offers}
use ai_usage_tracker.Pairing.Choice.{confirmed_choice_kept}
use ai_usage_tracker.Pairing.Overtaken.{open_host-overtaken}

abbrev sample_init : PairingHostInit
sample_init = record {
  session_id = codes "one";
  qr_svg = [];
  qr_uri = [];
  fingerprint = [];
  join_code = codes "482913";
  expires_at = 120;
}

-- A confirmation that is sent twice by the page.
abbrev confirmed_twice : List (Action ℕ)
confirmed_twice =
    begins_host
    ∷ opens_host 1 sample_init 7
    ∷ offers_confirm (codes "one") 8
    ∷ takes (codes "one") true
    ∷ takes (codes "one") false
    ∷ sends
    ∷ sends
    ∷ []

answers-le-offers_example :
    answers 8 (acts confirmed_twice fresh).manager.sent ≤ offers 8 confirmed_twice
answers-le-offers_example = answers-le-offers 8 confirmed_twice

abbrev guesses : List (Action ℕ)
guesses =
    counts_join (codes "123123") (err [])
    ∷ counts_join (codes "123123") (err [])
    ∷ counts_join (codes "123123") (err [])
    ∷ []

abbrev locked : Run ℕ
locked = record {
  manager = record {
    status = PairingStatus.idle;
    active = none;
    join_attempts = (codes "123123", 5) ∷ [];
    epoch = 0;
    options = record { include_settings = false; pending_ui_state = none; frozen = none };
    sent = [];
  };
  in_hand = [];
}

-- Lookups that were all begun before the first of them failed are all counted.
overlapping : (acts guesses locked).manager.join_attempts ≡ (codes "123123", 8) ∷ []
unfolding acts act count_join lookup insert text_eq
overlapping = refl

abbrev waiting_manager : PairingSessionManager ℕ
waiting_manager = record {
  status = PairingStatus.transferring (codes "one");
  active = some (record {
    session_id = codes "one";
    cancel_tx = some 7;
    role_select_tx = none;
    sas_confirm_tx = some 8;
    advertisement = none;
  });
  join_attempts = [];
  epoch = 1;
  options = record { include_settings = false; pending_ui_state = none; frozen = none };
  sent = [];
}

confirmed : (confirm_sas (codes "one") true waiting_manager).1 ≡ ok tt
unfolding confirm_sas text_eq
confirmed = refl

confirmed_choice_kept_example :
    exported_extras
      (acts (sets_include true ∷ sends ∷ []) (record {
        manager = (confirm_sas (codes "one") true waiting_manager).0;
        in_hand = [];
      })).manager.options
    ≡ exported_extras waiting_manager.options
confirmed_choice_kept_example =
    confirmed_choice_kept (codes "one") waiting_manager [] (sets_include true ∷ sends ∷ [])
      confirmed refl

open_host-overtaken_example :
    open_host
      (begin_host locked.manager).1
      sample_init
      9
      (acts [] (act begins_host (acts guesses (act begins_host locked)))).manager
    ≡ ((acts [] (act begins_host (acts guesses (act begins_host locked)))).manager, err interrupted)
open_host-overtaken_example =
    open_host-overtaken locked guesses [] sample_init 9 (omega arith) (omega arith)
