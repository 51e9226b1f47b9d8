-- ===== src/Transport/Secrecy.antt =====
-- src-tauri/src/pairing/transport.rs: when the accounts leave a device, and when they enter one.
use ai_usage_tracker.Prelude.{
  ℕ, ◌≡◌, refl, Bool, true, false, not, ◌&&◌, ◌||◌, Option, none, some, List, [], ◌∷◌, ◌==◌, Text,
  Result, ok, err, is_ok, Result-cases, inl, inr, arith,
}
use ai_usage_tracker.Transport.{
  Side, Phase, confirming, awaiting_ack, awaiting_payload, finished, Transfer, Happening, cancels,
  answers, receives, times_out, initial, finish, fail, write_unchecked, check_confirm,
  confirm_phase, after_confirmation, send_payload,
}
use ai_usage_tracker.Transport.Steps.{step_in, step, run, on_answer, on_peer, on_ack, on_payload}

-- Whether a payload was written or imported.
unfoldable pub has_payload : List (ℕ × List ℕ) → Bool
has_payload [] = false
has_payload ((kind, body) ∷ rest) = kind == 4 || has_payload rest

abbrev pub is_some_bytes : List (List ℕ) → Bool
is_some_bytes [] = false
is_some_bytes (b ∷ bs) = true

abbrev pub has_moved : Transfer → Bool
has_moved t = has_payload t.written || is_some_bytes t.imported

-- Whether the user has said agreed, and whether the peer has sent a confirmation that passes.
abbrev is_yes : Happening → Bool
is_yes (answers (some b)) = b
is_yes other = false

abbrev is_proof : Side → Happening → Bool
is_proof side (receives frame) = is_ok (check_confirm side frame)
is_proof side other = false

abbrev pub said_yes : List (Happening × Result Text (Unit {0}) × Result Text (Unit {0})) → Bool
said_yes [] = false
said_yes (h ∷ rest) = is_yes h.0 || said_yes rest

abbrev pub peer_proved :
    Side → List (Happening × Result Text (Unit {0}) × Result Text (Unit {0})) → Bool
peer_proved side [] = false
peer_proved side (h ∷ rest) = is_proof side h.0 || peer_proved side rest

guarded_in : Phase → Bool → Bool → Bool → Bool
guarded_in (confirming mine theirs) agreed proof moved =
    (not mine || agreed) && (not theirs || proof) && not moved
guarded_in awaiting_ack agreed proof moved = agreed && proof
guarded_in awaiting_payload agreed proof moved = agreed && proof
guarded_in finished agreed proof moved = not moved || (agreed && proof)

-- Each confirmation in the phase was given, and what has moved has moved after both.
guarded : Bool → Bool → Transfer → Bool
unfolding guarded_in
guarded agreed proof t = guarded_in t.phase agreed proof (has_moved t)

guarded_in-more :
    (phase : Phase) (agreed proof a b moved : Bool)
    → guarded_in phase agreed proof moved ≡ true
    → guarded_in phase (agreed || a) (proof || b) moved ≡ true
unfolding guarded_in
guarded_in-more (confirming mine theirs) agreed proof a b moved h = ground (arith, h)
guarded_in-more awaiting_ack agreed proof a b moved h = ground (arith, h)
guarded_in-more awaiting_payload agreed proof a b moved h = ground (arith, h)
guarded_in-more finished agreed proof a b moved h = ground (arith, h)

guarded-more :
    (t : Transfer) (agreed proof a b : Bool)
    → guarded agreed proof t ≡ true
    → guarded (agreed || a) (proof || b) t ≡ true
unfolding guarded
guarded-more t agreed proof a b h = guarded_in-more t.phase agreed proof a b _ h

or_assoc : (a b c : Bool) → (a || (b || c)) ≡ ((a || b) || c)
or_assoc a b c = ground arith

both_of :
    (phase : Phase) (agreed proof moved : Bool)
    → moved ≡ true
    → guarded_in phase agreed proof moved ≡ true
    → (agreed ≡ true) × (proof ≡ true)
unfolding guarded_in
both_of (confirming mine theirs) agreed proof moved m h = ground (arith, h, m)
both_of awaiting_ack agreed proof moved m h = ground (arith, h, m)
both_of awaiting_payload agreed proof moved m h = ground (arith, h, m)
both_of finished agreed proof moved m h = ground (arith, h, m)

module _ (side : Side) where
  fail-guarded :
      (e : Text) (agreed proof : Bool) (t : Transfer)
      → (not (has_moved t) || (agreed && proof)) ≡ true
      → guarded agreed proof (fail e t) ≡ true
  unfolding guarded fail
  fail-guarded e agreed proof t h = h

  abort-guarded :
      (e : Text) (code : ℕ) (io : Result Text (Unit {0})) (agreed proof : Bool) (t : Transfer)
      → (not (has_moved t) || (agreed && proof)) ≡ true
      → guarded agreed proof (fail e (write_unchecked io 255 (code ∷ []) t)) ≡ true
  unfolding guarded fail write_unchecked has_payload
  abort-guarded e code (ok u) agreed proof t h = h
  abort-guarded e code (err x) agreed proof t h = h

  after-guarded :
      (io : Result Text (Unit {0})) (agreed proof : Bool) (t : Transfer)
      → agreed ≡ true
      → proof ≡ true
      → guarded agreed proof (after_confirmation side io t) ≡ true
  unfolding guarded after_confirmation send_payload fail
  after-guarded io agreed proof t h k = ground (arith, h, k)

  confirm_phase-guarded :
      (io : Result Text (Unit {0})) (mine theirs agreed proof : Bool) (t : Transfer)
      → (not mine || agreed) ≡ true
      → (not theirs || proof) ≡ true
      → has_moved t ≡ false
      → guarded agreed proof (confirm_phase side io mine theirs t) ≡ true
  unfolding confirm_phase guarded
  confirm_phase-guarded io true true agreed proof t h k m = after-guarded io agreed proof t h k
  confirm_phase-guarded io true false agreed proof t h k m = ground (arith, h, k, m)
  confirm_phase-guarded io false theirs agreed proof t h k m = ground (arith, h, k, m)

  answer-guarded :
      (io next : Result Text (Unit {0})) (answer : Option Bool) (theirs agreed proof : Bool)
      (t : Transfer)
      → (not theirs || proof) ≡ true
      → has_moved t ≡ false
      → guarded (agreed || is_yes (answers answer)) proof (on_answer side io next answer theirs t)
        ≡ true
  unfolding on_answer has_payload
  answer-guarded io next none theirs agreed proof t k m =
      abort-guarded _ 9 io _ proof t (ground (arith, m))
  answer-guarded io next (some false) theirs agreed proof t k m =
      abort-guarded _ 9 io _ proof t (ground (arith, m))
  answer-guarded (err e) next (some true) theirs agreed proof t k m =
      fail-guarded e _ proof t (ground (arith, m))
  answer-guarded (ok u) next (some true) theirs agreed proof t k m =
      confirm_phase-guarded next true theirs _ proof _ (ground arith) k m

  peer-guarded :
      (io : Result Text (Unit {0})) (frame : Result Text (ℕ × List ℕ)) (mine agreed proof : Bool)
      (t : Transfer)
      → (not mine || agreed) ≡ true
      → has_moved t ≡ false
      → guarded agreed (proof || is_proof side (receives frame)) (on_peer side io frame mine t)
        ≡ true
  unfolding on_peer
  peer-guarded io frame mine agreed proof t h m = elim (Result-cases (check_confirm side frame)) [
    | inl (u, e) ↦
        rw (e, on_peer) (confirm_phase-guarded io mine true agreed _ t h (ground arith) m)
    | inr (x, e) ↦ rw (e, on_peer) (fail-guarded x agreed _ t (ground (arith, m)))
  ]

  ack-guarded :
      (frame : Result Text (ℕ × List ℕ)) (agreed proof : Bool) (t : Transfer)
      → (agreed && proof) ≡ true
      → guarded agreed proof (on_ack side frame t) ≡ true
  unfolding guarded on_ack finish fail
  ack-guarded frame agreed proof t h = ground (arith, h)

  payload-guarded :
      (io : Result Text (Unit {0})) (frame : Result Text (ℕ × List ℕ)) (agreed proof : Bool)
      (t : Transfer)
      → (agreed && proof) ≡ true
      → guarded agreed proof (on_payload side io frame t) ≡ true
  unfolding guarded on_payload finish fail
  payload-guarded io frame agreed proof t h = ground (arith, h)

  step_in-guarded :
      (phase : Phase) (what : Happening) (io next : Result Text (Unit {0})) (agreed proof : Bool)
      (t : Transfer)
      → t.phase ≡ phase
      → guarded_in phase agreed proof (has_moved t) ≡ true
      → guarded
          (agreed || is_yes what)
          (proof || is_proof side what)
          (step_in side phase what io next t)
        ≡ true
  unfolding step_in guarded_in guarded
  step_in-guarded (confirming false theirs) cancels io next agreed proof t e h =
      abort-guarded [] 8 io (agreed || false) (proof || false) t (ground (arith, h))
  step_in-guarded (confirming false theirs) (answers answer) io next agreed proof t e h = ground (
    arith,
    answer-guarded io next answer theirs agreed (proof || false) t (ground (arith, h))
        (ground (arith, h)),
  )
  step_in-guarded (confirming false false) (receives frame) io next agreed proof t e h =
      peer-guarded io frame false (agreed || false) proof t refl (ground (arith, h))
  step_in-guarded (confirming true false) (receives frame) io next agreed proof t e h =
      peer-guarded io frame true (agreed || false) proof t (ground (arith, h)) (ground (arith, h))
  step_in-guarded (confirming mine theirs) times_out io next agreed proof t e h =
      fail-guarded [] (agreed || false) (proof || false) t (ground (arith, h))
  step_in-guarded awaiting_ack (receives frame) io next agreed proof t e h =
      ack-guarded frame (agreed || false) (proof || is_proof side (receives frame)) t
        (ground (arith, h))
  step_in-guarded awaiting_ack times_out io next agreed proof t e h =
      fail-guarded [] (agreed || false) (proof || false) t (ground (arith, h))
  step_in-guarded awaiting_payload (receives frame) io next agreed proof t e h =
      payload-guarded io frame (agreed || false) (proof || is_proof side (receives frame)) t
        (ground (arith, h))
  step_in-guarded awaiting_payload times_out io next agreed proof t e h =
      abort-guarded [] 11 io (agreed || false) (proof || false) t (ground (arith, h))
  step_in-guarded other what io next agreed proof t e h = guarded-more t agreed proof _ _ (rw e h)

  step-guarded :
      (what : Happening) (io next : Result Text (Unit {0})) (agreed proof : Bool) (t : Transfer)
      → guarded agreed proof t ≡ true
      → guarded (agreed || is_yes what) (proof || is_proof side what) (step side what io next t)
        ≡ true
  unfolding guarded step
  step-guarded what io next agreed proof t g =
      step_in-guarded t.phase what io next agreed proof t refl g

  run-guarded :
      (h : List (Happening × Result Text (Unit {0}) × Result Text (Unit {0}))) (agreed proof : Bool)
      (t : Transfer)
      → guarded agreed proof t ≡ true
      → guarded (agreed || said_yes h) (proof || peer_proved side h) (run side h t) ≡ true
  unfolding run
  run-guarded [] agreed proof t g = guarded-more t agreed proof false false g
  run-guarded ((what, io, next) ∷ h) agreed proof t g =
      rw
        (
          or_assoc agreed (is_yes what) (said_yes h),
          or_assoc proof (is_proof side what) (peer_proved side h),
        )
        (run-guarded h (agreed || is_yes what) (proof || is_proof side what)
          (step side what io next t) (step-guarded what io next agreed proof t g))

  -- Over any sequence of answers, cancellations, frames, errors and timeouts, and any outcome of
  -- the writes, a device has written the encrypted payload or handed one to the import only if its
  -- user has confirmed the code and a confirmation of the peer with the right tag has come in.
  pub payload_needs_both :
      (h : List (Happening × Result Text (Unit {0}) × Result Text (Unit {0})))
      → has_moved (run side h initial) ≡ true
      → (said_yes h ≡ true) × (peer_proved side h ≡ true)
  unfolding initial has_payload guarded guarded_in
  payload_needs_both h m =
      both_of (run side h initial).phase (said_yes h) (peer_proved side h) _ m
        (run-guarded h false false initial refl)
