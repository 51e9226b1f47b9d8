-- ===== src/Tests/Samples.antt =====
-- Sample data: a serializer that keeps values as they are, two accounts, and texts by their letters.
use ai_usage_tracker.Prelude.{ℕ, false, none, Text, codes, ok}
use ai_usage_tracker.Model.{Account, Provider}
use ai_usage_tracker.JsonFile.{Codec, Write, JsonFile}

-- `T` serves as its own payload.
abbrev pub plain_codec : {T : Type 0} → Codec T T
plain_codec = record { to_vec_pretty = λ v. ok v; from_str = λ p. ok p }

abbrev pub no_file : {P : Type 0} → JsonFile P
no_file = record { contents = none }

abbrev pub written : Write
written = record { replaced = ok tt; hardened = ok tt }

abbrev pub account : Text → Text → Account ℕ
account id created_at = record {
  id = id;
  label = id;
  provider = Provider.openai;
  email = none;
  provider_account_id = none;
  chatgpt_account_id = none;
  plan = none;
  created_at = created_at;
  updated_at = created_at;
  last_usage = none;
  last_error = none;
  auth_required = false;
}

abbrev pub alpha : Account ℕ
alpha = account (codes "a") (codes "2026-01-01")

abbrev pub beta : Account ℕ
beta = account (codes "b") (codes "2026-02-01")

abbrev pub gamma : Account ℕ
gamma = account (codes "c") (codes "2026-03-01")
