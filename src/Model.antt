-- ===== src/Model.antt =====
-- src-tauri/src/model.rs: providers, usage windows and accounts. `F` stands for `f64`, which no code
-- modelled here computes with.
use ai_usage_tracker.Prelude.{ℕ, Bool, Option, List, Text, codes}

pub data Provider : Type 0 where
  openai anthropic antigravity google_ai_studio grok opencode_go : Provider

abbrev pub display_name : Provider → Text
display_name openai = codes "ChatGPT"
display_name anthropic = codes "Claude"
display_name antigravity = codes "Antigravity"
display_name google_ai_studio = codes "AI Studio"
display_name grok = codes "Grok"
display_name opencode_go = codes "OpenCode Go"

-- `==` of the derived PartialEq.
unfoldable pub provider_eq : Provider → Provider → Bool
provider_eq openai openai = Bool.true
provider_eq anthropic anthropic = Bool.true
provider_eq antigravity antigravity = Bool.true
provider_eq google_ai_studio google_ai_studio = Bool.true
provider_eq grok grok = Bool.true
provider_eq opencode_go opencode_go = Bool.true
provider_eq _ _ = Bool.false

pub data WindowKind : Type 0 where
  five_hour weekly monthly : WindowKind

pub data UsageFreshness : Type 0 where
  live stale unavailable auth_required : UsageFreshness

pub record UsageWindow (F : Type 0) : Type 0 where
  pub id : Text
  pub label : Text
  pub used_percent : Option F
  pub remaining_percent : Option F
  pub resets_at : Option Text
  pub window_seconds : Option ℕ
  pub kind : Option WindowKind

pub record UsageSnapshot (F : Type 0) : Type 0 where
  pub plan : Option Text
  pub email : Option Text
  pub windows : List (UsageWindow F)
  pub credits_usd : Option F
  pub unlimited_credits : Bool
  pub fetched_at : Text
  pub freshness : UsageFreshness
  pub source : Text

pub record Account (F : Type 0) : Type 0 where
  pub id : Text
  pub label : Text
  pub provider : Provider
  pub email : Option Text
  pub provider_account_id : Option Text
  pub chatgpt_account_id : Option Text
  pub plan : Option Text
  pub created_at : Text
  pub updated_at : Text
  pub last_usage : Option (UsageSnapshot F)
  pub last_error : Option Text
  pub auth_required : Bool
