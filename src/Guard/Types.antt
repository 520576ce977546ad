-- ===== src/Guard/Types.antt =====
-- guard/types.go, guard/config.go and guard/approvals.go. Times are numbers of nanoseconds, 0 is
-- Go's zero time.
use mister_morph.Base.{ℤ, ℕ, String, Bool, List}
use mister_morph.Base.Json.{Params}

pub data RiskLevel : Type 0 where
  low medium high critical : RiskLevel

pub data Decision : Type 0 where
  allow allow_with_redact require_approval deny : Decision

pub data ActionType : Type 0 where
  tool_call_pre tool_call_post output_publish skill_install : ActionType

-- The text of an action's type.
abbrev pub action_text : ActionType → String
action_text tool_call_pre = "ToolCallPre"
action_text tool_call_post = "ToolCallPost"
action_text output_publish = "OutputPublish"
action_text skill_install = "SkillInstall"

pub record Meta : Type 0 where
  pub run_id : String
  pub step : ℤ
  pub time : ℕ

pub record Action : Type 0 where
  pub type : ActionType
  pub tool_name : String
  pub tool_params : Params
  pub content : String
  pub url : String
  pub method : String

pub record GuardResult : Type 0 where
  pub risk_level : RiskLevel
  pub decision : Decision
  pub reasons : List String
  pub redacted_content : String

pub record NetworkPolicy : Type 0 where
  pub allowed_url_prefixes : List String
  pub deny_private_ips : Bool
  pub follow_redirects : Bool
  pub allow_proxy : Bool

pub data ApprovalStatus : Type 0 where
  pending approved denied expired : ApprovalStatus
