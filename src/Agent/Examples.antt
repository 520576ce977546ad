-- ===== src/Agent/Examples.antt =====
-- Runs of agent/engine_loop.go and agent/parser.go on a small host: a model that always calls bash, a
-- guard that wants every call approved, and a world that counts the executions of bash.
use Prim.Native.String
use mister_morph.Base.{
  String, List, trim_space, ℕ, suc, ◌≡◌, refl, ◌≢◌, ◌⊎◌, inl, inr, true, false, none, some, [], ◌∷◌,
  arith, ◌==◌, if◌then◌else◌,
}
use mister_morph.Agent.Parser.{extract_json_object, Decoder, parse_response}
use mister_morph.Agent.Parser.Object.{
  extract_json_object-IsObject, IsObject, is_object, HasNoBrace, open_quote, quoted, close_quote,
  plain, escaped, last_brace,
}
use mister_morph.Base.Result.{ok, err}
use mister_morph.Llm.{LlmResult}
use mister_morph.Guard.Types.{RiskLevel, Decision}
use mister_morph.Tools.{Tool}
use mister_morph.Agent.Types.{
  AgentResponse, Output, new_context, no_response, type_tool_call, type_final, ToolCall,
}
use mister_morph.Agent.State.{LoopState}
use mister_morph.Agent.Parser.Accepted.{IsAccepted, parse_response-IsAccepted}
use mister_morph.Agent.Approved.{approving, run_calls-approving}
use mister_morph.Agent.Engine.Calls.{run_calls}
use mister_morph.Agent.Host.{Engine, GuardOps}
use mister_morph.Agent.Engine.ToolGuard.{active_guard}
use mister_morph.Agent.Engine.Loop.{run_loop}
use mister_morph.Agent.Safety.Rules.{Rules}
use mister_morph.Agent.Safety.Run.{run_loop-keeps}

abbrev final_response : AgentResponse
final_response = record no_response {
  type = type_final;
  final = some (record { thought = ""; output = Output.text "4"; plan = none });
}

abbrev decoder : Decoder
decoder = record {
  unmarshal = λ s. if s == "{4}" then ok final_response else err "invalid";
  raw_finals = λ s. none;
  marshal = λ v. none;
  code_block = λ s. none;
  find_payload = λ s. err "no payload";
}

-- A text around an object, for the third attempt.
abbrev wrapped : LlmResult
wrapped = record {
  text = " the answer is {4}. ";
  json = none;
  tool_calls = [];
  usage = record { input_tokens = 1; output_tokens = 1; total_tokens = 2 };
}

wrapped-parsed : parse_response decoder wrapped ≡ ok final_response
unfolding parse_response trim_space
wrapped-parsed = refl

parse_response-IsAccepted_example :
    IsAccepted final_response × (final_response.type ≢ type_tool_call)
parse_response-IsAccepted_example =
    parse_response-IsAccepted decoder wrapped final_response wrapped-parsed

abbrev pub bash : Tool ℕ
bash = record {
  name = "bash";
  description = "";
  parameter_schema = "";
  execute = λ policy params runs. record { observation = "ok"; error = none; world = suc runs };
  stop_after_success = false;
}

abbrev pub careful : GuardOps ℕ
careful = record {
  enabled = true;
  evaluate = λ m a runs. (
    record {
      risk_level = RiskLevel.high;
      decision = Decision.require_approval;
      reasons = [];
      redacted_content = "";
    },
    runs,
  );
  request_approval = λ m a gr s b runs. (ok "apr_1", runs);
  network_policy_for_url_fetch = none;
}

abbrev pub host : Engine ℕ
host = record {
  chat = λ r runs. (
    ok (record {
      text = "";
      json = none;
      tool_calls = record { id = "c1"; name = "bash"; arguments = [] } ∷ [];
      usage = record { input_tokens = 1; output_tokens = 1; total_tokens = 2 };
    }),
    runs,
  );
  registry = ("bash", bash) ∷ [];
  max_token_budget = 0;
  parse_retries = 2;
  hooks = [];
  on_tool_success = none;
  on_plan_step_update = none;
  fallback_final = none;
  skill_auth_profiles = [];
  enforce_skill_auth = false;
  guard = some careful;
  cancelled = λ runs. none;
  now = λ runs. 0;
  exists = λ path runs. false;
  decoder = decoder;
  decode_plan = λ s. none;
  marshal_params = λ p. "{}";
  marshal_resume = λ s. ok "{}";
  quote = λ s. s;
}

abbrev pub start : LoopState
start = record {
  run_id = "r1";
  model = "m";
  messages = [];
  ctx = new_context "task" 5;
  extra_params = [];
  tools = [];
  plan_required = false;
  parse_failures = 0;
  requested_writes = [];
  pending_tool = none;
  approved_pending_tool = false;
  next_step = 0;
  last_tool_sig = "";
  last_tool_repeat = 0;
}

abbrev pub IsUnused : ℕ → Type 0
IsUnused runs = runs ≡ 0

careful-Rules : Rules host careful IsUnused
unfolding active_guard
careful-Rules = record {
  active = refl;
  chat = λ r w p. p;
  evaluate = λ m a w p. p;
  request = λ m a gr s b w p. p;
  hooks = tt;
  on_success = λ f q c n w p. absurd (ground arith);
  on_update = λ f q c u w p. absurd (ground arith);
  execute = λ tc tool q allowed w p. absurd (never allowed.verdict);
}
  where
    never :
        (Decision.require_approval ≡ Decision.allow)
          ⊎ (Decision.require_approval ≡ Decision.allow_with_redact)
        → ⊥
    never (inl h) = ground arith
    never (inr h) = ground arith

run_loop-keeps_example : IsUnused (run_loop host start 0).world
run_loop-keeps_example = run_loop-keeps host careful IsUnused careful-Rules start 0 refl refl

-- Two calls of bash after one approval.
abbrev approved_start : LoopState
approved_start = record start { approved_pending_tool = true }

abbrev two_calls : List ToolCall
two_calls =
    record { id = "c1"; thought = ""; name = "bash"; params = [] }
    ∷ record { id = "c2"; thought = ""; name = "bash"; params = [] }
    ∷ []

run_calls-approving_example :
    run_calls (approving host) 1 "" two_calls approved_start 0
    ≡ run_calls host 1 "" two_calls approved_start 0
run_calls-approving_example = run_calls-approving host 1 "" two_calls approved_start 0 refl

abbrev braces : String
braces = "say {\"a\":\"}\"} now"

braces-cut : extract_json_object braces ≡ "{\"a\":\"}\"}"
unfolding extract_json_object
braces-cut = refl

quoted_brace : IsObject "{\"a\":\"\\\"}\"}"
quoted_brace = is_object _ _ refl (
    open_quote _ _ _ refl (
      quoted _ _ _ refl (
        close_quote _ _ _ refl (
          plain _ _ _ refl (
            open_quote _ _ _ refl (
              escaped _ _ _ _ refl
                (quoted _ _ _ refl (close_quote _ _ _ refl (last_brace _ refl)))))))))

no_brace : HasNoBrace "say "
unfolding HasNoBrace
no_brace = (refl, (refl, (refl, (refl, tt))))

extract_json_object-IsObject_example :
    extract_json_object (String.◌++◌ "say " (String.◌++◌ "{\"a\":\"\\\"}\"}" " {now}"))
    ≡ "{\"a\":\"\\\"}\"}"
extract_json_object-IsObject_example =
    extract_json_object-IsObject "say " "{\"a\":\"\\\"}\"}" " {now}" no_brace quoted_brace
