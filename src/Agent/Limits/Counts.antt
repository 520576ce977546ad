-- ===== src/Agent/Limits/Counts.antt =====
-- The counters of a context: rounds with the model that succeeded, and recorded tool calls.
use mister_morph.Agent.Plan.{Plan}
use mister_morph.Base.{
  ℕ, suc, ◌≤◌, String, ◌≡◌, refl, ◌∙◌, inl, inr, Bool, true, false, not, ◌&&◌, Option, none, some,
  [], ◌∷◌, arith, ◌==◌, if◌then◌else◌, Bool-cases, length, length-append,
}
use mister_morph.Base.Result.{Except, ok, err}
use mister_morph.Llm.{Usage, LlmResult}
use mister_morph.Agent.Types.{
  final_payload, Context, Failure, AgentResponse, ToolCall, Step, add_usage, record_step, cancelled,
  hook_failed, llm_failed,
}
use mister_morph.Agent.State.{LoopState}
use mister_morph.Agent.Parser.{parse_response}
use mister_morph.Agent.Host.{Engine}
use mister_morph.Agent.Engine.Force.{
  with_plan?, Outcome, fall_back, concluded, after_last_chat, force_conclusion,
}
use mister_morph.Agent.Engine.Calls.{
  created_plan, advanced_plan, on_success, after_tool, notify_success, has_plan, parse_plan_create,
  set_plan,
}

-- The step limit is `max`, at most `n` rounds are counted, and each recorded step is counted.
pub record Counted (max n : ℕ) (c : Context) : Type 0 where
  pub limit : c.max_steps ≡ max
  pub rounds : c.metrics.llm_rounds ≤ n
  pub calls : c.metrics.tool_calls ≡ length c.steps

pub Counted-add_usage :
    (max n : ℕ) (u : Usage) (c : Context) → Counted max n c → Counted max (suc n) (add_usage u c)
unfolding add_usage
Counted-add_usage max n u c h = record {
  limit = h.limit;
  rounds = omega (arith, h.rounds);
  calls = h.calls;
}

pub Counted-record_step :
    (max n : ℕ) (s : Step) (c : Context) → Counted max n c → Counted max n (record_step s c)
unfolding record_step
Counted-record_step max n s c h = record {
  limit = h.limit;
  rounds = h.rounds;
  calls = omega (arith, h.calls, length-append {0} c.steps (s ∷ []));
}

pub Counted-le : (max n m : ℕ) (c : Context) → n ≤ m → Counted max n c → Counted max m c
Counted-le max n m c le h = record {
  limit = h.limit;
  rounds = omega (arith, h.rounds);
  calls = h.calls;
}

-- The errors that the host can cause.
pub data HostError : Option Failure → Type 0 where
  no_error : HostError none
  was_cancelled : (step : ℕ) (m : String) → HostError (some (cancelled step m))
  from_hook : (m : String) → HostError (some (hook_failed m))
  from_model : (step : ℕ) (m : String) → HostError (some (llm_failed step m))

pub record Returned {W : Type 0} (max n : ℕ) (o : Outcome W) : Type 0 where
  pub counted : Counted max n o.ctx
  pub host_error : HostError o.error

module _ {W : Type 0} (e : Engine W) (max n : ℕ) where
  concluded-Returned :
      (c : Context) (r : AgentResponse) (w : W)
      → Counted max n c
      → Returned max n (concluded e c r w)
  unfolding concluded fall_back
  concluded-Returned c r w h = pick _
    where
      c' : Context
      c' = record c { raw_final_answer = r.raw_final_answer }

      pick :
          (b : Bool)
          → Returned max n (
              if b
              then record {
                final = with_plan? c' (final_payload r);
                ctx = c';
                error = none;
                world = w;
              }
              else fall_back e c w)
      pick true = record {
        counted = record { limit = h.limit; rounds = h.rounds; calls = h.calls };
        host_error = no_error;
      }
      pick false = record { counted = h; host_error = no_error }

module _ {W : Type 0} (e : Engine W) (max n : ℕ) where
  after_last_chat-Returned :
      (c : Context) (x : Except String LlmResult × W)
      → Counted max n c
      → Returned max (suc n) (after_last_chat e c x)
  unfolding after_last_chat fall_back
  after_last_chat-Returned c (err m, w) h = record {
    counted = Counted-le max n (suc n) c (omega arith) h;
    host_error = no_error;
  }
  after_last_chat-Returned c (ok result, w) h = pick (parse_response e.decoder result)
    where
      c' : Context
      c' = add_usage result.usage c

      h' : Counted max (suc n) c'
      h' = Counted-add_usage max n result.usage c h

      pick :
          (x : Except Failure AgentResponse)
          → Returned max
              (suc n)
              (elim x as (λ _. Outcome W) [ ok r ↦ concluded e c' r w | err _ ↦ fall_back e c' w ])
      pick (ok r) = concluded-Returned e max (suc n) c' r w h'
      pick (err _) = record { counted = h'; host_error = no_error }

  pub force_conclusion-Returned :
      (st : LoopState) (w : W)
      → Counted max n st.ctx
      → Returned max (suc n) (force_conclusion e st w)
  unfolding force_conclusion
  force_conclusion-Returned st w h = after_last_chat-Returned st.ctx _ h

-- The same limit, steps and counters.
abbrev pub SameCounts : Context → Context → Type 0
SameCounts c d = (c.max_steps ≡ d.max_steps) × (c.steps ≡ d.steps) × (c.metrics ≡ d.metrics)

pub Counted-SameCounts :
    (max n : ℕ) (c d : Context) → SameCounts c d → Counted max n d → Counted max n c
Counted-SameCounts max n c d (p, q, r) h = record {
  limit = p ∙ h.limit;
  rounds = rw r h.rounds;
  calls = rw (q, r) h.calls;
}

module _ {W : Type 0} (e : Engine W) where
  SameCounts-set_plan : (o : Option Plan) (c : Context) → SameCounts (set_plan o c) c
  SameCounts-set_plan none c = (refl, refl, refl)
  SameCounts-set_plan (some p) c = (refl, refl, refl)

  SameCounts-created_plan :
      (tc : ToolCall) (observation : String) (c : Context)
      → SameCounts (created_plan e tc observation c) c
  unfolding created_plan
  SameCounts-created_plan tc observation c =
      elim (Bool-cases (tc.name == "plan_create" && not (has_plan c))) [
        | inl b ↦ rw b (SameCounts-set_plan (parse_plan_create e.decode_plan observation) c)
        | inr b ↦ rw b ((refl, refl, refl))
      ]

  SameCounts-advanced_plan :
      (tc : ToolCall) (c : Context) (w : W) → SameCounts (advanced_plan e tc c w).0 c
  unfolding advanced_plan
  SameCounts-advanced_plan tc c w =
      elim (Bool-cases (has_plan c && not (tc.name == "plan_create"))) [
        | inl b ↦ rw b ((refl, refl, refl))
        | inr b ↦ rw b ((refl, refl, refl))
      ]

  pub SameCounts-after_tool :
      (tc : ToolCall) (observation : String) (error : Option String) (c : Context) (w : W)
      → SameCounts (after_tool e tc observation error c w).0 c
  unfolding after_tool on_success
  SameCounts-after_tool tc observation (some m) c w = (refl, refl, refl)
  SameCounts-after_tool tc observation none c w =
      let c' = created_plan e tc observation c in
      let (p, q, r) = SameCounts-advanced_plan tc c' (notify_success e c' tc.name w) in
      let (p', q', r') = SameCounts-created_plan tc observation c in (p ∙ p', q ∙ q', r ∙ r')
