-- ===== src/Lib.antt =====
-- mistermorph runs tasks by an agent loop: a model is asked, its answer is parsed, tools are executed
-- under a guard, a plan is tracked, and a run that needs an approval is paused and stored. This library
-- models that core.
--
-- Agent/Plan is agent/plan_status.go: the normal form of a plan and its progress.
-- Agent/Types and Agent/State are agent/types.go, agent/context.go, agent/pending.go and
-- agent/engine_runstate.go: the data of a run, and its snapshot in an approval request.
-- Agent/Parser is agent/parser.go.
-- Agent/Host is what the engine of agent/engine.go is given: model, tools, guard, hooks, callbacks.
-- Agent/Engine is agent/engine_loop.go, with forceConclusion of agent/engine_helpers.go and
-- agent/tools_adapter.go. Engine/Ask is the first half of an iteration (cancellation, hooks, model
-- call, budget, parsing), Engine/Answer the cases plan and final, Engine/Calls the case tool_call,
-- Engine/ToolGuard executeToolWithGuard, Engine/Force forceConclusion, Engine/Loop runLoop.
-- Agent/Safety, Agent/Limits and Agent/Approved have the proofs about runs; Agent/Limits/Tally says when a
-- world counts the calls of the model.
-- Agent/Resume is agent/engine_resume.go. Agent/Guarded is the engine with the guard of guard/guard.go.
-- Guard/Types is guard/types.go and guard/context.go, Guard/Policy is guard/guard.go, Guard/Approvals
-- is guard/approvals.go and guard/approvals_file.go.
-- Secrets is secrets/: Secrets/Rules parses the URL prefixes of a profile, Secrets/Access decides about
-- a URL, Secrets/Profile validates, Secrets/Store looks up profiles, secrets and the policy of skills.
-- Fetch is tools/builtin/url_fetch.go: Fetch/Headers the headers of the caller, Fetch/Prepare and
-- Fetch/Request the request, Fetch/Redirects the requests that follow it.
-- Daemon is cmd/mistermorph/daemoncmd: Daemon/Store the task store of daemon_queue.go, Daemon/Worker the
-- worker of serve.go and the events that happen to both, Daemon/Sound, Kept and Invariant the proofs that
-- the queue stays sound. Heartbeat is the state of internal/heartbeatutil/heartbeat.go.
-- Maep is maep/: Maep/Protocol the versions and topics of node.go and topic.go, Maep/Pushes its rate limit.
-- Tools is tools/tool.go and tools/registry.go. Llm is llm/llm.go.
-- Base has texts, lists, JSON values, association lists and results.
--
-- State is passed explicitly: a type W stands for everything outside the engine that a call can
-- change, and the model, the tools, the guard, hooks and callbacks are functions on it. Errors are
-- values. An iteration of runLoop ends with the next one, a break or a return (Engine/Answer.Turn).
-- The loop runs on MaxSteps - nextStep rounds: no iteration changes MaxSteps, and hooks and callbacks
-- of this repository write nothing into the context, so the rounds are enough for every run.
-- Budgets and limits are natural numbers: a budget of 0 or less is none, as in the code.
--
-- Texts are lists of code points. ToLower is exact on ASCII letters, and leaves others. JSON decoding, the
-- regular expressions, URL parsing, the clock, random numbers, hashes and the file system are parameters.
-- Costs and logs are left out. The approval file is taken as the records that its JSON decodes to. The order
-- in which a loop visits a map of tasks is an argument. A write of the approval file replaces it or fails and leaves it
-- (internal/fsstore).
--
-- Not modelled: Engine.Run with its prompts, audit logs, the HTTP handlers of the daemon, the other
-- commands, contacts, the rest of MAEP, memory, the other built-in tools, the response of url_fetch, skills and the
-- providers.
pub mod Base
pub mod Heartbeat
pub mod Llm
pub mod Maep
pub mod Fetch
pub mod Daemon
pub mod Guard
pub mod Secrets
pub mod Tools
pub mod Agent
