-- ===== src/Agent/Parser/Accepted.antt =====
-- What ParseResponse accepts.
use mister_morph.Base.{
  Bool, true, trim_space, String, ◌≡◌, refl, ◌≢◌, ◌⊎◌, inl, inr, false, ◌||◌, Option, none, some,
  arith, ◌==◌, eq_iff, if◌then◌else◌, Bool-cases,
}
use mister_morph.Base.Result.{Except, ok, err}
use mister_morph.Llm.{LlmResult}
use mathlib.Core.Path.{subst}
use mister_morph.Base.Json.{Value}
use mister_morph.Agent.Plan.{Plan}
use mister_morph.Agent.Types.{
  AgentResponse, Failure, Final, type_tool_call, type_plan, type_final, type_final_answer,
  final_payload,
}
use mister_morph.Agent.Parser.{
  parse_failure, decode_failed, Decoder, validate, checked, unmarshal_and_validate, attempt,
  last_attempt, parse_text, parse_json, parse_response, is_empty, extract_from_code_block,
  extract_json_object, invalid_final, invalid_plan,
}

-- A plan with its payload, or a final response with its payload.
pub data IsAccepted (r : AgentResponse) : Type 0 where
  plan : (p : Plan) → r.type ≡ type_plan → r.plan ≡ some p → IsAccepted r
  final :
      (f : Final)
      → (r.type ≡ type_final) ⊎ (r.type ≡ type_final_answer)
      → final_payload r ≡ some f
      → IsAccepted r

-- Every response in a result is accepted.
abbrev Sound : {E : Type 0} → Except E AgentResponse → Type 0
Sound (ok r) = IsAccepted r
Sound (err e) = Unit

validate_plan :
    (r : AgentResponse) (o : Option Plan)
    → r.plan ≡ o
    → r.type ≡ type_plan
    → Sound {E = Failure} (elim o [ none ↦ err invalid_plan | some _ ↦ ok r ])
validate_plan r none e t = tt
validate_plan r (some p) e t = plan p t e

validate_final :
    (r : AgentResponse) (o : Option Final)
    → final_payload r ≡ o
    → (r.type ≡ type_final) ⊎ (r.type ≡ type_final_answer)
    → Sound {E = Failure} (elim o [ none ↦ err invalid_final | some _ ↦ ok r ])
validate_final r none e t = tt
validate_final r (some f) e t = final f t e

is_final :
    (r : AgentResponse)
    → (r.type == type_final || r.type == type_final_answer) ≡ true
    → (r.type ≡ type_final) ⊎ (r.type ≡ type_final_answer)
is_final r h = ground (arith, eq_iff r.type type_final, eq_iff r.type type_final_answer)

validate-Sound : (r : AgentResponse) → Sound (validate r)
unfolding validate
validate-Sound r = elim (Bool-cases (r.type == type_tool_call)) [
  | inl a ↦ rw a tt
  | inr a ↦ elim (Bool-cases (r.type == type_plan)) [
    | inl b ↦ rw (a, b) (validate_plan r r.plan refl ((eq_iff r.type type_plan).0 b))
    | inr b ↦ elim (Bool-cases (r.type == type_final || r.type == type_final_answer)) [
      | inl c ↦ rw (a, b, c) (validate_final r (final_payload r) refl (is_final r c))
      | inr c ↦ rw (a, b, c) tt
    ]
  ]
]

checked-Sound :
    (d : Decoder) (text : String) (x : Except String AgentResponse) → Sound (checked d text x)
checked-Sound d text (err e) = tt
checked-Sound d text (ok r) = validate-Sound _

unmarshal-Sound : (d : Decoder) (text : String) → Sound (unmarshal_and_validate d text)
unfolding unmarshal_and_validate
unmarshal-Sound d text = checked-Sound d text (d.unmarshal text)

attempt-Sound :
    (d : Decoder) (text : String) (rest : Except Failure AgentResponse)
    → Sound rest
    → Sound (attempt d text rest)
unfolding attempt
attempt-Sound d text rest h = elim (Bool-cases (is_empty text)) [
  | inl b ↦ rw b h
  | inr b ↦ rw b (pick (unmarshal_and_validate d text) (unmarshal-Sound d text))
]
  where
    pick :
        (x : Except Failure AgentResponse)
        → Sound x
        → Sound {E = Failure} (elim x [ ok r ↦ ok r | err e ↦ rest ])
    pick (ok r) k = k
    pick (err e) k = h

last_attempt-Sound : (d : Decoder) (text : String) → Sound (last_attempt d text)
unfolding last_attempt
last_attempt-Sound d text = pick (d.find_payload text)
  where
    pick :
        (x : Except String String)
        → Sound {E = Failure} (elim x [
          | ok payload ↦ unmarshal_and_validate d payload
          | err e ↦ err (decode_failed e)
        ])
    pick (ok payload) = unmarshal-Sound d payload
    pick (err e) = tt

parse_text-Sound :
    (d : Decoder) (last : Option Failure) (text : String) → Sound (parse_text d last text)
unfolding parse_text
parse_text-Sound d last text =
    pick (is_empty text)
      (attempt d text (
        attempt d (extract_from_code_block d text)
          (attempt d (extract_json_object text) (last_attempt d text))))
      (attempt-Sound d text
        (attempt d (extract_from_code_block d text)
          (attempt d (extract_json_object text) (last_attempt d text)))
        (attempt-Sound d (extract_from_code_block d text)
          (attempt d (extract_json_object text) (last_attempt d text))
          (attempt-Sound d (extract_json_object text) (last_attempt d text)
            (last_attempt-Sound d text))))
  where
    fails :
        (o : Option Failure)
        → Sound {E = Failure} (elim o [ none ↦ err parse_failure | some e ↦ err e ])
    fails none = tt
    fails (some e) = tt

    pick :
        (b : Bool) (x : Except Failure AgentResponse)
        → Sound x
        → Sound (if b then elim last [ none ↦ err parse_failure | some e ↦ err e ] else x)
    pick true x h = fails last
    pick false x h = h

parse_json-Sound : (d : Decoder) (v : Option Value) → Sound (parse_json d v)
unfolding parse_json
parse_json-Sound d none = tt
parse_json-Sound d (some v) = pick (d.marshal v)
  where
    keep :
        (x : Except Failure AgentResponse)
        → Sound x
        → Sound {E = Option Failure} (elim x [ ok r ↦ ok r | err e ↦ err (some e) ])
    keep (ok r) k = k
    keep (err e) k = tt

    pick :
        (o : Option String)
        → Sound {E = Option Failure} (elim o [
          | none ↦ err none
          | some text ↦ elim (unmarshal_and_validate d text) [ ok r ↦ ok r | err e ↦ err (some e) ]
        ])
    pick none = tt
    pick (some text) = keep (unmarshal_and_validate d text) (unmarshal-Sound d text)

parse_response-Sound : (d : Decoder) (result : LlmResult) → Sound (parse_response d result)
unfolding parse_response
parse_response-Sound d result = pick (parse_json d result.json) (parse_json-Sound d result.json)
  where
    pick :
        (x : Except (Option Failure) AgentResponse)
        → Sound x
        → Sound {E = Failure}
            (elim x [ ok r ↦ ok r | err last ↦ parse_text d last (trim_space result.text) ])
    pick (ok r) k = k
    pick (err last) k = parse_text-Sound d last (trim_space result.text)

-- A response that ParseResponse accepts is a plan with a payload or a final answer with a payload;
-- a tool call in JSON text is never accepted.
pub parse_response-IsAccepted :
    (d : Decoder) (result : LlmResult) (r : AgentResponse)
    → parse_response d result ≡ ok r
    → IsAccepted r × (r.type ≢ type_tool_call)
parse_response-IsAccepted d result r h =
    let a : IsAccepted r = subst Sound h (parse_response-Sound d result) in (a, not_tool_call r a)
  where
    not_tool_call : (x : AgentResponse) → IsAccepted x → x.type ≢ type_tool_call
    not_tool_call x (plan p t e) k = ground (arith, eq_iff type_plan type_tool_call)
    not_tool_call x (final f (inl t) e) k = ground (arith, eq_iff type_final type_tool_call)
    not_tool_call x (final f (inr t) e) k = ground (arith, eq_iff type_final_answer type_tool_call)
