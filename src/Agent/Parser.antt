-- ===== src/Agent/Parser.antt =====
-- agent/parser.go. encoding/json, the regular expression and internal/jsonutil, which only calls
-- a third-party package, come as a decoder.
pub mod Accepted
pub mod Object
use Prim.Native.Char.{Char, code}
use mister_morph.Base.{
  trim_space, ℕ, suc, ◌-◌, String, Bool, true, false, not, ◌&&◌, ◌||◌, Option, none, some, ◌==◌,
  nat_eq, if◌then◌else◌,
}
use mister_morph.Base.Json.{Value}
use mister_morph.Base.Result.{Except, ok, err}
use mister_morph.Llm.{LlmResult}
use mister_morph.Agent.Types.{
  AgentResponse, Failure, invalid_tool_call, parse_failure, invalid_plan, invalid_final,
  decode_failed, type_tool_call, type_plan, type_final, type_final_answer, final_payload,
}

pub record Decoder : Type 0 where
  -- json.Unmarshal into an AgentResponse
  pub unmarshal : String → Except String AgentResponse
  -- json.Unmarshal of the raw `final` and `final_answer`
  pub raw_finals : String → Option (String × String)
  -- json.Marshal
  pub marshal : Value → Option String
  -- the first group of codeBlockRe
  pub code_block : String → Option String
  -- jsonutil.FindJSONPayload
  pub find_payload : String → Except String String

-- validate
unfoldable pub validate : AgentResponse → Except Failure AgentResponse
validate r =
    if r.type == type_tool_call
    then err invalid_tool_call
    else if r.type == type_plan
    then elim r.plan [ none ↦ err invalid_plan | some _ ↦ ok r ]
    else if r.type == type_final || r.type == type_final_answer
    then elim (final_payload r) [ none ↦ err invalid_final | some _ ↦ ok r ]
    else err parse_failure

abbrev pub is_empty : String → Bool
is_empty s = s == ""

abbrev pub with_raw : AgentResponse → Option (String × String) → AgentResponse
with_raw r none = r
with_raw r (some (final, final_answer)) = record r {
  raw_final_answer = if is_empty final_answer then final else final_answer;
}

abbrev pub checked : Decoder → String → Except String AgentResponse → Except Failure AgentResponse
checked d text (err e) = err (decode_failed e)
checked d text (ok r) = validate (
    if r.type == type_final || r.type == type_final_answer
    then with_raw r (d.raw_finals text)
    else r)

-- unmarshalAndValidate
unfoldable pub unmarshal_and_validate : Decoder → String → Except Failure AgentResponse
unfolding validate
unmarshal_and_validate d text = checked d text (d.unmarshal text)

-- extractFromCodeBlock
unfoldable pub extract_from_code_block : Decoder → String → String
extract_from_code_block d text = elim (d.code_block text) [ none ↦ "" | some s ↦ trim_space s ]

abbrev pub push : Char → Option String → Option String
push c none = none
push c (some r) = some (String.◌∷◌ c r)

-- The scan of extractJSONObject over the rest of the text. `some r` is the text up to the brace
-- that brings the depth back to 0.
unfoldable pub scan_object : ℕ → Bool → Bool → String → Option String
scan_object depth in_string escaped String.[] = none
scan_object depth in_string escaped (String.◌∷◌ c s) =
    let keep = λ (o : Option String). push c o in
    let plain = keep (scan_object depth in_string false s) in
    let escape = keep (scan_object depth in_string true s) in
    let quoted = keep (scan_object depth (not in_string) false s) in
    let opened = keep (scan_object (suc depth) in_string false s) in
    let closed =
      if nat_eq (depth - 1) 0
      then some (String.◌∷◌ c String.[])
      else keep (scan_object (depth - 1) in_string false s) in
    if escaped
    then plain
    else if nat_eq (code c) 92 && in_string
    then escape
    else if nat_eq (code c) 34
    then quoted
    else if in_string
    then plain
    else if nat_eq (code c) 123
    then opened
    else if nat_eq (code c) 125
    then closed
    else plain

-- strings.IndexByte(text, '{') and the scan from there.
unfoldable pub extract_from : String → Option String
unfolding scan_object
extract_from String.[] = none
extract_from (String.◌∷◌ c s) =
    let rest = extract_from s in
    if nat_eq (code c) 123 then scan_object 0 false false (String.◌∷◌ c s) else rest

-- extractJSONObject
unfoldable pub extract_json_object : String → String
unfolding extract_from
extract_json_object text = elim (extract_from text) [ none ↦ "" | some r ↦ r ]

-- One attempt of ParseResponse: a text that is not empty is tried, and the rest follows if it fails.
unfoldable pub attempt :
    Decoder → String → Except Failure AgentResponse → Except Failure AgentResponse
unfolding unmarshal_and_validate
attempt d text rest =
    if is_empty text
    then rest
    else elim (unmarshal_and_validate d text) [ ok r ↦ ok r | err e ↦ rest ]

-- The last attempt, whose error is the one that is returned.
unfoldable pub last_attempt : Decoder → String → Except Failure AgentResponse
unfolding unmarshal_and_validate
last_attempt d text = elim (d.find_payload text) [
  | ok payload ↦ unmarshal_and_validate d payload
  | err e ↦ err (decode_failed e)
]

unfoldable pub parse_text : Decoder → Option Failure → String → Except Failure AgentResponse
unfolding attempt last_attempt extract_from_code_block extract_json_object
parse_text d last text =
    if is_empty text
    then elim last [ none ↦ err parse_failure | some e ↦ err e ]
    else attempt d text (
        attempt d (extract_from_code_block d text)
          (attempt d (extract_json_object text) (last_attempt d text)))

-- The attempt on `result.JSON`: a response, or the error that it leaves.
unfoldable pub parse_json : Decoder → Option Value → Except (Option Failure) AgentResponse
unfolding unmarshal_and_validate
parse_json d none = err none
parse_json d (some v) = elim (d.marshal v) [
  | none ↦ err none
  | some text ↦ elim (unmarshal_and_validate d text) [ ok r ↦ ok r | err e ↦ err (some e) ]
]

-- ParseResponse
unfoldable pub parse_response : Decoder → LlmResult → Except Failure AgentResponse
unfolding parse_json parse_text
parse_response d result = elim (parse_json d result.json) [
  | ok r ↦ ok r
  | err last ↦ parse_text d last (trim_space result.text)
]
