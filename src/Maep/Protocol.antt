-- ===== src/Maep/Protocol.antt =====
-- The versions of the protocol that two agents agree on (maep/node.go), and the scopes of sessions
-- (maep/topic.go). Versions are natural numbers: parseHelloMessage refuses 0 and less.
use mister_morph.Base.{
  trim_space, to_lower, ℕ, String, Bool, not, ◌&&◌, ◌||◌, List, ◌==◌, ltb, leb, if◌then◌else◌,
}
use mister_morph.Base.Result.{Except, ok, err}
use Prim.Native.String

pub data ProtocolError : Type 0 where
  hello_type : ProtocolError
  hello_not_positive : ProtocolError
  hello_range : ProtocolError
  no_protocol_overlap : ProtocolError

pub record HelloMessage : Type 0 where
  pub type : String
  pub protocol_min : ℕ
  pub protocol_max : ℕ
  pub capabilities : List String

-- parseHelloMessage, after the JSON is decoded
unfoldable pub parse_hello_message : HelloMessage → Except ProtocolError HelloMessage
parse_hello_message msg =
    let kind = trim_space (HelloMessage.type msg) in
    if not (kind == "") && not (kind == "hello")
    then err hello_type
    else if leb (HelloMessage.protocol_min msg) 0 || leb (HelloMessage.protocol_max msg) 0
    then err hello_not_positive
    else if ltb (HelloMessage.protocol_max msg) (HelloMessage.protocol_min msg)
    then err hello_range
    else ok (record msg { type = kind })

unfoldable pub negotiate_protocol :
    (local_min local_max remote_min remote_max : ℕ) → Except ProtocolError ℕ
negotiate_protocol local_min local_max remote_min remote_max =
    let negotiated = if ltb remote_max local_max then remote_max else local_max in
    let required_min = if ltb local_min remote_min then remote_min else local_min in
    if ltb negotiated required_min then err no_protocol_overlap else ok negotiated

unfoldable pub is_dialogue_topic : String → Bool
is_dialogue_topic topic =
    let t = to_lower (trim_space topic) in
    t == "share.proactive.v1" || t == "dm.checkin.v1" || t == "dm.reply.v1" || t == "chat.message"

unfoldable pub session_scope_by_topic : String → String
unfolding is_dialogue_topic
session_scope_by_topic topic =
    let t = to_lower (trim_space topic) in
    if is_dialogue_topic t
    then "dialogue.v1"
    else if t == ""
    then "default"
    else String.◌++◌ "topic:" t
