-- ===== src/Proxy/Messages.antt =====
-- responseMessages and its helpers of internal/compat/proxy.go, and the request for the provider.
pub mod Normal
use auto_gardener.Base.{
  Bool, List, Option, [], filter_by, if◌then◌else◌, is_nil, none, not, some, true, ◌&&◌, ◌++◌, ◌==◌,
  ◌∷◌,
}
use auto_gardener.Proxy.{ProviderSpec, ResponseRequest, ResponseTool}
use auto_gardener.Text.{Text, first_non_empty, is_blank, join, text_eq, text_of, trim_space}
use auto_gardener.Text.Number.{ℤ}

pub record ChatToolCall : Type 0 where
  pub id : Text
  pub name : Text
  pub arguments : Text

pub record ChatMessage : Type 0 where
  pub role : Text
  pub content : Text
  pub tool_call_id : Text
  pub tool_calls : List ChatToolCall

pub record InputItem : Type 0 where
  pub kind : Text
  pub id : Text
  pub role : Text
  pub content : Text
  pub call_id : Text
  pub name : Text
  pub arguments : Text
  pub output : Text

pub record ContentPart : Type 0 where
  pub kind : Text
  pub text : Text

-- json.Unmarshal into the types that are tried, `none` for an error. Items are what it leaves in the
-- slice, whether or not it fails.
pub record Decoder : Type 0 where
  pub items : Text → List InputItem
  pub string : Text → Option Text
  pub parts : Text → Option (List ContentPart)

texts_of : List ContentPart → List Text
texts_of [] = []
texts_of (p ∷ more) = let rest = texts_of more in if is_nil p.text then rest else p.text ∷ rest

system_role : Text
unfolding text_of
system_role = text_of "system"

plain : Text → Text → ChatMessage
plain role content = record { role = role; content = content; tool_call_id = []; tool_calls = [] }

-- Whether normalizeChatMessages takes the message into the one system message.
unfoldable pub is_system_part : ChatMessage → Bool
unfolding system_role text_eq text_of
is_system_part m = text_eq m.role system_role && not (is_nil m.content) && is_nil m.tool_calls

contents_of : List ChatMessage → List Text
contents_of [] = []
contents_of (m ∷ more) = m.content ∷ contents_of more

unfoldable pub blank_line : Text
blank_line = 10 ∷ 10 ∷ []

unfoldable pub normalize_chat_messages : List ChatMessage → List ChatMessage
unfolding contents_of plain system_role is_system_part blank_line
normalize_chat_messages messages =
    let parts = contents_of (filter_by is_system_part messages) in
    let out = filter_by (λ m. not (is_system_part m)) messages in
    if is_nil parts then out else plain system_role (join blank_line parts) ∷ out

module _ (d : Decoder) where
  unfoldable pub content_text : Text → Text
  unfolding texts_of
  content_text raw = if is_nil raw then [] else (elim (d.string raw) [
    | some s ↦ s
    | none ↦ elim (d.parts raw) [ some ps ↦ join (10 ∷ []) (texts_of ps) | none ↦ raw ]
  ])

  item_role : Text → Text
  unfolding text_of text_eq system_role
  item_role role =
      if text_eq role (text_of "developer")
      then system_role
      else if is_nil role
      then text_of "user"
      else role

  -- The message of an item, none for a kind that the switch does not name.
  item_messages : InputItem → List ChatMessage
  unfolding content_text item_role plain text_of text_eq
  item_messages item =
      let call_id = first_non_empty (item.call_id ∷ item.id ∷ []) in
      if text_eq item.kind (text_of "message")
      then plain (item_role item.role) (content_text item.content) ∷ []
      else if text_eq item.kind (text_of "function_call")
      then record {
        role = text_of "assistant";
        content = [];
        tool_call_id = [];
        tool_calls =
            record {
              id = call_id;
              name = item.name;
              arguments = first_non_empty (item.arguments ∷ text_of "{}" ∷ []);
            }
            ∷ [];
      }
        ∷ []
      else if text_eq item.kind (text_of "function_call_output")
      then record (plain (text_of "tool") item.output) { tool_call_id = call_id } ∷ []
      else []

  items_messages : List InputItem → List ChatMessage
  unfolding item_messages
  items_messages [] = []
  items_messages (item ∷ more) = item_messages item ++ items_messages more

  -- The items of an input that is an array.
  input_items : Text → List InputItem
  input_items [] = []
  input_items (c ∷ s) = if c == b'[' then d.items (c ∷ s) else []

  text_message : Text → List ChatMessage
  unfolding plain text_of
  text_message input = elim (d.string input) [
    | none ↦ []
    | some text ↦ if is_blank text then [] else plain (text_of "user") text ∷ []
  ]

  unfoldable pub response_messages : {F : Type 0} → ResponseRequest F → List ChatMessage
  unfolding plain system_role input_items text_message items_messages normalize_chat_messages
  response_messages q =
      let first = if is_blank q.instructions then [] else plain system_role q.instructions ∷ [] in
      elim (input_items q.input) [
        | [] ↦ first ++ text_message q.input
        | ◌∷◌ item more ↦ normalize_chat_messages (first ++ items_messages (item ∷ more))
      ]

keeps_tool : ResponseTool → Bool
unfolding text_of text_eq
keeps_tool tool = text_eq tool.kind (text_of "function") && not (is_nil tool.name)

unfoldable pub response_tools : List ResponseTool → List ResponseTool
unfolding keeps_tool
response_tools = filter_by keeps_tool

pub record ChatRequest (F : Type 0) : Type 0 where
  pub model : Text
  pub messages : List ChatMessage
  pub tools : List ResponseTool
  pub tool_choice : Option Text
  pub parallel_tool_calls : Option Bool
  pub temperature : Option F
  pub top_p : Option F
  pub max_tokens : Option ℤ
  pub stream : Bool
  pub include_usage : Bool

-- The request that forwardChatStream builds.
unfoldable pub chat_request :
    {F : Type 0} → Decoder → ProviderSpec → ResponseRequest F → ChatRequest F
unfolding response_messages response_tools trim_space
chat_request d spec q = record {
  model = trim_space q.model;
  messages = response_messages d q;
  tools = response_tools q.tools;
  tool_choice = q.tool_choice;
  parallel_tool_calls =
      if not (is_nil q.tools) && spec.supports_parallel_tool
      then some q.parallel_tool_calls
      else none;
  temperature = q.temperature;
  top_p = q.top_p;
  max_tokens = q.max_output_tokens;
  stream = true;
  include_usage = spec.supports_stream_usage;
}
