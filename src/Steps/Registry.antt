-- ===== src/Steps/Registry.antt =====
-- engine/internal/steps/steps.go: the registry of step types.
pub mod Types
use oarlock.Prelude.{
  Text, text_eq, codes, Bool, true, false, Option, none, some, List, [], ◌∷◌, ◌++◌,
}
use oarlock.Prelude.Tables.{find}

pub record ConfigKey : Type 0 where
  pub key : Text
  pub label : Text
  pub kind : Text
  pub options : List Text
  pub placeholder : Text
  pub required : Bool

pub record TypeInfo : Type 0 where
  pub type : Text
  pub label : Text
  pub description : Text
  pub config_spec : List ConfigKey

-- The executors by type: the latest registration of a type stands first, and hides the others.
pub record Registry (E : Type 0) : Type 0 where
  pub executors : List (Text × E)
  pub infos : List TypeInfo

module _ {E : Type 0} where
  abbrev pub new_registry : Registry E
  new_registry = record { executors = []; infos = [] }

  unfoldable pub register : TypeInfo → E → Registry E → Registry E
  register info e r = record {
    executors = (info.type, e) ∷ r.executors;
    infos = r.infos ++ info ∷ [];
  }

  unfoldable pub lookup : Text → List (Text × E) → Option E
  unfolding text_eq
  lookup type [] = none
  lookup type ((t, e) ∷ es) = elim (text_eq t type) [ true ↦ some e | false ↦ lookup type es ]

  unfoldable pub get : Registry E → Text → Option E
  unfolding lookup
  get r type = lookup type r.executors

  abbrev is_some : Option E → Bool
  is_some none = false
  is_some (some e) = true

  unfoldable pub has : Registry E → Text → Bool
  unfolding get
  has r type = is_some (get r type)

  abbrev pub types : Registry E → List TypeInfo
  types r = r.infos

abbrev config_key : Text → Text → Text → List Text → Text → Bool → ConfigKey
config_key key label kind options placeholder required = record {
  key = key;
  label = label;
  kind = kind;
  options = options;
  placeholder = placeholder;
  required = required;
}

abbrev ellipsis : Text
ellipsis = 226 ∷ 128 ∷ 166 ∷ []

abbrev plain_key : Text → Text → Text → Text → Bool → ConfigKey
plain_key key label kind placeholder required = config_key key label kind [] placeholder required

abbrev pub ai_prompt : TypeInfo
ai_prompt = record {
  type = codes "ai.prompt";
  label = codes "AI Prompt";
  description =
      codes "Send a prompt to an LLM via your own API key (Anthropic, OpenAI, OpenRouter)";
  config_spec =
      plain_key (codes "api_key") (codes "API key") (codes "api_key") [] true
      ∷ plain_key (codes "model") (codes "Model") (codes "string")
          (codes "claude-sonnet-4-6 / gpt-4o / openrouter model id") true
      ∷ plain_key (codes "system") (codes "System prompt") (codes "text")
          (codes "You are a helpful assistant" ++ ellipsis) false
      ∷ plain_key (codes "prompt") (codes "Prompt") (codes "text")
          (codes "Summarize: {{steps.fetch.body}}") true
      ∷ plain_key (codes "max_tokens") (codes "Max tokens") (codes "number") (codes "1024") false
      ∷ [];
}

abbrev pub mcp_tool : TypeInfo
mcp_tool = record {
  type = codes "mcp.tool";
  label = codes "MCP Tool";
  description = codes "Call a tool on one of this workspace's MCP servers";
  config_spec =
      plain_key (codes "server") (codes "MCP server") (codes "mcp_server") [] true
      ∷ plain_key (codes "tool") (codes "Tool") (codes "mcp_tool") [] true
      ∷ plain_key (codes "arguments") (codes "Arguments (JSON)") (codes "text")
          (codes "{\"query\": \"{{input.q}}\"}") false
      ∷ [];
}

abbrev pub http_request : TypeInfo
http_request = record {
  type = codes "http.request";
  label = codes "HTTP Request";
  description = codes "Call an HTTP endpoint and return the response";
  config_spec =
      plain_key (codes "url") (codes "URL") (codes "string") (codes "https://api.example.com/...")
        true
      ∷ config_key (codes "method") (codes "Method") (codes "select")
          (codes "GET" ∷ codes "POST" ∷ codes "PUT" ∷ codes "PATCH" ∷ codes "DELETE" ∷ []) [] false
      ∷ plain_key (codes "body") (codes "Body") (codes "text") (codes "{\"hello\": \"world\"}")
          false
      ∷ plain_key (codes "headers") (codes "Headers (JSON)") (codes "text")
          (codes "{\"Authorization\": \"Bearer ...\"}") false
      ∷ [];
}

abbrev pub transform : TypeInfo
transform = record {
  type = codes "transform";
  label = codes "Transform (JS)";
  description = codes "Run a JavaScript expression over prior step outputs";
  config_spec =
      plain_key (codes "script") (codes "Script") (codes "text")
        (codes "return steps.fetch.body.items.length") true
      ∷ [];
}

abbrev pub code_js : TypeInfo
code_js = record {
  type = codes "code.js";
  label = codes "Code (JS)";
  description = codes "Run JavaScript with console.log captured to the task log";
  config_spec =
      plain_key (codes "script") (codes "Script") (codes "text")
        (codes "const items = steps.fetch.body.items\nreturn items.filter(i => i.active)") true
      ∷ [];
}

abbrev pub delay : TypeInfo
delay = record {
  type = codes "delay";
  label = codes "Delay";
  description =
      codes
        "Wait a fixed duration before continuing; waits over 5 minutes suspend the run and resume on schedule (max 30 days)";
  config_spec =
      plain_key (codes "seconds") (codes "Seconds") (codes "number")
        (codes "5 (over 300 suspends, up to 30 days)") true
      ∷ [];
}

abbrev pub wait_callback : TypeInfo
wait_callback = record {
  type = codes "wait.callback";
  label = codes "Wait for Callback";
  description = codes "Suspend until an external HTTP callback resumes this step";
  config_spec =
      plain_key (codes "note") (codes "Note") (codes "text")
        (codes "Shown in the output while waiting (e.g. what to approve)") false
      ∷ [];
}

-- `Default`; `executor` gives the executor of each native type.
module _ {E : Type 0} (executor : TypeInfo → E) where
  abbrev register_all : List TypeInfo → Registry E → Registry E
  register_all [] r = r
  register_all (i ∷ is) r = register_all is (register i (executor i) r)

  unfoldable pub default_registry : Registry E
  unfolding register
  default_registry =
      register_all
        (ai_prompt ∷ mcp_tool ∷ http_request ∷ transform ∷ code_js ∷ delay ∷ wait_callback ∷ [])
        new_registry
