-- ===== src/Mcp/Protocol.antt =====
-- `McpProtocol`: the tables that `register_…` fills, and the requests that it answers. `W` is what
-- the registered handlers work on, apart from the protocol.
use swarm_mcp.Prelude.{String, Bool, false, Option, none, some, []}
use swarm_mcp.Dict.{Dict, insert}
use swarm_mcp.Mcp.Json.{Answer}
use swarm_mcp.Mcp.Listing.{McpToolDef, McpResourceDef, McpPromptDef}

pub record ServerInfo : Type 0 where
  pub name : String
  pub version : String

pub record ServerCapabilities : Type 0 where
  pub tools : Bool
  pub resources : Bool
  pub prompts : Bool
  pub logging : Bool

-- std::function<json(const json&)>, which may throw.
abbrev pub Handler : Type 0 → Type 0 → Type 0
Handler J W = J → W → Answer J × W

pub record McpProtocol (J W : Type 0) : Type 0 where
  pub info : ServerInfo
  pub caps : ServerCapabilities
  pub initialized : Bool
  pub tools : Dict (McpToolDef J)
  pub tool_handlers : Dict (Handler J W)
  pub resources : Dict McpResourceDef
  pub resource_handlers : Dict (Handler J W)
  pub prompts : Dict (McpPromptDef J)
  pub prompt_handlers : Dict (Handler J W)
  pub notification_handlers : Dict (J → W → W)
  pub notification_cb : Option (String → J → W → W)

module _ {J W : Type 0} where
  unfoldable pub protocol : ServerInfo → ServerCapabilities → McpProtocol J W
  protocol info caps = record {
    info = info;
    caps = caps;
    initialized = false;
    tools = [];
    tool_handlers = [];
    resources = [];
    resource_handlers = [];
    prompts = [];
    prompt_handlers = [];
    notification_handlers = [];
    notification_cb = none;
  }

  unfoldable pub register_tool : McpProtocol J W → McpToolDef J → Handler J W → McpProtocol J W
  register_tool p def handler = record p {
    tools = insert def.name def p.tools;
    tool_handlers = insert def.name handler p.tool_handlers;
  }

  unfoldable pub register_resource :
      McpProtocol J W → McpResourceDef → Handler J W → McpProtocol J W
  register_resource p def handler = record p {
    resources = insert def.uri def p.resources;
    resource_handlers = insert def.uri handler p.resource_handlers;
  }

  unfoldable pub register_prompt : McpProtocol J W → McpPromptDef J → Handler J W → McpProtocol J W
  register_prompt p def handler = record p {
    prompts = insert def.name def p.prompts;
    prompt_handlers = insert def.name handler p.prompt_handlers;
  }

  unfoldable pub set_notification_handler : McpProtocol J W → String → (J → W → W) → McpProtocol J W
  set_notification_handler p method handler = record p {
    notification_handlers = insert method handler p.notification_handlers;
  }

  unfoldable pub on_notification : McpProtocol J W → (String → J → W → W) → McpProtocol J W
  on_notification p cb = record p { notification_cb = some cb }

  unfoldable pub send_notification : McpProtocol J W → String → J → W → W
  send_notification p method params w = elim p.notification_cb [
    | none ↦ w
    | some cb ↦ cb method params w
  ]
