-- ===== src/Proxy/Initialize/Capabilities.antt =====
-- The capabilities of several upstream servers merged: backend/internal/gateway/proxy.go.
use reflow_gateway.Base.{◌≡◌, refl, ap, Bool, true, false, ◌||◌, Option, none, some, if◌then◌else◌}
use reflow_gateway.Mcp.{ToolsCapability, ResourcesCapability, PromptsCapability, ServerCapabilities}
use reflow_gateway.Proxy.Initialize.{
  tools_listed, resources_subscribe, resources_listed, prompts_listed, merge_tools, merge_resources,
  merge_prompts, merge_capabilities,
}

or_swap : (a b c : Bool) → (a || b || c) ≡ (a || c || b)
or_swap true b c = refl
or_swap false true true = refl
or_swap false true false = refl
or_swap false false true = refl
or_swap false false false = refl

merge_tools_swap :
    (o a b : Option ToolsCapability)
    → merge_tools (merge_tools o a) b ≡ merge_tools (merge_tools o b) a
merge_tools_swap o none none = refl
merge_tools_swap o none (some b) = refl
merge_tools_swap o (some a) none = refl
merge_tools_swap o (some a) (some b) =
    ap (λ x. some (record { list_changed = x }))
      (or_swap (tools_listed o) a.list_changed b.list_changed)

merge_resources_swap :
    (o a b : Option ResourcesCapability)
    → merge_resources (merge_resources o a) b ≡ merge_resources (merge_resources o b) a
merge_resources_swap o none none = refl
merge_resources_swap o none (some b) = refl
merge_resources_swap o (some a) none = refl
merge_resources_swap o (some a) (some b) = λ i. some (record {
  subscribe = or_swap (resources_subscribe o) a.subscribe b.subscribe i;
  list_changed = or_swap (resources_listed o) a.list_changed b.list_changed i;
})

merge_prompts_swap :
    (o a b : Option PromptsCapability)
    → merge_prompts (merge_prompts o a) b ≡ merge_prompts (merge_prompts o b) a
merge_prompts_swap o none none = refl
merge_prompts_swap o none (some b) = refl
merge_prompts_swap o (some a) none = refl
merge_prompts_swap o (some a) (some b) =
    ap (λ x. some (record { list_changed = x }))
      (or_swap (prompts_listed o) a.list_changed b.list_changed)

logging_swap :
    (o a b : Bool)
    → (if b then true else if a then true else o) ≡ (if a then true else if b then true else o)
logging_swap o true true = refl
logging_swap o true false = refl
logging_swap o false true = refl
logging_swap o false false = refl

pub merge_capabilities_swap :
    (o a b : ServerCapabilities)
    → merge_capabilities (merge_capabilities o a) b ≡ merge_capabilities (merge_capabilities o b) a
unfolding merge_capabilities
merge_capabilities_swap o a b = λ i. record {
  tools = merge_tools_swap o.tools a.tools b.tools i;
  resources = merge_resources_swap o.resources a.resources b.resources i;
  prompts = merge_prompts_swap o.prompts a.prompts b.prompts i;
  logging = logging_swap o.logging a.logging b.logging i;
}
