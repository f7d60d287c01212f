-- ===== src/Providers/Registry.antt =====
-- The providers by their names: backend/crates/ai-providers/src/registry.rs, less the construction
-- of the clients.
use customer_service_chat_sy.Base.{
  Option, none, some, List, Text, codes, ◌==◌, text_eq, if◌then◌else◌, lookup,
}
use customer_service_chat_sy.Providers.Contract.{ChatProvider}

pub data ProviderKind : Type 0 where
  open_ai anthropic gemini : ProviderKind

abbrev pub kind_text : ProviderKind → Text
kind_text open_ai = codes "openai"
kind_text anthropic = codes "anthropic"
kind_text gemini = codes "gemini"

-- `ProviderKind::from_str`.
abbrev pub kind_from_text : Text → Option ProviderKind
kind_from_text s =
    if s == codes "openai"
    then some open_ai
    else if s == codes "anthropic"
    then some anthropic
    else if s == codes "gemini"
    then some gemini
    else none

-- Each kind is registered once, by `Registry::new`.
pub record Registry (World : Type 0) : Type 0 where
  pub registered : ProviderKind → ChatProvider World
  pub overrides : List (Text × ChatProvider World)

module _ {World : Type 0} (registry : Registry World) where
  abbrev or_registered : ProviderKind → Option (ChatProvider World) → ChatProvider World
  or_registered kind none = registry.registered kind
  or_registered kind (some p) = p

  -- `Registry::provider`.
  abbrev pub provider : ProviderKind → ChatProvider World
  provider kind = or_registered kind (lookup (kind_text kind) registry.overrides)

  abbrev of_kind : Option ProviderKind → Option (ChatProvider World)
  of_kind none = none
  of_kind (some kind) = some (provider kind)

  abbrev or_kind : Option ProviderKind → Option (ChatProvider World) → Option (ChatProvider World)
  or_kind kind (some p) = some p
  or_kind kind none = of_kind kind

  -- `Registry::resolve`.
  unfoldable pub resolve : (name : Text) → Option (ChatProvider World)
  resolve name = or_kind (kind_from_text name) (lookup name registry.overrides)
