-- ===== src/Inventory.antt =====
-- Servers, their types, services, alert rules and components of inventory.py, with the fields that the
-- audit reads. An enumeration that is only compared by its value is that value.
use cloudfall.Base.{
  ℕ, String, Bool, true, false, ◌&&◌, Option, some, List, ◌∷◌, any, first, ◌==◌, nat_eq, string_eq,
  if◌then◌else◌,
}

pub record ServerInventory : Type 0 where
  pub resource_id : String
  pub server_type_id : String
  pub ssh_port : ℕ

pub record OperatingSystemRequirement : Type 0 where
  pub distribution : String
  pub versions : List String
  pub service_manager : String

pub record RaidRequirement : Type 0 where
  pub level : String
  pub minimum_active_devices : ℕ
  pub minimum_usable_bytes : ℕ

pub record MountRequirement : Type 0 where
  pub path : String
  pub filesystem : String
  pub minimum_bytes : ℕ

pub record PackageRequirement : Type 0 where
  pub name : String
  pub version : Option String

pub record ServiceRequirement : Type 0 where
  pub name : String
  pub state : String
  pub status : String

pub data NetworkProtocol : Type 0 where
  tcp udp : NetworkProtocol

abbrev pub protocol_value : NetworkProtocol → String
protocol_value tcp = "tcp"
protocol_value udp = "udp"

abbrev pub is_tcp : NetworkProtocol → Bool
is_tcp tcp = true
is_tcp udp = false

pub record FirewallRule : Type 0 where
  pub port : ℕ
  pub protocol : NetworkProtocol
  pub description : Option String

-- `policy` has one value, `default-deny`.
pub record FirewallRequirement : Type 0 where
  pub allowed_inbound : List FirewallRule

-- `(ssh_port.value, NetworkProtocol.TCP) in declared`
abbrev pub is_ssh_rule : ℕ → FirewallRule → Bool
is_ssh_rule ssh_port rule = ssh_port == rule.port && is_tcp rule.protocol

abbrev pub ssh_rule : ℕ → FirewallRule
ssh_rule ssh_port = record { port = ssh_port; protocol = tcp; description = some "ssh" }

unfoldable pub firewall_rules_for_server : FirewallRequirement → ℕ → List FirewallRule
firewall_rules_for_server firewall ssh_port =
    if any (is_ssh_rule ssh_port) firewall.allowed_inbound
    then firewall.allowed_inbound
    else ssh_rule ssh_port ∷ firewall.allowed_inbound

pub data ConfigCapture : Type 0 where
  metadata hash : ConfigCapture

abbrev pub capture_value : ConfigCapture → String
capture_value metadata = "metadata"
capture_value hash = "hash"

pub record ConfigurationFileRequirement : Type 0 where
  pub path : String
  pub capture : ConfigCapture
  pub owner : Option String
  pub group : Option String
  pub mode : Option String
  pub sha256 : Option String

pub record ServerTypeInventory : Type 0 where
  pub resource_id : String
  pub os : OperatingSystemRequirement
  pub raid : Option RaidRequirement
  pub mounts : List MountRequirement
  pub required_packages : List PackageRequirement
  pub forbidden_packages : List String
  pub required_services : List ServiceRequirement
  pub firewall : Option FirewallRequirement
  pub configuration_files : List ConfigurationFileRequirement

pub record ServiceInventory : Type 0 where
  pub resource_id : String
  pub server_id : String
  pub bind_address : String
  pub bind_port : ℕ

pub record AlertRuleInventory : Type 0 where
  pub resource_id : String
  pub environment : String

pub record ComponentInventory : Type 0 where
  pub resource_id : String
  pub server_ids : List String

pub record LoggingStackInventory : Type 0 where
  pub environment : String
  pub backend_server : String

pub record PlatformInventory : Type 0 where
  pub servers : List ServerInventory
  pub server_types : List ServerTypeInventory
  pub services : List ServiceInventory
  pub alert_rules : List AlertRuleInventory
  pub components : List ComponentInventory
  pub logging_stacks : List LoggingStackInventory

-- `PlatformInventory.server_type`; `none` is its `KeyError`
unfoldable pub server_type : PlatformInventory → String → Option ServerTypeInventory
server_type inventory server_type_id =
    first (λ candidate. candidate.resource_id == server_type_id) inventory.server_types
