-- ===== src/Package/Plugin.antt =====
-- The records of crates/package/src/lib.rs that describe a plugin.
use tron_hawk.Common.{Bool, Option, List, Str, codes}
use tron_hawk.Common.Map.{Map}
use tron_hawk.Json.{Json, is_string, is_number, is_boolean}

pub data ConfigType : Type 0 where
  string number boolean : ConfigType

abbrev pub type_name : ConfigType → Str
type_name string = codes "string"
type_name number = codes "number"
type_name boolean = codes "boolean"

-- Whether a value is of the declared type.
abbrev pub matches_type : ConfigType → Json → Bool
matches_type string v = is_string v
matches_type number v = is_number v
matches_type boolean v = is_boolean v

pub record ConfigField : Type 0 where
  pub field_type : ConfigType
  pub default : Option Json
  pub label : Option Str

pub record NetworkManifest : Type 0 where
  pub domains : List Str

pub record Plugin : Type 0 where
  pub id : Str
  pub name : Str
  pub version : Str
  pub author : Str
  pub tronhawk : Str
  pub permissions : List Str
  pub css : Option Str
  pub renderer : Option Str
  pub main : Option Str
  pub config : Map ConfigField
  pub network : Option NetworkManifest
