-- ===== src/Crd.antt =====
-- The definitions of the custom resources: the validation schemas of
-- pkg/apis/loadbalancing/v1alpha1, the definitions of the files CRDDeployer.go of
-- pkg/controller/ipallocations, pkg/controller/persistentips and pkg/controller/ephemeralips, and
-- their deployment by pkg/controller/CRDDeployer/deployer.go, which is in Deploy.
--
-- A schema has the parts of `JSONSchemaProps` that the code sets. `text` and `boolean` stand for the
-- types of these names without additional properties, and an enumeration for the texts that its raw
-- JSON quotes.
pub mod Schemas
pub mod Deploy
pub mod Json
use plenuslb.Base.{Bool, true, false, Option, none, some, List, [], ◌∷◌, String, ◌==◌, ℕ}
use plenuslb.Base.{if◌then◌else◌}

mutual
  pub data Schema : Type 0 where
    text : List String → Schema
    boolean : Schema
    -- The least length that is set, whether additional properties are excluded, and the items.
    array : Option ℕ → Bool → Schema → Schema
    -- The required names, the lists of required names of which one holds, and the properties.
    object : List String → List (List String) → Properties → Schema

  pub data Properties : Type 0 where
    no_properties : Properties
    property : String → Schema → Properties → Properties

-- The schema of a property, if there is one.
abbrev pub lookup : String → Properties → Option Schema
lookup name no_properties = none
lookup name (property other schema rest) =
    let later = lookup name rest in if other == name then some schema else later

pub data Scope : Type 0 where
  namespaced cluster_scoped : Scope

pub record Column : Type 0 where
  pub name : String
  pub column_type : String
  pub json_path : String

-- `CustomResourceDefinition`, with its one version.
pub record Definition : Type 0 where
  pub name : String
  pub resource_version : String
  pub version_name : String
  pub served : Bool
  pub storage : Bool
  pub schema : Schema
  pub status_subresource : Bool
  pub columns : List Column
  pub group : String
  pub scope : Scope
  pub singular : String
  pub plural : String
  pub kind : String
  pub categories : List String
  pub short_names : List String
  pub preserve_unknown_fields : Bool

abbrev pub crd_group : String
crd_group = "loadbalancing.plenus.io"

abbrev pub crd_version : String
crd_version = "v1alpha1"
