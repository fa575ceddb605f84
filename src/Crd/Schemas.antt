-- ===== src/Crd/Schemas.antt =====
-- The three schemas and the three definitions.
use plenuslb.Base.{true, false, none, some, List, [], ◌∷◌, String}
use plenuslb.Crd.{
  Schema, text, boolean, array, object, no_properties, property, namespaced, cluster_scoped,
  Definition, crd_group, crd_version,
}

abbrev plain : Schema
plain = text []

-- The schema of `cloudIntegration`, which both kinds of pools have.
abbrev pub cloud_integration_schema : Schema
cloud_integration_schema = object [] (("hetzner" ∷ []) ∷ []) (
    property "hetzner" (object ("token" ∷ []) [] (property "token" plain no_properties))
      no_properties)

-- The schema of `options`, which both kinds of pools have.
abbrev pub options_schema : Schema
options_schema = object [] [] (
    property "hostNetworkInterface"
      (object ("addAddressesToInterface" ∷ "interfaceName" ∷ []) []
        (property "addAddressesToInterface" boolean (property "interfaceName" plain no_properties)))
      no_properties)

abbrev pub texts_schema : Schema
texts_schema = array (some 1) true plain

-- `GetPersistentIPPoolValidationSchemaV1`
unfoldable pub persistent_pool_schema : Schema
persistent_pool_schema = object ("spec" ∷ []) [] (
    property "spec"
      (object ("addresses" ∷ []) [] (
        property "addresses" texts_schema (
          property "allowedNamespaces" texts_schema (
            property "cloudIntegration" cloud_integration_schema
              (property "options" options_schema no_properties)))))
      no_properties)

-- `GetEphemeralIPPoolValidationSchemaV1`
unfoldable pub ephemeral_pool_schema : Schema
ephemeral_pool_schema = object ("spec" ∷ []) [] (
    property "spec"
      (object ("cloudIntegration" ∷ []) [] (
        property "allowedNamespaces" texts_schema (
          property "cloudIntegration" cloud_integration_schema
            (property "options" options_schema no_properties))))
      no_properties)

-- The schema of an entry of an allocation.
abbrev pub entry_schema : Schema
entry_schema = object ("address" ∷ "pool" ∷ []) [] (
    property "address" plain (
      property "pool" plain (
        property "networkInterface" plain
          (property "nodeName" plain (property "cloudProvider" plain no_properties)))))

abbrev pub type_names : List String
type_names = "ephemeral" ∷ "persistent" ∷ []

abbrev pub state_names : List String
state_names =
    "success" ∷ "error" ∷ "node_error" ∷ "pending" ∷ "address_deleted_from_pool" ∷ "failed" ∷ []

-- `GetIPAllocationValidationSchemaV1`
unfoldable pub allocation_schema : Schema
allocation_schema = object ("spec" ∷ []) [] (
    property "spec"
      (object ("allocations" ∷ "type" ∷ []) [] (
        property "type" (text type_names)
          (property "allocations" (array none false entry_schema) no_properties)))
      (property "status"
        (object [] []
          (property "state" (text state_names) (property "message" plain no_properties)))
        no_properties))

-- What the definitions of the two kinds of pools have in common.
abbrev pub pool_definition : String → String → String → String → Schema → Definition
pool_definition name singular plural kind schema = record {
  name = name;
  resource_version = "";
  version_name = crd_version;
  served = true;
  storage = true;
  schema = schema;
  status_subresource = false;
  columns = [];
  group = crd_group;
  scope = cluster_scoped;
  singular = singular;
  plural = plural;
  kind = kind;
  categories = [];
  short_names = [];
  preserve_unknown_fields = false;
}

-- `getV1Definition` of pkg/controller/persistentips
unfoldable pub persistent_pool_definition : Definition
persistent_pool_definition =
    pool_definition "persistentippools.loadbalancing.plenus.io" "persistentippool"
      "persistentippools" "PersistentIPPool" persistent_pool_schema

-- `getV1Definition` of pkg/controller/ephemeralips
unfoldable pub ephemeral_pool_definition : Definition
ephemeral_pool_definition =
    pool_definition "ephemeralippools.loadbalancing.plenus.io" "ephemeralippool" "ephemeralippools"
      "EphemeralIPPool" ephemeral_pool_schema

-- `getV1Definition` of pkg/controller/ipallocations
unfoldable pub allocation_definition : Definition
allocation_definition = record {
  name = "ipallocations.loadbalancing.plenus.io";
  resource_version = "";
  version_name = crd_version;
  served = true;
  storage = true;
  schema = allocation_schema;
  status_subresource = true;
  columns =
      record { name = "Type"; column_type = "string"; json_path = ".spec.type" }
      ∷ record { name = "State"; column_type = "string"; json_path = ".status.state" }
      ∷ record { name = "Message"; column_type = "string"; json_path = ".status.message" }
      ∷ record { name = "Age"; column_type = "date"; json_path = ".metadata.creationTimestamp" }
      ∷ [];
  group = crd_group;
  scope = namespaced;
  singular = "ipallocation";
  plural = "ipallocations";
  kind = "IPAllocation";
  categories = "all" ∷ [];
  short_names = "ipa" ∷ [];
  preserve_unknown_fields = false;
}
