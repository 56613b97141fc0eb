-- ===== src/HttpApi/Wire/Encoding.antt =====
-- crates/http-api/src/lib.rs and crates/catalog-core/src/lib.rs: the JSON that the derived `Serialize`
-- writes for the DSP documents and for the domain types, with the fields renamed.
use federated_catalog_rs.Prelude.{String, Option, none, some, List, [], ◌∷◌, map}
use federated_catalog_rs.Json.{
  Value, null, string, array, object, Items, nil, item, Members, end, member, members, obj, arr,
}
use federated_catalog_rs.Catalog.{
  BTreeMap, node_id_to_string, Distribution, DataService, Dataset, Catalog,
}
use federated_catalog_rs.HttpApi.Wire.{
  DspPermission, DspOffer, DspDistribution, DspDataset, DspDataService, DspCatalog, DspCatalogs,
  dsp_catalog, no_catalogs, one_catalog, DspCatalogError, ProtocolVersionEntry,
}

abbrev strings : List String → Value
strings ss = arr (map string ss)

abbrev permission_value : DspPermission → Value
permission_value p = obj (("@type", string p.ld_type) ∷ ("action", string p.action) ∷ [])

abbrev offer_value : DspOffer → Value
offer_value o = obj (
    ("@id", string o.id)
    ∷ ("@type", string o.ld_type)
    ∷ ("permission", arr (map permission_value o.permission))
    ∷ [])

abbrev pub distribution_value : DspDistribution → Value
distribution_value d = obj (
    ("@type", string d.ld_type)
    ∷ ("format", string d.format)
    ∷ ("accessService", string d.access_service)
    ∷ [])

-- `skip_serializing_if = "Option::is_none"`
abbrev context_member : Option (List String) → Members → Members
context_member none rest = rest
context_member (some context) rest = member "@context" (strings context) rest

abbrev pub dataset_value : DspDataset → Value
dataset_value d = object (
    context_member d.context (
      members (
        ("@id", string d.id)
        ∷ ("@type", string d.ld_type)
        ∷ ("hasPolicy", arr (map offer_value d.has_policy))
        ∷ ("distribution", arr (map distribution_value d.distribution))
        ∷ [])))

abbrev pub service_value : DspDataService → Value
service_value s = obj (
    ("@id", string s.id)
    ∷ ("@type", string s.ld_type)
    ∷ ("endpointURL", string s.endpoint_url)
    ∷ [])

-- `skip_serializing_if = "Vec::is_empty"`
abbrev pub catalog_member : Items → Members
catalog_member nil = end
catalog_member (item v vs) = member "catalog" (array (item v vs)) end

unfoldable mutual
  pub catalog_value : DspCatalog → Value
  catalog_value (dsp_catalog context id ld_type participant_id dataset service catalogs) = object (
      member "@context" (strings context) (
        member "@id" (string id) (
          member "@type" (string ld_type) (
            member "participantId" (string participant_id) (
              member "dataset" (arr (map dataset_value dataset)) (
                member "service" (arr (map service_value service))
                  (catalog_member (catalog_items catalogs))))))))

  pub catalog_items : DspCatalogs → Items
  catalog_items no_catalogs = nil
  catalog_items (one_catalog c cs) = item (catalog_value c) (catalog_items cs)

abbrev pub catalog_error_value : DspCatalogError → Value
catalog_error_value e = obj (
    ("@context", strings e.context)
    ∷ ("@id", string e.id)
    ∷ ("@type", string e.ld_type)
    ∷ ("code", string e.code)
    ∷ [])

abbrev version_value : ProtocolVersionEntry → Value
version_value v =
    obj
      (("version", string v.version) ∷ ("path", string v.path) ∷ ("binding", string v.binding) ∷ [])

-- `DspaceVersionResponse`
abbrev pub versions_value : List ProtocolVersionEntry → Value
versions_value vs = obj (("protocolVersions", arr (map version_value vs)) ∷ [])

-- The domain types, as `GET /catalog` returns them
abbrev text_or_null : Option String → Value
text_or_null none = null
text_or_null (some s) = string s

abbrev entries : BTreeMap → Members
entries [] = end
entries ((k, s) ∷ rest) = member k (string s) (entries rest)

abbrev stored_distribution_value : Distribution → Value
stored_distribution_value d =
    obj (("format", string d.format) ∷ ("access_service", string d.access_service) ∷ [])

abbrev stored_service_value : DataService → Value
stored_service_value s = obj (
    ("id", string s.id)
    ∷ ("endpoint_url", string s.endpoint_url)
    ∷ ("endpoint_description", text_or_null s.endpoint_description)
    ∷ [])

abbrev stored_dataset_value : Dataset → Value
stored_dataset_value d = obj (
    ("id", string d.id)
    ∷ ("properties", object (entries d.properties))
    ∷ ("distributions", arr (map stored_distribution_value d.distributions))
    ∷ [])

abbrev pub stored_catalog_value : Catalog → Value
stored_catalog_value c = obj (
    ("id", string c.id)
    ∷ ("origin_node", string (node_id_to_string c.origin_node))
    ∷ ("participant_id", text_or_null c.participant_id)
    ∷ ("datasets", arr (map stored_dataset_value c.datasets))
    ∷ ("data_services", arr (map stored_service_value c.data_services))
    ∷ ("properties", object (entries c.properties))
    ∷ [])

-- `CatalogListResponse`
abbrev pub catalog_list_value : List Catalog → Value
catalog_list_value cs = obj (("catalogs", arr (map stored_catalog_value cs)) ∷ [])
