-- ===== src/Conformance/Bodies.antt =====
-- What the unit tests of the response parser read, crates/crawler/src/lib.rs.
use federated_catalog_rs.Prelude.{String, false, none, [], ◌∷◌}
use federated_catalog_rs.Text.{◌+++◌}
use federated_catalog_rs.Json.{Value, obj, arr, string}
use federated_catalog_rs.Crawler.Config.{ParticipantEntry}

abbrev pub participant : String → ParticipantEntry
participant id = record {
  id = id;
  name = id;
  catalog_request_url = "http://127.0.0.1:0/dsp/catalog/request";
  requires_dcp = false;
  provider_did = none;
}

abbrev pub connector_service : Value
connector_service = obj (
    ("@id", string "5ee7e0fa-a2bc-4251-bab3-d3a1454dcfc8")
    ∷ ("@type", string "DataService")
    ∷ ("endpointDescription", string "dspace:connector")
    ∷ ("endpointURL", string "http://localhost:8082/api/dsp/2025-1")
    ∷ [])

abbrev pub offer : Value
offer = obj (
    ("@id", string "offer-1")
    ∷ ("@type", string "Offer")
    ∷ ("permission", arr (obj (("action", string "use") ∷ []) ∷ []))
    ∷ [])

abbrev pub real_edc_shaped_response : Value
real_edc_shaped_response = obj (
    ("@id", string "6d3d7a0c-bf06-4160-839f-853350446179")
    ∷ ("@type", string "Catalog")
    ∷ (
      "dataset",
      arr (
          obj (
            ("@id", string "CAT0101")
            ∷ ("@type", string "Dataset")
            ∷ ("hasPolicy", arr (offer ∷ []))
            ∷ (
              "distribution",
              arr (
                  obj (
                    ("@type", string "Distribution")
                    ∷ ("format", string "HttpData-PULL")
                    ∷ ("accessService", connector_service)
                    ∷ [])
                  ∷ []),
            )
            ∷ ("id", string "CAT0101")
            ∷ [])
          ∷ []),
    )
    ∷ ("service", arr (connector_service ∷ []))
    ∷ ("participantId", string "CONNECTOR_UNDER_TEST")
    ∷ (
      "@context",
      arr (
          string "https://w3id.org/dspace/2025/1/context.jsonld"
          ∷ string "https://w3id.org/edc/dspace/v0.0.1"
          ∷ []),
    )
    ∷ [])

-- The catalog of one of the two nodes behind an aggregator
abbrev pub node_catalog : String → String → String → Value
node_catalog id node dataset = obj (
    ("@id", string id)
    ∷ ("@type", string "Catalog")
    ∷ ("participantId", string ("did:example:" +++ node))
    ∷ (
      "dataset",
      arr (
          obj (
            ("@id", string dataset)
            ∷ (
              "distribution",
              arr (
                  obj (
                    ("format", string "application/json")
                    ∷ ("accessService", string (node +++ "-data-service"))
                    ∷ [])
                  ∷ []),
            )
            ∷ [])
          ∷ []),
    )
    ∷ (
      "service",
      arr (
          obj (
            ("@id", string (node +++ "-data-service"))
            ∷ ("endpointURL", string ("https://" +++ node +++ ".example.org/dsp"))
            ∷ [])
          ∷ []),
    )
    ∷ [])

abbrev pub federation_response : Value
federation_response = obj (
    ("@id", string "urn:uuid:outer-wrapper")
    ∷ ("@type", string "Catalog")
    ∷ ("participantId", string "urn:connector:upstream-aggregator")
    ∷ ("dataset", arr [])
    ∷ ("service", arr [])
    ∷ (
      "catalog",
      arr (
          node_catalog "urn:uuid:node-a-catalog" "node-a" "A1"
          ∷ node_catalog "urn:uuid:node-b-catalog" "node-b" "B1"
          ∷ []),
    )
    ∷ [])
