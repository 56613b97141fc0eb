-- ===== src/Dcp/Resolve.antt =====
-- Fetching the document of a DID.
use federated_catalog_rs.Prelude.{String, Bool, not, none, Result, ok, err, map_err, if◌then◌else◌}
use federated_catalog_rs.Text.{◌+++◌}
use federated_catalog_rs.Json.{Value}
use federated_catalog_rs.Did.{DidDocument}
use federated_catalog_rs.Task.{Task, ◌>>=◌, lift}
use federated_catalog_rs.Platform.{Platform, Request, Response, http_get, is_success}
use federated_catalog_rs.Dcp.DidWeb.{did_web_to_url}

module _ (P : Platform) where
  open P use {World, send, status_to_string, did_document_from_value}

  abbrev pub get_request : String → Request
  get_request url' = record { method = http_get; url = url'; authorization = none; body = none }

  -- a request whose error is worded anew
  abbrev pub send_or : (String → String) → Request → Task World Response String
  send_or f request world = let (r, world') = send request world in (map_err f r, world')

  -- `response.json::<DidDocument>()`
  abbrev pub json_document : Result Value String → Result DidDocument String
  json_document (ok v) = did_document_from_value v
  json_document (err e) = err e

  unfoldable pub resolve_did : String → Bool → Task World DidDocument String
  resolve_did did insecure_http = do
    url ← lift (did_web_to_url did insecure_http)
    response ←
        send_or (λ e. "failed to resolve DID " +++ did +++ " at " +++ url +++ ": " +++ e)
          (get_request url)
    if not (is_success response.status)
        then lift (
            err (
              "DID resolution for "
              +++ did
              +++ " returned HTTP "
              +++ status_to_string response.status))
        else lift (
            map_err (λ e. "DID document for " +++ did +++ " was not valid: " +++ e)
              (json_document response.json))
