-- ===== src/HttpApi/Router/Documents.antt =====
-- The documents that a server's DIDs name are the ones that its router serves.
use mathlib.Core.List.{Memᴰ}
use federated_catalog_rs.Prelude.{String, Bool, ◌≡◌, refl, subst, none, some, [], ◌∷◌, ok}
use federated_catalog_rs.Text.{◌+++◌, replace_char}
use federated_catalog_rs.Text.Splitting.{Lacks, lacks-Lacks}
use federated_catalog_rs.Text.{join}
use federated_catalog_rs.Json.{Value}
use federated_catalog_rs.Did.{DidDocument}
use federated_catalog_rs.Platform.{Platform, http_get}
use federated_catalog_rs.Dcp.Jws.Laws.{IsFaithful}
use federated_catalog_rs.Dcp.DidWeb.{did_web_to_url, scheme}
use federated_catalog_rs.Dcp.DidWeb.Laws.{did_web_to_url-did_web}
use federated_catalog_rs.Dcp.Documents.{
  generate, signing_key, find_verifying_key, service_endpoint_url,
}
use federated_catalog_rs.Dcp.Documents.Laws.{
  HasP256Keys, ReadsDocuments, published, find_verifying_key-generate,
}
use federated_catalog_rs.Dcp.Resolve.{resolve_did, get_request}
use federated_catalog_rs.Dcp.Holder
use federated_catalog_rs.Dcp.Holder.{HolderIdentity, own_did_document}
use federated_catalog_rs.Dcp.Holder.Laws.{did_web_to_url-new, own_did_document-new}
use federated_catalog_rs.HttpApi.Verifier
use federated_catalog_rs.HttpApi.Verifier.{DcpConfig, generate_config}
use federated_catalog_rs.HttpApi.Auth.{reply, document}
use federated_catalog_rs.HttpApi.Handlers.{own_did_document_route, holder_did_document_route}
use federated_catalog_rs.HttpApi.Router.{
  AppState, Dispatcher, IsRouting, HttpRequest, serve, Delivers, get_route,
  own_did_document_endpoint, holder_did_document_endpoint,
}

-- A GET without a query and without credentials
abbrev pub get_path : String → HttpRequest
get_path path = record { method = http_get; path = path; node_id = none; authorization = none }

-- The address that the verifier's DID stands for
verifier_url :
    (host : String) (insecure : Bool)
    → Lacks b'%' host
    → did_web_to_url ("did:web:" +++ replace_char b':' "%3A" host +++ ":dsp") insecure
      ≡ ok (scheme insecure +++ "://" +++ host +++ "/dsp/did.json")
unfolding join replace_char
verifier_url host insecure h =
    did_web_to_url-did_web host ("dsp" ∷ []) insecure h (lacks-Lacks b'%' "dsp" refl, tt)

module _ (P : Platform) where
  -- A DID resolves to the document that is delivered from its address.
  resolve_did-delivered :
      (did url : String) (insecure : Bool) (v : Value) (doc : DidDocument) (w : P.World)
      → did_web_to_url did insecure ≡ ok url
      → Delivers (reply 200 (document v)) (P.send (get_request P url) w).0
      → P.did_document_from_value v ≡ ok doc
      → (resolve_did P did insecure w).0 ≡ ok doc
  unfolding resolve_did
  resolve_did-delivered did url insecure v doc w u (response, received, status, json) r =
      rw (u, received, status, json, r) refl

module _ (P : Platform) (faithful : IsFaithful P) (keys : HasP256Keys P) (reads : ReadsDocuments P)
    (dispatch : Dispatcher) (routing : IsRouting dispatch) (app : AppState P) where
  serve-holder_did_document :
      (holder : HolderIdentity P) (state : app.cache.State) (w : P.World)
      → app.holder ≡ some holder
      → (serve P dispatch app (get_path "/dsp/holder/did.json") state w).0
        ≡ reply 200 (document (own_did_document P holder))
  unfolding serve holder_did_document_route
  serve-holder_did_document holder state w h =
      let dispatched =
        routing.literal (get_route "/dsp/holder/did.json" holder_did_document_endpoint)
          (Memᴰ.tail (Memᴰ.tail (Memᴰ.tail (Memᴰ.tail (Memᴰ.tail (Memᴰ.tail (Memᴰ.head refl)))))))
          (lacks-Lacks b'{' "/dsp/holder/did.json" refl) in
      rw (dispatched, h) refl

  serve-own_did_document :
      (config : DcpConfig P) (state : app.cache.State) (w : P.World)
      → app.dsp_auth.dcp ≡ some config
      → (serve P dispatch app (get_path "/dsp/did.json") state w).0
        ≡ reply 200 (document (Verifier.own_did_document P config))
  unfolding serve own_did_document_route
  serve-own_did_document config state w h =
      let dispatched =
        routing.literal (get_route "/dsp/did.json" own_did_document_endpoint)
          (Memᴰ.tail (Memᴰ.tail (Memᴰ.tail (Memᴰ.tail (Memᴰ.tail (Memᴰ.head refl))))))
          (lacks-Lacks b'{' "/dsp/did.json" refl) in
      rw (dispatched, h) refl

  -- A peer resolves the DID of a server's holder to a document that has the holder's public key and
  -- its base URL as the credential service, if a GET of the URL that the DID stands for reaches this
  -- server; the host has no `%`, and the router, base64url, P-256 keys and the reading of the
  -- document behave as documented.
  pub resolve_did-serve_holder :
      (host : String) (insecure : Bool) (credential scope : String) (w0 w1 w : P.World)
      (state : app.cache.State)
      → Lacks b'%' host
      → app.holder ≡ some (Holder.new P host insecure credential scope w0).0
      → Delivers
          (serve P dispatch app (get_path "/dsp/holder/did.json") state w1).0
          (P.send
            (get_request P (scheme insecure +++ "://" +++ host +++ "/dsp/holder/did.json"))
            w).0
      → let pair = (Holder.new P host insecure credential scope w0).0.key_pair in
        (doc : DidDocument) × ((resolve_did P pair.own_did insecure w).0 ≡ ok doc)
        × (find_verifying_key P doc pair.own_key_id ≡ ok (P.verifying_key_of (signing_key P pair)))
        × (service_endpoint_url doc "CredentialService"
            ≡ ok (scheme insecure +++ "://" +++ host +++ "/dsp/holder"))
  resolve_did-serve_holder host insecure credential scope w0 w1 w state lacks has_holder delivers =
      let holder = (Holder.new P host insecure credential scope w0).0 in
      let (doc, read, key, service) =
        own_did_document-new P faithful keys reads host insecure credential scope w0 in
      let url = scheme insecure +++ "://" +++ host +++ "/dsp/holder/did.json" in
      let served = serve-holder_did_document holder state w1 has_holder in
      (
        doc,
        resolve_did-delivered P holder.key_pair.own_did url insecure (own_did_document P holder) doc
            w (did_web_to_url-new P host insecure credential scope w0 lacks)
            (subst (λ r. Delivers r (P.send (get_request P url) w).0) served delivers) read,
        key,
        service,
      )

  -- A peer resolves the DID that a server in DCP mode gives itself, to a document with the public
  -- key that the server signs its queries with, if a GET of the URL that the DID stands for reaches
  -- this server; the host has no `%`, and the router, base64url, P-256 keys and the reading of the
  -- document behave as documented.
  pub resolve_did-serve_verifier :
      (host : String) (insecure : Bool) (scope : String) (w0 w1 w : P.World)
      (state : app.cache.State)
      → Lacks b'%' host
      → app.dsp_auth.dcp
        ≡ some
            (generate_config P
              ("did:web:" +++ replace_char b':' "%3A" host +++ ":dsp")
              insecure
              scope
              w0).0
      → Delivers
          (serve P dispatch app (get_path "/dsp/did.json") state w1).0
          (P.send (get_request P (scheme insecure +++ "://" +++ host +++ "/dsp/did.json")) w).0
      → let pair =
          (generate_config P
            ("did:web:" +++ replace_char b':' "%3A" host +++ ":dsp")
            insecure
            scope
            w0).0.key_pair in
        (doc : DidDocument) × ((resolve_did P pair.own_did insecure w).0 ≡ ok doc)
        × (find_verifying_key P doc pair.own_key_id ≡ ok (P.verifying_key_of (signing_key P pair)))
  unfolding generate_config generate Verifier.own_did_document
  resolve_did-serve_verifier host insecure scope w0 w1 w state lacks has_config delivers =
      let did = "did:web:" +++ replace_char b':' "%3A" host +++ ":dsp" in
      let config = (generate_config P did insecure scope w0).0 in
      let url = scheme insecure +++ "://" +++ host +++ "/dsp/did.json" in
      let served = serve-own_did_document config state w1 has_config in
      (
        published P config.key_pair [],
        resolve_did-delivered P did url insecure (Verifier.own_did_document P config)
            (published P config.key_pair []) w (verifier_url host insecure lacks)
            (subst (λ r. Delivers r (P.send (get_request P url) w).0) served delivers)
            (reads config.key_pair []),
        find_verifying_key-generate P faithful keys did w0 [],
      )
