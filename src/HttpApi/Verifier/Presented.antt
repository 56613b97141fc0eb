-- ===== src/HttpApi/Verifier/Presented.antt =====
-- The presentation of a caller: what the network answers to the verifier's query, and what it holds.
use federated_catalog_rs.Prelude.{
  String, ◌≡◌, refl, ap, sym, ◌∙◌, true, not, some, List, [], ◌∷◌, Result, ok, err, ok_or,
  ok_or-eq-ok, ok-injective, map_err, map_err-eq-ok, arith, subst,
}
use federated_catalog_rs.Text.{◌+++◌}
use federated_catalog_rs.Json.{Value, get, get_str, get_array, and_then}
use federated_catalog_rs.Did.{DidDocument}
use federated_catalog_rs.Task.{lift_bind-eq-ok, >>=-eq-ok, guard-eq-ok}
use federated_catalog_rs.Platform.{Platform, Request, Response, is_success}
use federated_catalog_rs.Dcp.Jws.{decode_jws_unverified, verify_jws_signature, sign_jws}
use federated_catalog_rs.Dcp.Documents.{find_verifying_key, signing_key, service_endpoint_url}
use federated_catalog_rs.Dcp.Resolve.{send_or}
use federated_catalog_rs.Dcp.Holder.{t1_payload}
use federated_catalog_rs.HttpApi.Verifier.{
  DcpConfig, presentation_query, query_presentation, presented_credentials, items_of, nonempty,
  first_presentation, json_presentation,
}

module _ (P : Platform) where
  -- The token that the verifier sends with its query, around the one that the caller's token carries
  abbrev pub query_token : DcpConfig P → String → String → P.World → String
  query_token config did nested w =
      let (now, w1) = P.now_secs w in
      sign_jws P (t1_payload P config.key_pair.own_did did nested now (P.new_uuid w1).0)
        (signing_key P config.key_pair) config.key_pair.own_key_id

  -- The network answers the query, sent to the credential service of the caller's document, with a
  -- message whose first presentation is `vp`.
  pub record Returned (config : DcpConfig P) (did : String) (doc : DidDocument) (payload : Value)
      (w : P.World) (vp : String) (w' : P.World) : Type 0 where
    pub nested : String
    pub base : String
    pub response : Response
    pub message : Value
    pub others : List String
    pub has_token : get_str "token" payload ≡ some nested
    pub has_service : service_endpoint_url doc "CredentialService" ≡ ok base
    pub answered :
        P.send
          (presentation_query P
            (base +++ "/presentations/query")
            (query_token config did nested w)
            config.required_scope)
          (P.new_uuid (P.now_secs w).1).1
        ≡ (ok response, w')
    pub succeeded : is_success response.status ≡ true
    pub is_json : response.json ≡ ok message
    pub read : P.presentation_from_value message ≡ ok (vp ∷ others)

  -- A presentation signed by a key of the caller's document, and its credentials
  pub record IsPresented (doc : DidDocument) (vp : String) (credentials : List Value) : Type 0 where
    pub signing_input : String
    pub header : Value
    pub payload : Value
    pub kid : String
    pub key : P.VerifyingKey
    pub first : Value
    pub others : List Value
    pub decoded : decode_jws_unverified P vp ≡ ok (signing_input, header, payload)
    pub has_kid : get_str "kid" header ≡ some kid
    pub listed : find_verifying_key P doc kid ≡ ok key
    pub verified : verify_jws_signature P vp key ≡ ok tt
    pub contents :
        items_of (and_then (get "vp" payload) (get_array "verifiableCredential")) ≡ credentials
    pub some_credential : credentials ≡ first ∷ others

  pub IsPresented-presented_credentials :
      (doc : DidDocument) (vp : String) (credentials : List Value) (w : P.World)
      → IsPresented doc vp credentials
      → presented_credentials P doc vp w ≡ (ok credentials, w)
  unfolding presented_credentials
  IsPresented-presented_credentials doc vp credentials w h =
      rw (h.decoded, h.has_kid, h.listed, h.verified, h.contents, h.some_credential) refl

  nonempty-eq-ok :
      (vs : List Value) (w : P.World) {credentials : List Value} {w' : P.World}
      → ◌≡◌ {A = Result (List Value) String × P.World} (nonempty P vs, w) (ok credentials, w')
      → (first : Value) × (others : List Value) × (credentials ≡ first ∷ others)
        × (vs ≡ credentials)
        × (w ≡ w')
  nonempty-eq-ok [] w e = ground (arith, e)
  nonempty-eq-ok (v ∷ vs) w e =
      let same = ok-injective (ap (λ (r : Result (List Value) String × P.World). r.0) e) in
      (v, vs, sym same, same, ap (λ (r : Result (List Value) String × P.World). r.1) e)

  pub presented_credentials-IsPresented :
      (doc : DidDocument) (vp : String) (credentials : List Value) (w w' : P.World)
      → presented_credentials P doc vp w ≡ (ok credentials, w')
      → IsPresented doc vp credentials × (w ≡ w')
  unfolding presented_credentials
  presented_credentials-IsPresented doc vp credentials w w' e =
      let ((si, header, payload), decoded, e1) =
        lift_bind-eq-ok (decode_jws_unverified P vp) _ w e in
      let (kid, has_kid, e2) = lift_bind-eq-ok (ok_or (get_str "kid" header) _) _ w e1 in
      let (key, listed, e3) = lift_bind-eq-ok (find_verifying_key P doc kid) _ w e2 in
      let (u, verified, e4) = lift_bind-eq-ok (verify_jws_signature P vp key) _ w e3 in
      let (first, others, is, contents, still) = nonempty-eq-ok _ w e4 in
      (
        record {
          signing_input = si;
          header = header;
          payload = payload;
          kid = kid;
          key = key;
          first = first;
          others = others;
          decoded = decoded;
          has_kid = ok_or-eq-ok _ _ has_kid;
          listed = listed;
          verified = verified;
          contents = contents;
          some_credential = is;
        },
        still,
      )

  pub Returned-query_presentation :
      (config : DcpConfig P) (did : String) (doc : DidDocument) (payload : Value) (w : P.World)
      (vp : String) (w' : P.World)
      → Returned config did doc payload w vp w'
      → query_presentation P config did doc payload w ≡ (ok vp, w')
  unfolding query_presentation
  Returned-query_presentation config did doc payload w vp w' h =
      rw (h.has_token, h.has_service, h.answered, h.succeeded, h.is_json, h.read) refl

  -- The message of a response that reads as a list of presentations
  message-eq-ok :
      (json : Result Value String) {vps : List String}
      → json_presentation P json ≡ ok vps
      → (message : Value) × (json ≡ ok message) × (P.presentation_from_value message ≡ ok vps)
  message-eq-ok (ok v) e = (v, refl, e)
  message-eq-ok (err e') e = ground (arith, e)

  first-eq-ok :
      (vps : List String) (w : P.World) {vp : String} {w' : P.World}
      → ◌≡◌ {A = Result String String × P.World} (first_presentation P vps, w) (ok vp, w')
      → (others : List String) × (vps ≡ vp ∷ others) × (w ≡ w')
  first-eq-ok [] w e = ground (arith, e)
  first-eq-ok (v ∷ vps) w e = (
    vps,
    ap (λ x. x ∷ vps) (ok-injective (ap (λ (r : Result String String × P.World). r.0) e)),
    ap (λ (r : Result String String × P.World). r.1) e,
  )

  sent-eq-ok :
      (f : String → String) (r : Request) (w : P.World) {response : Response} {w' : P.World}
      → send_or P f r w ≡ (ok response, w')
      → P.send r w ≡ (ok response, w')
  sent-eq-ok f r w e = from (P.send r w) e
    where
      from :
          (x : Result Response String × P.World) {response : Response} {w' : P.World}
          → ◌≡◌ {A = Result Response String × P.World} (map_err f x.0, x.1) (ok response, w')
          → x ≡ (ok response, w')
      from (ok a, w) e = e
      from (err a, w) e = ground (arith, e)

  pub query_presentation-Returned :
      (config : DcpConfig P) (did : String) (doc : DidDocument) (payload : Value) (w : P.World)
      (vp : String) (w' : P.World)
      → query_presentation P config did doc payload w ≡ (ok vp, w')
      → Returned config did doc payload w vp w'
  unfolding query_presentation
  query_presentation-Returned config did doc payload w vp w' e =
      let (nested, has_token, e1) = lift_bind-eq-ok (ok_or (get_str "token" payload) _) _ w e in
      let w2 = (P.new_uuid (P.now_secs w).1).1 in
      let (base, has_service, e2) =
        lift_bind-eq-ok (service_endpoint_url doc "CredentialService") _ w2 e1 in
      let request =
        presentation_query P (base +++ "/presentations/query") (query_token config did nested w)
          config.required_scope in
      let (response, w3, sent, e3) = >>=-eq-ok (send_or P _ request) _ w2 e2 in
      let (good, e4) = guard-eq-ok (not (is_success response.status)) _ _ w3 e3 in
      let (vps, read, e5) =
        lift_bind-eq-ok (map_err _ (json_presentation P response.json)) _ w3 e4 in
      let (message, is_json, is) = message-eq-ok response.json (map_err-eq-ok _ _ read) in
      let (others, first, still) = first-eq-ok vps w3 e5 in
      record {
        nested = nested;
        base = base;
        response = response;
        message = message;
        others = others;
        has_token = ok_or-eq-ok _ _ has_token;
        has_service = has_service;
        answered =
            subst (λ u. P.send request w2 ≡ (ok response, u)) still (sent-eq-ok _ request w2 sent);
        succeeded = ground (arith, good);
        is_json = is_json;
        read = is ∙ ap ok first;
      }
