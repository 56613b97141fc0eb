-- ===== src/Conformance/Tokens.antt =====
-- The unit test of the tokens that a holder mints, crates/dcp-core/src/lib.rs, in a small outside world
-- that keeps what it is given: a byte string is a text, a signature is the message that was signed,
-- and the texts "H", "T1" and "T2" are those of the JSON values that the test reads back.
use federated_catalog_rs.Prelude.{
  ℕ, suc, String, ◌≡◌, refl, true, some, [], Result, ok, err, ltb, ◌==◌, if◌then◌else◌, ◌>>=◌, ◌>>◌,
}
use federated_catalog_rs.Text.{replace_char, split, ◌+++◌}
use federated_catalog_rs.Json.{Value, obj, get, get_str, get_u64, lookup}
use federated_catalog_rs.Store.Contract.{is_some}
use federated_catalog_rs.Platform.{Platform}
use federated_catalog_rs.Testbed.{testbed}
use federated_catalog_rs.Dcp.Jws.{
  jws_header, sign_jws, decode_jws_unverified, verify_jws_signature, b64_decode,
}
use federated_catalog_rs.Dcp.Documents.{generate, signing_key}
use federated_catalog_rs.Dcp.Holder.{new, mint_self_issued_token, access_token_payload, t1_payload}
use federated_catalog_rs.Conformance.Asserts.{Test, assert, unwrap, expect_some, is_text}

abbrev elsewhere : Platform
elsewhere = testbed "kid" (obj []) (obj [])

abbrev own_did : String
own_did = "did:web:localhost%3A19100:dsp:holder"

abbrev target_provider_did : String
target_provider_did = "did:web:localhost%3A19002:dsp"

abbrev header_text : Value
header_text = jws_header (own_did +++ "#dsp-key")

abbrev nested_payload : Value
nested_payload = access_token_payload elsewhere own_did 7 "uuid"

abbrev nested_token : String
nested_token = "H.T2.H_T2"

abbrev minted_payload : Value
minted_payload = t1_payload elsewhere own_did target_provider_did nested_token 7 "uuid"

unfoldable print : Value → String
unfolding get lookup
print v = if is_some (get "alg" v) then "H" else if is_some (get "token" v) then "T1" else "T2"

abbrev read : String → Result Value String
read s =
    if s == "H"
    then ok header_text
    else if s == "T1"
    then ok minted_payload
    else if s == "T2"
    then ok nested_payload
    else err "not JSON"

abbrev keeping : Platform
keeping = record {
  World = ℕ;
  now_secs = λ w. (w, w);
  new_uuid = λ w. ("uuid", suc w);
  send = λ r w. (err "no network", w);
  status_to_string = λ n. "status";
  Bytes = String;
  utf8 = λ s. s;
  len = λ b. 32;
  b64_encode = replace_char b'.' "_";
  base64_decode = λ s. ok (replace_char b'_' "." s);
  json_to_string = print;
  json_from_slice = read;
  presentation_from_value = λ v. err "no message";
  did_document_from_value = λ v. err "no document";
  SigningKey = Unit;
  VerifyingKey = Unit;
  Signature = String;
  random_key = λ w. (tt, w);
  key_to_bytes = λ k. "key";
  key_from_bytes = λ b. tt;
  verifying_key_of = λ k. tt;
  key_x = λ v. "x";
  key_y = λ v. "y";
  public_key_from_xy = λ x y. some tt;
  sign = λ k m. m;
  signature_to_bytes = λ s. s;
  signature_from_slice = λ b. ok b;
  verify = λ v m s. if s == m then ok tt else err "signature error";
}

unfoldable mint_self_issued_token_is_shaped_for_verify_dcp_bearer_token : Test (Unit {0})
mint_self_issued_token_is_shaped_for_verify_dcp_bearer_token = do
  let holder =
      (new keeping "localhost:19100" true "fake.credential.jws"
        "org.eclipse.dspace.dcp.vc.type:FederatedCatalogAccessCredential:read" 7).0
  let minted = mint_self_issued_token keeping holder target_provider_did 7
  let token = minted.0
  (signing_input, header, payload) ← unwrap (decode_jws_unverified keeping token)
  assert (is_text (get_str "iss" payload) holder.key_pair.own_did)
  assert (is_text (get_str "sub" payload) holder.key_pair.own_did)
  assert (is_text (get_str "aud" payload) target_provider_did)
  assert (is_some (get_str "token" payload))
  exp ← expect_some (get_u64 "exp" payload)
  assert (ltb (keeping.now_secs minted.1).0 exp)
  kid ← expect_some (get_str "kid" header)
  assert (kid == holder.key_pair.own_key_id)
  let verifying_key = keeping.verifying_key_of (signing_key keeping holder.key_pair)
  unwrap (verify_jws_signature keeping token verifying_key)
  nested ← expect_some (get_str "token" payload)
  (nested_input, nested_header, nested_claims) ← unwrap (decode_jws_unverified keeping nested)
  assert (is_text (get_str "aud" nested_claims) holder.key_pair.own_did)
  unwrap (verify_jws_signature keeping nested verifying_key)

token_tests : Unit {0}
unfolding mint_self_issued_token_is_shaped_for_verify_dcp_bearer_token print new generate
    mint_self_issued_token signing_key sign_jws decode_jws_unverified verify_jws_signature
    b64_decode split replace_char get get_str get_u64 lookup
token_tests = tt

-- The world reads back what it wrote.
keeps :
    (read (print header_text) ≡ ok header_text)
    × (read (print minted_payload) ≡ ok minted_payload)
    × (read (print nested_payload) ≡ ok nested_payload)
unfolding token_tests
keeps = (refl, refl, refl)

-- and the holder mints these.
minted :
    (mint_self_issued_token keeping
      (new keeping "localhost:19100" true "fake.credential.jws" "scope" 7).0
      target_provider_did
      7).0
    ≡ "H.T1.H_T1"
unfolding token_tests
minted = refl

token_tests_pass : mint_self_issued_token_is_shaped_for_verify_dcp_bearer_token ≡ ok tt
unfolding token_tests
token_tests_pass = refl
