-- ===== src/Dcp/Tests.antt =====
-- The theorems on tokens, identifiers and the holder at concrete inputs.
use federated_catalog_rs.Prelude.{String, arith, ◌≡◌, refl, true, some, [], ◌∷◌, ok}
use federated_catalog_rs.Text.{split, join, replace_char, strip_prefix, replace}
use federated_catalog_rs.Json.{Value, obj, arr, nat, string, get_str, get_u64, get, lookup}
use federated_catalog_rs.Platform.{Platform}
use federated_catalog_rs.Testbed
use federated_catalog_rs.Testbed.{
  testbed, testbed-IsFaithful, testbed-HasP256Keys, testbed-ReadsDocuments,
}
use federated_catalog_rs.Dcp.Jws.{
  decode_jws_unverified, verify_jws_signature, jws_header, sign_jws, b64_decode,
}
use federated_catalog_rs.Dcp.DidWeb.{did_web_to_url, urlencoding_decode}
use federated_catalog_rs.Dcp.Documents.{
  find_verifying_key, jwk_to_verifying_key, signing_key, generate,
}
use federated_catalog_rs.Dcp.Resolve.{resolve_did}
use federated_catalog_rs.Dcp.Holder.{
  HolderIdentity, new, mint_self_issued_token, answer_presentation_query,
}
use federated_catalog_rs.Dcp.Holder.Laws.{
  mint_self_issued_token_lem, IsEntitled, IsEntitled-answer_presentation_query,
}

-- The DID document of a caller, `did:web:caller`
abbrev caller_document : Value
caller_document = obj (
    ("service", arr [])
    ∷ (
      "verificationMethod",
      arr (
          obj (
            ("id", string "kid")
            ∷ ("publicKeyJwk", obj (("x", string "c") ∷ ("y", string "c") ∷ []))
            ∷ [])
          ∷ []),
    )
    ∷ [])

-- The payload of the caller's query, addressed to a holder on `localhost:80`
abbrev query_payload : Value
query_payload = obj (
    ("aud", string "did:web:localhost%3A80:dsp:holder")
    ∷ ("exp", nat 1000)
    ∷ ("iss", string "did:web:caller")
    ∷ [])

abbrev caller_world : Platform
caller_world = testbed "kid" query_payload caller_document

abbrev holder : HolderIdentity caller_world
holder = (new caller_world "localhost:80" true "h.p.s" "scope" 7).0

holder_tests : Unit {0}
unfolding split join replace_char strip_prefix replace get_str get_u64 get lookup
    decode_jws_unverified verify_jws_signature b64_decode did_web_to_url urlencoding_decode
    resolve_did find_verifying_key jwk_to_verifying_key new generate answer_presentation_query
    sign_jws signing_key Testbed.print Testbed.read_document
holder_tests = tt

answers : answer_presentation_query caller_world holder "h.p.s" 7 ≡ (ok ("h.p.s" ∷ []), 8)
unfolding holder_tests
answers = refl

IsEntitled-answer_presentation_query_example : IsEntitled caller_world holder "h.p.s" 7
IsEntitled-answer_presentation_query_example =
    IsEntitled-answer_presentation_query caller_world holder "h.p.s" 7 ("h.p.s" ∷ []) 8 answers

-- The payload that the holder signs at time 7, for `did:web:provider`
abbrev minted : Value
minted = obj (
    ("aud", string "did:web:provider")
    ∷ ("exp", nat 307)
    ∷ ("iat", nat 7)
    ∷ ("iss", string "did:web:localhost%3A80:dsp:holder")
    ∷ ("jti", string "uuid")
    ∷ ("nbf", nat 7)
    ∷ ("sub", string "did:web:localhost%3A80:dsp:holder")
    ∷ ("token", string "h.p.s")
    ∷ [])

abbrev own_key_id : String
own_key_id = "did:web:localhost%3A80:dsp:holder#dsp-key"

abbrev mint_world : Platform
mint_world = testbed own_key_id minted caller_document

abbrev minting : HolderIdentity mint_world
minting = (new mint_world "localhost:80" true "h.p.s" "scope" 7).0

mint_self_issued_token_lem_example :
    (signing_input : String) × (payload : Value) × (decode_jws_unverified mint_world
        (mint_self_issued_token mint_world minting "did:web:provider" 7).0
      ≡ ok (signing_input, jws_header minting.key_pair.own_key_id, payload))
    × (get_str "iss" payload ≡ some minting.key_pair.own_did)
    × (get_str "aud" payload ≡ some "did:web:provider")
    × (get_u64 "exp" payload ≡ some 307)
    × (verify_jws_signature mint_world
          (mint_self_issued_token mint_world minting "did:web:provider" 7).0
          (mint_world.verifying_key_of (signing_key mint_world minting.key_pair))
        ≡ ok tt)
unfolding Testbed.print lookup get sign_jws new generate replace_char
mint_self_issued_token_lem_example =
    mint_self_issued_token_lem mint_world (testbed-IsFaithful own_key_id minted caller_document)
      minting "did:web:provider" 7 refl refl (omega arith)
