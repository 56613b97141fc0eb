-- ===== src/Dcp/DidWeb.antt =====
-- `did:web` identifiers and the address of their document.
pub mod Laws
use federated_catalog_rs.Prelude.{
  String, Bool, List, [], ◌∷◌, map, Result, ok, err, ok_or, ◌>>=◌, if◌then◌else◌,
}
use federated_catalog_rs.Text.{split, join, strip_prefix, replace, ◌+++◌}

unfoldable pub urlencoding_decode : String → String
urlencoding_decode segment = replace "%3a" ":" (replace "%3A" ":" segment)

-- The first piece of a split, and the others
abbrev pub host_segment : List String → Result (String × List String) String
host_segment [] = err "did:web has no host segment"
host_segment (host ∷ rest) = ok (host, rest)

abbrev pub scheme : Bool → String
scheme insecure_http = if insecure_http then "http" else "https"

abbrev pub document_url : String → String → List String → String
document_url scheme' host [] = scheme' +++ "://" +++ host +++ "/.well-known/did.json"
document_url scheme' host (s ∷ ss) =
    scheme' +++ "://" +++ host +++ "/" +++ join "/" (s ∷ ss) +++ "/did.json"

unfoldable pub did_web_to_url : String → Bool → Result String String
did_web_to_url did insecure_http = do
  rest ← ok_or (strip_prefix "did:web:" did) "not a did:web DID"
  (host, segments) ← host_segment (split b':' rest)
  ok (
      document_url (scheme insecure_http) (urlencoding_decode host)
        (map urlencoding_decode segments))
