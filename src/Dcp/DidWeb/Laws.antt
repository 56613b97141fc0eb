-- ===== src/Dcp/DidWeb/Laws.antt =====
-- A `did:web` identifier that was put together from a host and path segments resolves to them.
use federated_catalog_rs.Prelude.{String, Bool, ◌≡◌, refl, ap, ◌∙◌, List, [], ◌∷◌, map, ok, All}
use federated_catalog_rs.Text.{split, join, replace, replace_char, ◌+++◌}
use federated_catalog_rs.Text.Splitting.{Lacks, split-append, split-Lacks, strip_prefix-append}
use federated_catalog_rs.Text.Escaping.{
  replace-Lacks, replace-replace_char, Lacks-replace_char, colon_append,
}
use federated_catalog_rs.Dcp.DidWeb.{urlencoding_decode, scheme, document_url, did_web_to_url}

-- `host.replace(':', "%3A")`
abbrev pub encode : String → String
encode segment = replace_char b':' "%3A" segment

-- The identifier of a host and a path
abbrev pub did_web : String → List String → String
did_web host path = "did:web:" +++ join ":" (map encode (host ∷ path))

-- `urlencoding_decode` undoes the escape on a text that has no `%` itself.
pub decode-encode : (s : String) → Lacks b'%' s → urlencoding_decode (encode s) ≡ s
unfolding urlencoding_decode
decode-encode s h =
    ap (replace "%3a" ":") (replace-replace_char s h) ∙ replace-Lacks "%" "3a" ":" s h

map-decode-encode :
    (path : List String)
    → All (λ s. Lacks b'%' s) path
    → map urlencoding_decode (map encode path) ≡ path
map-decode-encode [] h = refl
map-decode-encode (s ∷ path) (h, hs) = cc (decode-encode s h, map-decode-encode path hs)

split-join :
    (w : String) (ws : List String)
    → split b':' (join ":" (map encode (w ∷ ws))) ≡ map encode (w ∷ ws)
unfolding join
split-join w [] = split-Lacks b':' (encode w) (Lacks-replace_char w)
split-join w (v ∷ ws) =
    ap (λ t. split b':' (encode w +++ t)) (colon_append (join ":" (map encode (v ∷ ws))))
    ∙ split-append ":" (encode w) (join ":" (map encode (v ∷ ws))) (Lacks-replace_char w)
    ∙ ap (◌∷◌ (encode w)) (split-join v ws)

-- The identifier put together from a host and path segments, each with its `:` written `%3A`,
-- resolves to the document under that host and path, if none of them has a `%` of its own.
pub did_web_to_url-did_web :
    (host : String) (path : List String) (insecure_http : Bool)
    → Lacks b'%' host
    → All (λ s. Lacks b'%' s) path
    → did_web_to_url (did_web host path) insecure_http
      ≡ ok (document_url (scheme insecure_http) host path)
unfolding did_web_to_url
did_web_to_url-did_web host path b h hs = rw (
  strip_prefix-append "did:web:" (join ":" (map encode (host ∷ path))),
  split-join host path,
  decode-encode host h,
  map-decode-encode path hs,
)
