-- ===== src/Platform.antt =====
-- What the program calls and does not implement: the clock, random ids, HTTP, base64, the JSON text
-- and P-256. A call that has an effect takes the state of the outside world and returns the next.
use federated_catalog_rs.Prelude.{ℕ, String, Option, List, Result, ◌&&◌, Bool, leb, ltb}
use federated_catalog_rs.Json.{Value}
use federated_catalog_rs.Did.{DidDocument}

pub data Method : Type 0 where
  http_get http_post : Method

pub record Request : Type 0 where
  pub method : Method
  pub url : String
  pub authorization : Option String
  pub body : Option Value

-- A response: its status, its body as JSON (an error if it is none), and its text
pub record Response : Type 0 where
  pub status : ℕ
  pub json : Result Value String
  pub text : Result String String

-- `StatusCode::is_success`
abbrev pub is_success : ℕ → Bool
is_success status = leb 200 status && ltb status 300

-- `key_x` and `key_y` are the coordinates of a public key's uncompressed point.
pub record Platform : Type 1 where
  pub World : Type 0
  pub now_secs : World → ℕ × World
  pub new_uuid : World → String × World
  pub send : Request → World → Result Response String × World
  pub status_to_string : ℕ → String
  -- bytes, `str::as_bytes` and base64url without padding
  pub Bytes : Type 0
  pub utf8 : String → Bytes
  pub len : Bytes → ℕ
  pub b64_encode : Bytes → String
  pub base64_decode : String → Result Bytes String
  -- serde_json: printing, and parsing a slice
  pub json_to_string : Value → String
  pub json_from_slice : Bytes → Result Value String
  -- the derived `Deserialize` of a presentation response and of a DID document
  pub presentation_from_value : Value → Result (List String) String
  pub did_document_from_value : Value → Result DidDocument String
  -- p256
  pub SigningKey : Type 0
  pub VerifyingKey : Type 0
  pub Signature : Type 0
  pub random_key : World → SigningKey × World
  pub key_to_bytes : SigningKey → Bytes
  pub key_from_bytes : Bytes → SigningKey
  pub verifying_key_of : SigningKey → VerifyingKey
  pub key_x : VerifyingKey → Bytes
  pub key_y : VerifyingKey → Bytes
  pub public_key_from_xy : Bytes → Bytes → Option VerifyingKey
  pub sign : SigningKey → Bytes → Signature
  pub signature_to_bytes : Signature → Bytes
  pub signature_from_slice : Bytes → Result Signature String
  pub verify : VerifyingKey → Bytes → Signature → Result (Unit {0}) String
