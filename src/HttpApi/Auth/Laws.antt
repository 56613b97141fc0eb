-- ===== src/HttpApi/Auth/Laws.antt =====
-- Authorization fails closed, and a caller sees only what it was granted.
use federated_catalog_rs.Prelude.{
  String, ◌≡◌, refl, ◌≢◌, ap, ◌⊎◌, inl, inr, true, false, Option, none, some, List, [], Result, ok,
  err, Bool-cases, arith,
}
use federated_catalog_rs.Platform.{Platform}
use federated_catalog_rs.Json.{unwrap_or}
use federated_catalog_rs.HttpApi.Verifier.{DcpConfig, VerifiedCaller, verify_dcp_bearer_token}
use federated_catalog_rs.HttpApi.Auth.{
  DspAuthMode, disabled, bearer, dcp, Reply, bearer_token, DspAuthConfig, unauthorized_response,
  authorize_token, authorize_bearer, authorize, is_disabled, verified_access, dcp_access,
}

-- A DCP mode comes with its configuration, as `load_dsp_auth` sees to.
abbrev pub IsConsistent : (P : Platform) → DspAuthConfig P → Type 0
IsConsistent P auth = auth.mode ≡ dcp → auth.dcp ≢ none

-- The access is what the caller's token was granted by this configuration, in the world in which the
-- request was made.
abbrev pub Grants : (P : Platform) → DspAuthConfig P → String → P.World → List String → Type 0
Grants P auth token w ids =
    (auth.mode ≡ bearer) × (ids ≡ unwrap_or (auth.catalog_access token) [])
    ⊎ (auth.mode ≡ dcp)
      × (config : DcpConfig P) × (caller : VerifiedCaller P) × (auth.dcp ≡ some config)
      × ((verify_dcp_bearer_token P token config w).0 ≡ ok caller)
      × (ids ≡ caller.catalog_access)

-- What `authorize` may come to
pub data Outcome (P : Platform) (auth : DspAuthConfig P) (header : Option String) (w : P.World)
    : Result (Option (List String)) Reply → Type 0 where
  unrestricted : auth.mode ≡ disabled → Outcome P auth header w (ok none)
  restricted :
      (token : String) (ids : List String)
      → auth.mode ≢ disabled
      → bearer_token header ≡ some token
      → Grants P auth token w ids
      → Outcome P auth header w (ok (some ids))
  refused :
      (w1 : P.World)
      → auth.mode ≢ disabled
      → Outcome P auth header w (err (unauthorized_response P w1).0)

module _ (P : Platform) (auth : DspAuthConfig P) (consistent : IsConsistent P auth)
    (header : Option String) (w : P.World) where
  disabled_of : (m : DspAuthMode) → is_disabled m ≡ true → m ≡ disabled
  disabled_of disabled e = refl
  disabled_of bearer e = ground arith
  disabled_of dcp e = ground arith

  not_disabled : (m : DspAuthMode) → is_disabled m ≡ false → m ≢ disabled
  not_disabled m e d = ground (arith, e, d)

  verified-Outcome :
      (token : String) (config : DcpConfig P) (r : Result (VerifiedCaller P) String × P.World)
      → auth.mode ≡ dcp
      → bearer_token header ≡ some token
      → auth.dcp ≡ some config
      → verify_dcp_bearer_token P token config w ≡ r
      → Outcome P auth header w (verified_access P r).0
  verified-Outcome token config (ok caller, w1) m b d v =
      restricted token caller.catalog_access (ground (arith, m)) b (
        inr (
          m,
          config,
          caller,
          d,
          ap (λ (x : Result (VerifiedCaller P) String × P.World). x.0) v,
          refl,
        ))
  verified-Outcome token config (err e, w1) m b d v = refused w1 (ground (arith, m))

  token-Outcome :
      (token : String) (m : DspAuthMode)
      → auth.mode ≡ m
      → m ≢ disabled
      → bearer_token header ≡ some token
      → Outcome P auth header w (authorize_token P m auth token w).0
  token-Outcome token disabled e n b = ground (arith, n refl)
  token-Outcome token bearer e n b =
      restricted token (unwrap_or (auth.catalog_access token) []) (ground (arith, e)) b
        (inl (e, refl))
  token-Outcome token dcp e n b = dcp-Outcome auth.dcp refl
    where
      dcp-Outcome :
          (d : Option (DcpConfig P))
          → auth.dcp ≡ d
          → Outcome P auth header w (dcp_access P d token w).0
      dcp-Outcome none d = ground (arith, consistent e d)
      dcp-Outcome (some config) d = verified-Outcome token config _ e b d refl

  bearer-Outcome :
      (t : Option String)
      → bearer_token header ≡ t
      → auth.mode ≢ disabled
      → Outcome P auth header w (authorize_bearer P t auth w).0
  bearer-Outcome none b n = refused w n
  bearer-Outcome (some token) b n = token-Outcome token auth.mode refl n b

  -- With a consistent configuration, a request is unrestricted only if authorization is off; else it
  -- is refused with 401, or it has a bearer token and gets exactly what the token was granted.
  pub authorize-Outcome : Outcome P auth header w (authorize P auth header w).0
  unfolding authorize
  authorize-Outcome = elim (Bool-cases (is_disabled auth.mode)) [
    | inl e ↦ simp e (unrestricted (disabled_of auth.mode e))
    | inr e ↦ simp e (bearer-Outcome (bearer_token header) refl (λ d. not_disabled auth.mode e d))
  ]
