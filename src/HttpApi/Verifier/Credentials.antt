-- ===== src/HttpApi/Verifier/Credentials.antt =====
-- The checks of a presentation's credentials, and what they grant.
use mathlib.Core.List.{append_assoc, append-nil}
use federated_catalog_rs.Prelude.{
  ◌<◌, ◌≤◌, ◌∙◌, ◌||◌, Bool-cases, String, ◌≡◌, refl, ap, sym, inl, inr, Bool, true, false, some,
  List, [], ◌∷◌, ◌++◌, Result, ok, ok_or, ok_or-eq-ok, ok-injective, leb, if◌then◌else◌, arith,
  subst,
}
use federated_catalog_rs.Json.{Value, get, get_str, get_u64, unwrap_or, null, as_str}
use federated_catalog_rs.Did.{DidDocument}
use federated_catalog_rs.Task.{lift_bind-eq-ok, >>=-eq-ok}
use federated_catalog_rs.Platform.{Platform}
use federated_catalog_rs.Dcp.Jws.{decode_jws_unverified, verify_jws_signature}
use federated_catalog_rs.Dcp.Documents.{find_verifying_key}
use federated_catalog_rs.Dcp.Resolve.{resolve_did}
use federated_catalog_rs.HttpApi.Verifier.Grants.{Grants, granted-Grants, Grants-granted}
use federated_catalog_rs.HttpApi.Verifier.{granted, check_credential, check_credentials}

or_false : (b : Bool) → b || false ≡ b
or_false true = refl
or_false false = refl

-- Whether one has expired, before or now or later
or_stale :
    (stale before late : Bool)
    → (if stale then true else before) || late ≡ before || (stale || late)
or_stale true true late = refl
or_stale true false late = refl
or_stale false before late = refl

module _ (P : Platform) (insecure : Bool) where
  -- A text that is a token signed by a key that its issuer's DID document lists; `w` is the world in
  -- which the document was asked for, and `w1` the one in which the clock is read.
  pub record IsAuthentic (token : String) (issuer : String) (payload : Value) (w : P.World)
      : Type 0 where
    pub signing_input : String
    pub header : Value
    pub kid : String
    pub doc : DidDocument
    pub key : P.VerifyingKey
    pub w1 : P.World
    pub decoded : decode_jws_unverified P token ≡ ok (signing_input, header, payload)
    pub has_iss : get_str "iss" payload ≡ some issuer
    pub has_kid : get_str "kid" header ≡ some kid
    pub resolved : resolve_did P issuer insecure w ≡ (ok doc, w1)
    pub listed : find_verifying_key P doc kid ≡ ok key
    pub verified : verify_jws_signature P token key ≡ ok tt

  -- Such a token, not expired when it was checked
  pub record IsSigned (token : String) (issuer : String) (payload : Value) (w : P.World)
      : Type 0 where
    pub authentic : IsAuthentic token issuer payload w
    pub unexpired : (P.now_secs authentic.w1).0 < unwrap_or (get_u64 "exp" payload) 0

  -- A credential as it is checked: an unexpired one with what it grants, or an expired one. The clock
  -- is read after the document of the issuer is there.
  pub data Checked (v : Value) (w : P.World) : List String → Bool → P.World → Type 0 where
    fresh :
        {ids : List String} (token issuer : String) (payload : Value)
        → as_str v ≡ some token
        → (signed : IsSigned token issuer payload w)
        → Grants (unwrap_or (get "vc" payload) null) ids
        → Checked v w ids false (P.now_secs signed.authentic.w1).1
    expired :
        (token issuer : String) (payload : Value)
        → as_str v ≡ some token
        → (authentic : IsAuthentic token issuer payload w)
        → unwrap_or (get_u64 "exp" payload) 0 ≤ (P.now_secs authentic.w1).0
        → Checked v w [] true (P.now_secs authentic.w1).1

  -- The credentials checked one after the other, all of them authentic: which ids the unexpired ones
  -- grant, in order, and whether one has expired
  pub data Audit : List Value → P.World → List String → Bool → P.World → Type 0 where
    finished : {w : P.World} → Audit [] w [] false w
    checked :
        {v : Value} {vs : List Value} {w w1 w' : P.World} {here ids : List String}
        {stale late : Bool}
        → Checked v w here stale w1
        → Audit vs w1 ids late w'
        → Audit (v ∷ vs) w (here ++ ids) (stale || late) w'

  Checked-check_credential :
      (v : Value) (w w' : P.World) (ids : List String) (late : Bool)
      → Checked v w ids late w'
      → check_credential P insecure v w ≡ (ok (ids, late), w')
  unfolding check_credential
  Checked-check_credential v w w' ids late (fresh token issuer payload t signed grants) =
      let a = signed.authentic in
      let live : leb (unwrap_or (get_u64 "exp" payload) 0) (P.now_secs a.w1).0 ≡ false =
        ground (arith, signed.unexpired) in
      rw (t, a.decoded, a.has_iss, a.has_kid, a.resolved, a.listed, a.verified, live)
        (ap (λ xs. (ok (xs, false), (P.now_secs a.w1).1)) (Grants-granted grants))
  Checked-check_credential v w w' ids late (expired token issuer payload t a e) =
      let stale : leb (unwrap_or (get_u64 "exp" payload) 0) (P.now_secs a.w1).0 ≡ true =
        ground (arith, e) in
      rw (t, a.decoded, a.has_iss, a.has_kid, a.resolved, a.listed, a.verified, stale) refl

  -- What the clock makes of an authentic credential
  Checked-IsAuthentic :
      (v : Value) (w : P.World) (token issuer : String) (payload : Value)
      → as_str v ≡ some token
      → (a : IsAuthentic token issuer payload w)
      → let outcome : List String × Bool =
          if leb (unwrap_or (get_u64 "exp" payload) 0) (P.now_secs a.w1).0
          then ([], true)
          else (granted (unwrap_or (get "vc" payload) null), false) in
        Checked v w outcome.0 outcome.1 (P.now_secs a.w1).1
  Checked-IsAuthentic v w token issuer payload t a =
      elim (Bool-cases (leb (unwrap_or (get_u64 "exp" payload) 0) (P.now_secs a.w1).0)) [
        | inl e ↦ rw e (expired token issuer payload t a (ground (arith, e)))
        | inr e ↦ rw e (
            fresh token issuer payload t (record { authentic = a; unexpired = ground (arith, e) })
              (granted-Grants _))
      ]

  check_credential-Checked :
      (v : Value) (w w' : P.World) (ids : List String) (late : Bool)
      → check_credential P insecure v w ≡ (ok (ids, late), w')
      → Checked v w ids late w'
  unfolding check_credential
  check_credential-Checked v w w' ids late e =
      let (token, text, e1) = lift_bind-eq-ok (ok_or (as_str v) _) _ w e in
      let ((si, header, payload), decoded, e2) =
        lift_bind-eq-ok (decode_jws_unverified P token) _ w e1 in
      let (issuer, iss, e3) = lift_bind-eq-ok (ok_or (get_str "iss" payload) _) _ w e2 in
      let (kid, has_kid, e4) = lift_bind-eq-ok (ok_or (get_str "kid" header) _) _ w e3 in
      let (doc, w1, resolved, e5) = >>=-eq-ok (resolve_did P issuer insecure) _ w e4 in
      let (key, listed, e6) = lift_bind-eq-ok (find_verifying_key P doc kid) _ w1 e5 in
      let (u, verified, e7) = lift_bind-eq-ok (verify_jws_signature P token key) _ w1 e6 in
      let authentic : IsAuthentic token issuer payload w = record {
        signing_input = si;
        header = header;
        kid = kid;
        doc = doc;
        key = key;
        w1 = w1;
        decoded = decoded;
        has_iss = ok_or-eq-ok _ _ iss;
        has_kid = ok_or-eq-ok _ _ has_kid;
        resolved = resolved;
        listed = listed;
        verified = verified;
      } in
      subst (Checked v w ids late)
        (ap (λ (r : Result (List String × Bool) String × P.World). r.1) e7)
        (subst (λ (x : List String × Bool). Checked v w x.0 x.1 (P.now_secs w1).1)
          (ok-injective (ap (λ (r : Result (List String × Bool) String × P.World). r.0) e7))
          (Checked-IsAuthentic v w token issuer payload (ok_or-eq-ok _ _ text) authentic))

  pub Audit-check_credentials :
      (vs : List Value) (w w' : P.World) (ids : List String) (late : Bool) (access : List String)
      (before : Bool)
      → Audit vs w ids late w'
      → check_credentials P insecure vs access before w ≡ (ok (access ++ ids, before || late), w')
  unfolding check_credentials
  Audit-check_credentials _ w _ _ _ access before finished = cc (append-nil access, or_false before)
  Audit-check_credentials (v ∷ vs) w w' _ _ access before
        (checked {w1} {here} {ids} {stale} {late} c rest) =
      rw (Checked-check_credential v w w1 here stale c) (
        Audit-check_credentials vs w1 w' ids late (access ++ here) (if stale then true else before)
          rest
        ∙ cc (append_assoc access here ids, or_stale stale before late))

  pub check_credentials-Audit :
      (vs : List Value) (w w' : P.World) (ids : List String) (late : Bool) (access : List String)
      (before : Bool)
      → check_credentials P insecure vs access before w ≡ (ok (ids, late), w')
      → (granted_ids : List String) × (stale : Bool) × Audit vs w granted_ids stale w'
        × (access ++ granted_ids ≡ ids)
        × (before || stale ≡ late)
  unfolding check_credentials
  check_credentials-Audit [] w w' ids late access before e =
      let same = ok-injective (ap (λ (r : Result (List String × Bool) String × P.World). r.0) e) in
      (
        [],
        false,
        subst (Audit [] w [] false)
            (ap (λ (r : Result (List String × Bool) String × P.World). r.1) e) finished,
        append-nil access ∙ ap (λ (x : List String × Bool). x.0) same,
        or_false before ∙ ap (λ (x : List String × Bool). x.1) same,
      )
  check_credentials-Audit (v ∷ vs) w w' ids late access before e =
      let ((here, stale), w1, e1, e2) = >>=-eq-ok (check_credential P insecure v) _ w e in
      let (rest, later, audit, same, lates) =
        check_credentials-Audit vs w1 w' ids late (access ++ here) (if stale then true else before)
          e2 in
      (
        here ++ rest,
        stale || later,
        checked (check_credential-Checked v w w1 here stale e1) audit,
        sym (append_assoc access here rest) ∙ same,
        sym (or_stale stale before later) ∙ lates,
      )
