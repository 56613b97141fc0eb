-- ===== src/HttpApi/Verifier/Grants.antt =====
-- What a credential grants, said apart from the code that reads it.
use mathlib.Core.List.{Memᴰ}
use federated_catalog_rs.Prelude.{
  String, ◌≡◌, refl, sym, ap, ◌∙◌, true, any, none, some, List, [], ◌∷◌, Option-cases, Bool-cases,
  inl, inr, arith, eq_iff,
}
use federated_catalog_rs.Json.{Value, get, get_array, as_str, and_then}
use federated_catalog_rs.HttpApi.Verifier.{granted, is_expected, items_of, texts}

-- The texts among some values, in their order
pub data Texts : List Value → List String → Type 0 where
  no_values : Texts [] []
  a_text :
      {v : Value} {vs : List Value} {s : String} {ss : List String}
      → as_str v ≡ some s
      → Texts vs ss
      → Texts (v ∷ vs) (s ∷ ss)
  not_text :
      {v : Value} {vs : List Value} {ss : List String}
      → as_str v ≡ none
      → Texts vs ss
      → Texts (v ∷ vs) ss

-- The credential is one for access to a federated catalog.
abbrev pub IsAccessCredential : Value → Type 0
IsAccessCredential vc =
    (t : Value) × Memᴰ t (items_of (get_array "type" vc))
    × (as_str t ≡ some "FederatedCatalogAccessCredential")

-- Such a credential grants the texts of its subject's `catalogAccess`, and any other one nothing.
pub data Grants (vc : Value) : List String → Type 0 where
  access :
      {ids : List String}
      → IsAccessCredential vc
      → Texts (items_of (and_then (get "credentialSubject" vc) (get_array "catalogAccess"))) ids
      → Grants vc ids
  nothing : (IsAccessCredential vc → ⊥) → Grants vc []

texts-Texts : (vs : List Value) → Texts vs (texts vs)
texts-Texts [] = no_values
texts-Texts (v ∷ vs) = elim (Option-cases (as_str v)) [
  | inl e ↦ rw (texts, e) (not_text e (texts-Texts vs))
  | inr (s, e) ↦ rw (texts, e) (a_text e (texts-Texts vs))
]

Texts-texts : {vs : List Value} {ss : List String} → Texts vs ss → texts vs ≡ ss
Texts-texts no_values = refl
Texts-texts (a_text {s = s} e h) = rw (texts, e) (ap (◌∷◌ s) (Texts-texts h))
Texts-texts (not_text e h) = rw (texts, e) (Texts-texts h)

expected-text :
    (t : Value) → is_expected t ≡ true → as_str t ≡ some "FederatedCatalogAccessCredential"
expected-text t h = elim (Option-cases (as_str t)) [
  | inl e ↦ absurd (ground (arith, rw (is_expected, e) at h))
  | inr (s, e) ↦
      e ∙ ap some ((eq_iff s "FederatedCatalogAccessCredential").0 (rw (is_expected, e) at h))
]

text-expected :
    (t : Value) → as_str t ≡ some "FederatedCatalogAccessCredential" → is_expected t ≡ true
text-expected t e = rw (is_expected, e) refl

any-expected :
    (ts : List Value)
    → any is_expected ts ≡ true
    → (t : Value) × Memᴰ t ts × (as_str t ≡ some "FederatedCatalogAccessCredential")
any-expected [] h = absurd (ground (arith, h))
any-expected (t ∷ ts) h = elim (Bool-cases (is_expected t)) [
  | inl e ↦ (t, Memᴰ.head refl, expected-text t e)
  | inr e ↦ let (u, m, is) = any-expected ts (rw e at h) in (u, Memᴰ.tail m, is)
]

expected-any :
    (ts : List Value) (t : Value)
    → Memᴰ t ts
    → as_str t ≡ some "FederatedCatalogAccessCredential"
    → any is_expected ts ≡ true
expected-any [] t m e = elim m [ ]
expected-any (u ∷ ts) t (Memᴰ.head p) e = rw (text-expected u (ap as_str (sym p) ∙ e)) refl
expected-any (u ∷ ts) t (Memᴰ.tail m) e = ground (arith, expected-any ts t m e)

-- The code reads exactly that.
pub granted-Grants : (vc : Value) → Grants vc (granted vc)
unfolding granted
granted-Grants vc = elim (Bool-cases (any is_expected (items_of (get_array "type" vc)))) [
  | inl e ↦ rw e (access (any-expected _ e) (texts-Texts _))
  | inr e ↦ rw e (nothing (λ (t, m, is). ground (arith, e, expected-any _ t m is)))
]

pub Grants-granted : {vc : Value} {ids : List String} → Grants vc ids → granted vc ≡ ids
unfolding granted
Grants-granted (access (t, m, is) h) = rw (expected-any _ t m is) (Texts-texts h)
Grants-granted {vc} (nothing n) =
    elim (Bool-cases (any is_expected (items_of (get_array "type" vc)))) [
      | inl e ↦ absurd (n (any-expected _ e))
      | inr e ↦ rw e refl
    ]
