-- ===== src/Auth/Users/Decisions.antt =====
-- What the dependencies of an endpoint decide.
use text.Mathlib.Text.{◌==◌ as str_eq}
use open_civic.Common.{
  ℕ, ◌≡◌, ◌⊎◌, refl, ap, sym, ◌∙◌, String, true, false, inl, inr, Option, none, some, List, any,
  Bool-cases, Option-cases,
}
use open_civic.Common.Table.{Table, find}
use open_civic.Session.{User}
use open_civic.Auth.Users.{
  Settings, UuidText, Headers, CurrentUser, Claims, Auth, granted, refused, AuthError, is_trusted,
  user_from_gateway_headers, get_current_user, get_current_user_optional, authenticate_token,
  resolve_keycloak_user, require_roles, assert_mfa_enrolled, is_privileged,
}

Auth-cases :
    {A : Type 0} (r : Auth A) → ((a : A) × (r ≡ granted a)) ⊎ ((e : AuthError) × (r ≡ refused e))
Auth-cases (granted a) = inl (a, refl)
Auth-cases (refused e) = inr (e, refl)

granted≢refused : {A : Type 0} {a : A} {e : AuthError} → ¬ (granted a ≡ refused e)
granted≢refused {a = a} h = cc

granted-injective : {A : Type 0} {a b : A} → granted a ≡ granted b → a ≡ b
granted-injective {a = a} {b = b} h = cc

nobody≢somebody : {A : Type 0} {a : A} → ¬ (granted none ≡ granted (some a))
nobody≢somebody {a = a} h = cc

module _ (uuid : UuidText) (settings : Settings) (users : ℕ → Table User)
    (validate_token : String → Auth Claims) where
  untrusted :
      (h : Headers)
      → is_trusted settings h ≡ false
      → user_from_gateway_headers uuid settings h ≡ granted none
  unfolding user_from_gateway_headers
  untrusted h outside = rw (outside, user_from_gateway_headers)

  -- Without the secret of the gateway the optional dependency gives the user whom the strict one
  -- accepts, and nobody where that refuses.
  pub get_current_user_optional-agrees :
      (h : Headers) (credentials : Option String)
      → is_trusted settings h ≡ false
      → get_current_user_optional uuid settings users validate_token h credentials
        ≡ (elim (get_current_user uuid settings users validate_token h credentials) [
          | granted u ↦ granted (some u)
          | refused e ↦ granted none
        ])
  unfolding get_current_user get_current_user_optional authenticate_token user_from_gateway_headers
  get_current_user_optional-agrees h none outside = rw (untrusted h outside, outside) refl
  get_current_user_optional-agrees h (some token) outside = rw (untrusted h outside, outside) refl

  named :
      (h : Headers) (w : CurrentUser)
      → user_from_gateway_headers uuid settings h ≡ granted (some w)
      → is_trusted settings h ≡ true
  named h w e = elim (Bool-cases (is_trusted settings h)) [
    | inl agreed ↦ agreed
    | inr denied ↦ absurd (nobody≢somebody (sym (untrusted h denied) ∙ e))
  ]

  by_token :
      (token : String) (u : CurrentUser)
      → settings.dev_auth_enabled ≡ false
      → authenticate_token uuid settings users validate_token token ≡ granted u
      → (claims : Claims) × (settings.keycloak_enabled ≡ true)
        × (validate_token token ≡ granted claims)
  unfolding authenticate_token resolve_keycloak_user
  by_token token u production e = elim (Bool-cases settings.keycloak_enabled) [
    | inr off ↦ absurd (granted≢refused (sym (rw (production, off, authenticate_token) at e)))
    | inl on ↦ elim (Auth-cases (validate_token token)) [
      | inl (claims, e1) ↦ (claims, on, e1)
      | inr (x, e1) ↦ absurd (
          granted≢refused
            (sym (rw (production, on, e1, authenticate_token, resolve_keycloak_user) at e)))
    ]
  ]

  -- Where development tokens are off, a user who is let in is named by the headers of the gateway
  -- under its secret or has a token that the identity provider vouches for.
  pub get_current_user_origin :
      (h : Headers) (credentials : Option String) (u : CurrentUser)
      → settings.dev_auth_enabled ≡ false
      → get_current_user uuid settings users validate_token h credentials ≡ granted u
      → ((is_trusted settings h ≡ true)
          × (user_from_gateway_headers uuid settings h ≡ granted (some u)))
        ⊎ ((token : String) × (claims : Claims) × (credentials ≡ some token)
            × (settings.keycloak_enabled ≡ true)
            × (validate_token token ≡ granted claims))
  unfolding get_current_user authenticate_token
  get_current_user_origin h credentials u production e =
      elim (Auth-cases (user_from_gateway_headers uuid settings h)) [
        | inr (x, e1) ↦ absurd (granted≢refused (sym (rw (e1, get_current_user) at e)))
        | inl (some w, e1) ↦ inl (
          named h w e1,
          e1 ∙ ap (λ x. granted (some x)) (granted-injective (rw (e1, get_current_user) at e)),
        )
        | inl (none, e1) ↦ elim (Option-cases credentials) [
          | inl e2 ↦ absurd (granted≢refused (sym (rw (e1, e2, get_current_user) at e)))
          | inr (token, e2) ↦ inr (
            token,
            (by_token token u production (rw (e1, e2, get_current_user) at e)).0,
            e2,
            (by_token token u production (rw (e1, e2, get_current_user) at e)).1,
            (by_token token u production (rw (e1, e2, get_current_user) at e)).2,
          )
        ]
      ]

  enrolled :
      (tenant_id user_id : ℕ) (roles : List String) {t : Unit {0}}
      → assert_mfa_enrolled uuid settings users tenant_id user_id roles ≡ granted t
      → (settings.mfa_enforcement_enabled ≡ false)
        ⊎ ((is_privileged roles ≡ false)
            ⊎ ((row : User) × (find user_id (users tenant_id) ≡ some row)
                × (row.mfa_enabled ≡ true)))
  unfolding assert_mfa_enrolled
  enrolled tenant_id user_id roles e = elim (Bool-cases settings.mfa_enforcement_enabled) [
    | inr off ↦ inl off
    | inl on ↦ elim (Bool-cases (is_privileged roles)) [
      | inr plain ↦ inr (inl plain)
      | inl privileged ↦ elim (Option-cases (find user_id (users tenant_id))) [
        | inl e1 ↦
            absurd (granted≢refused (sym (rw (on, privileged, e1, assert_mfa_enrolled) at e)))
        | inr (row, e1) ↦ elim (Bool-cases row.mfa_enabled) [
          | inl agreed ↦ inr (inr (row, e1, agreed))
          | inr denied ↦
              absurd
                (granted≢refused (sym (rw (on, privileged, e1, denied, assert_mfa_enrolled) at e)))
        ]
      ]
    ]
  ]

  -- Whom the role check lets through is the user it was asked about and has an allowed role and,
  -- where two-factor authentication is enforced and the roles are privileged, has it enabled.
  pub require_roles_granted :
      (allowed : List String) (u v : CurrentUser)
      → require_roles uuid settings users allowed u ≡ granted v
      → (v ≡ u)
        × (any (λ r. any (str_eq r) u.roles) allowed ≡ true)
        × ((settings.mfa_enforcement_enabled ≡ false)
            ⊎ ((is_privileged u.roles ≡ false)
                ⊎ ((row : User) × (find u.user_id (users u.tenant_id) ≡ some row)
                    × (row.mfa_enabled ≡ true))))
  unfolding require_roles
  require_roles_granted allowed u v e =
      elim (Bool-cases (any (λ r. any (str_eq r) u.roles) allowed)) [
        | inr denied ↦ absurd (granted≢refused (sym (rw (denied, require_roles) at e)))
        | inl agreed ↦
            elim (Auth-cases
              (assert_mfa_enrolled uuid settings users u.tenant_id u.user_id u.roles)) [
                | inr (x, e1) ↦ absurd (granted≢refused (sym (rw (agreed, e1, require_roles) at e)))
                | inl (t, e1) ↦ (
                  sym (granted-injective (rw (agreed, e1, require_roles) at e)),
                  agreed,
                  enrolled u.tenant_id u.user_id u.roles e1,
                )
              ]
      ]
