-- ===== src/Auth/Scim.antt =====
-- backend/app/services/auth/scim_service.py, over the users, the API keys and the refresh sessions.
-- The sessions of the identity provider are not modelled: how many of them were revoked is an argument.
pub mod Suspension
use text.Mathlib.Text.{◌==◌ as str_eq}
use open_civic.Common.{
  ℕ, suc, ◌+◌, ◌≡◌, String, Bool, true, false, not, ◌&&◌, ◌||◌, Option, none, some, List, [], ◌∷◌,
  ◌++◌, leb, ◌==◌, if◌then◌else◌, get_or, or_else, is_some, length,
}
use open_civic.Common.Text.{is_empty}
use open_civic.Common.Table.{Table, find, insert, update, update_where, select}
use open_civic.Common.Order.{order_by}
use open_civic.Session
use open_civic.Session.{User, UserStatus, Event, user_provisioned, user_suspended, system, Payload}
use open_civic.Auth.ApiKeys.{ApiKey, KeyStore}
use open_civic.Auth.SessionIndex.{Index, revoke_keycloak_sessions_for_user}
use open_civic.Auth.Refresh.{Keys, revoke_user_sessions}

-- What the service of one tenant writes to.
pub record Directory : Type 0 where
  pub users : Table User
  pub events : List Event  -- the newest last
  pub keys : KeyStore
  pub sessions : Keys
  pub index : Index

pub data ScimError : Type 0 where
  user_conflict not_found no_supported_fields : ScimError

pub data Scim (A : Type 0) : Type 0 where
  done : A → Scim A
  failed : ScimError → Scim A

newest : ℕ × User → ℕ × User → Bool
newest (i, x) (j, y) = leb y.created_at x.created_at

present : User → Bool
present u = not (is_some u.deleted_at)

-- `list_users`
unfoldable pub list_users : Option String → Directory → Table User
unfolding newest present
list_users filter_email d =
    let wanted : User → Bool =
      λ u. elim filter_email [ none ↦ true | some e ↦ is_empty e || str_eq u.email e ] in
    order_by newest (select (λ k u. present u && wanted u) d.users)

has_email : String → Table User → Bool
has_email email [] = false
has_email email ((k, u) ∷ t) = str_eq u.email email || has_email email t

or_viewer : Option (List String) → List String
or_viewer none = "viewer" ∷ []
or_viewer (some []) = "viewer" ∷ []
or_viewer (some (r ∷ rs)) = r ∷ rs

event : Session.EventType → ℕ → Payload → Event
event type id payload = record {
  event_type = type;
  aggregate_id = id;
  aggregate_type = "user";
  actor_id = none;
  actor_type = system;
  payload = payload;
}

-- `create_user`
unfoldable pub create_user :
    ℕ
    → ℕ
    → String
    → String
    → Option String
    → Option (List String)
    → Directory
    → Scim User × Directory
unfolding has_email or_viewer event
create_user now id email name scim_external_id roles d =
    if has_email email d.users
    then (failed user_conflict, d)
    else (let u : User = record {
      email = email;
      name = name;
      roles = or_viewer roles;
      status = Session.active;
      mfa_enabled = false;
      scim_external_id = scim_external_id;
      created_at = now;
      deleted_at = none;
    } in
        (
          done u,
          record d {
            users = insert id u d.users;
            events =
                d.events
                ++ (event user_provisioned id (Payload.provisioned email scim_external_id) ∷ []);
          },
        ))

-- `get_user`
unfoldable pub get_user : ℕ → Directory → Scim User
unfolding present
get_user id d = elim (find id d.users) [
  | none ↦ failed not_found
  | some u ↦ if present u then done u else failed not_found
]

status_of : Option Bool → UserStatus → UserStatus
status_of none s = s
status_of (some true) s = Session.active
status_of (some false) s = Session.suspended

-- `patch_user`
unfoldable pub patch_user :
    ℕ → Option Bool → Option String → Option String → Directory → Scim (Unit {0}) × Directory
unfolding status_of
patch_user id active name scim_external_id d =
    if not (is_some active || is_some name || is_some scim_external_id)
    then (failed no_supported_fields, d)
    else (
      done tt,
      record d {
        users =
            update id
              (λ u. record u {
                status = status_of active u.status;
                name = get_or name u.name;
                scim_external_id = or_else scim_external_id u.scim_external_id;
              })
              d.users;
      },
    )

unfoldable pub is_live_key_of : ℕ → ApiKey → Bool
is_live_key_of user_id r = r.owner_id == user_id && not (is_some r.revoked_at)

-- `revoke_api_keys_for_user`: how many it revoked, and the keys.
unfoldable pub revoke_api_keys_for_user : ℕ → ℕ → KeyStore → ℕ × KeyStore
unfolding is_live_key_of
revoke_api_keys_for_user now user_id s = (
  length (select (λ k r. is_live_key_of user_id r) s.keys),
  record s {
    keys =
        update_where (λ k r. is_live_key_of user_id r) (λ r. record r { revoked_at = some now })
          s.keys;
  },
)

-- `suspend_user`
unfoldable pub suspend_user : ℕ → ℕ → User → String → Directory → Directory
unfolding revoke_api_keys_for_user revoke_keycloak_sessions_for_user event
suspend_user now id u reason d =
    let (revoked_keys, keys) = revoke_api_keys_for_user now id d.keys in
    let (revoked_sessions, sessions) = revoke_user_sessions now id d.sessions in
    let (revoked_keycloak, index) = revoke_keycloak_sessions_for_user now id d.index in
    record {
      users = update id (λ v. record v { status = Session.suspended }) d.users;
      events =
          d.events
          ++ (event user_suspended id
                (Payload.suspended reason u.email revoked_keys revoked_sessions revoked_keycloak)
              ∷ []);
      keys = keys;
      sessions = sessions;
      index = index;
    }
