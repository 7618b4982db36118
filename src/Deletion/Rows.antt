-- ===== src/Deletion/Rows.antt =====
-- The rest of an account as backend/app/services/account_deletion.py erases it: the columns of
-- backend/app/models/user.py for signing in, the credentials and capabilities, the albums and their
-- members and invites; and the state that a deletion works on.
use drivebound_storage.Base.{ℕ, Bool, Option, List, Text}
use drivebound_storage.Catalog.{Db}
use drivebound_storage.Deletion.Jobs.{Job}

-- the other columns of `User`
pub record Login : Type 0 where
  pub user_id : ℕ
  pub password_hash : Text
  pub password_enabled : Bool
  pub password_set_at : Option ℕ
  pub display_name : Option Text
  pub onboarding_completed_at : Option ℕ
  pub totp_secret_encrypted : Option Text
  pub totp_enabled_at : Option ℕ
  pub totp_last_used_step : Option ℕ
  pub pending_totp_secret_encrypted : Option Text
  pub pending_totp_expires_at : Option ℕ
  pub pending_totp_session_id : Option ℕ

-- the tables whose rows a deletion removes by their `user_id`
pub data GrantKind : Type 0 where
  share_link account_token webauthn_challenge passkey_credential mfa_recovery_code : GrantKind
  external_identity device node_pairing_code paired_node auth_session : GrantKind

-- a row of one of them
pub record Grant : Type 0 where
  pub kind : GrantKind
  pub user_id : ℕ

pub record Album : Type 0 where
  pub id : ℕ
  pub user_id : ℕ

-- `AlbumMember`
pub record Member : Type 0 where
  pub album_id : ℕ
  pub user_id : ℕ
  pub invited_by : Option ℕ

-- `AlbumInvite`
pub record Invite : Type 0 where
  pub album_id : ℕ
  pub invited_by : ℕ
  pub email : Text

pub record Server : Type 0 where
  pub db : Db
  pub jobs : List Job
  pub logins : List Login
  pub grants : List Grant
  pub albums : List Album
  pub members : List Member
  pub invites : List Invite
