-- ===== src/Access/Invitations.antt =====
-- src/orkio_v2/services/invitations.py: invitations to a thread.
pub mod Acceptance
use Prim.Native.String.{◌++◌ as ◌+++◌}
use efata_777_backend_premiu.Prelude.{
  ℕ, ◌+◌, ◌*◌, String, Bool, true, false, not, ◌&&◌, ◌||◌, Option, none, some, List, [], ◌∷◌, ◌++◌,
  str_eq, leb, any, find, modify_first, if◌then◌else◌,
}
use efata_777_backend_premiu.Prelude.Text.{lower, take_text, truthy, text_or}
use efata_777_backend_premiu.Prelude.Http.{Outcome, returned, raised, crashed}
use efata_777_backend_premiu.Access.Principal.{Principal}

pub record ThreadParticipant : Type 0 where
  pub tenant_id : String
  pub thread_id : String
  pub user_id : String
  pub thread_role : String
  pub membership_type : String
  pub history_access : String
  pub can_view_attachments : Bool
  pub can_download_artifacts : Bool
  pub can_upload_files : Bool
  pub can_generate_artifacts : Bool
  pub active : Bool

pub record ThreadInvitation : Type 0 where
  pub tenant_id : String
  pub thread_id : String
  pub invited_email : String
  pub token_hash : String
  pub token_prefix : String
  pub thread_role : String
  pub history_access : String
  pub can_view_attachments : Bool
  pub can_download_artifacts : Bool
  pub can_upload_files : Bool
  pub can_generate_artifacts : Bool
  pub status : String
  pub created_by : String
  pub expires_at : ℕ
  pub accepted_at : Option ℕ
  pub accepted_by : Option String

pub record InvitationCreate : Type 0 where
  pub email : String
  pub role : String
  pub history_access : String
  pub can_view_attachments : Bool
  pub can_download_artifacts : Bool
  pub can_upload_files : Bool
  pub can_generate_artifacts : Bool

-- The two tables.
pub record Threads : Type 0 where
  pub participants : List ThreadParticipant
  pub invitations : List ThreadInvitation

-- The secret and the life time of an invitation, with the digest of the standard library.
pub record InviteSettings : Type 0 where
  pub invitation_secret : String
  pub invitation_ttl_hours : ℕ
  pub sha256 : String → String

-- `_hash`.
unfoldable pub hash : InviteSettings → String → String
hash settings token = settings.sha256 (settings.invitation_secret +++ token)

abbrev pub takes_part : String → String → ThreadParticipant → Bool
takes_part thread_id user_id x = str_eq x.thread_id thread_id && str_eq x.user_id user_id

-- A participant who may invite.
abbrev pub may_invite : Option ThreadParticipant → Bool
may_invite none = false
may_invite (some x) = str_eq x.thread_role "owner" || str_eq x.thread_role "moderator"

unfoldable pub new_invitation :
    InviteSettings → ℕ → String → String → InvitationCreate → Principal → ThreadInvitation
unfolding lower take_text
new_invitation settings now token thread_id payload principal = record {
  tenant_id = principal.tenant_id;
  thread_id = thread_id;
  invited_email = lower payload.email;
  token_hash = hash settings token;
  token_prefix = take_text 8 token;
  thread_role = payload.role;
  history_access = payload.history_access;
  can_view_attachments = payload.can_view_attachments;
  can_download_artifacts = payload.can_download_artifacts;
  can_upload_files = payload.can_upload_files;
  can_generate_artifacts = payload.can_generate_artifacts;
  status = "pending";
  created_by = principal.user_id;
  expires_at = now + settings.invitation_ttl_hours * 3600;
  accepted_at = none;
  accepted_by = none;
}

-- The token is the drawn one.
unfoldable pub create_invitation :
    InviteSettings
    → ℕ
    → String
    → String
    → InvitationCreate
    → Principal
    → Threads
    → Outcome ThreadInvitation × Threads
create_invitation settings now token thread_id payload principal db =
    let invitation = new_invitation settings now token thread_id payload principal in
    if may_invite (find (λ x. takes_part thread_id principal.user_id x && x.active) db.participants)
    then (returned invitation, record db { invitations = db.invitations ++ invitation ∷ [] })
    else (raised "THREAD_INVITE_PERMISSION_REQUIRED" 403, db)

abbrev pub has_hash : String → ThreadInvitation → Bool
has_hash digest i = str_eq i.token_hash digest

abbrev pub expired : ThreadInvitation → ThreadInvitation
expired i = record i { status = "expired" }

abbrev pub accepted : ℕ → Principal → ThreadInvitation → ThreadInvitation
accepted now principal i = record i {
  status = "accepted";
  accepted_at = some now;
  accepted_by = some principal.user_id;
}

unfoldable pub guest : Principal → ThreadInvitation → ThreadParticipant
guest principal i = record {
  tenant_id = i.tenant_id;
  thread_id = i.thread_id;
  user_id = principal.user_id;
  thread_role = i.thread_role;
  membership_type = "external_guest";
  history_access = i.history_access;
  can_view_attachments = i.can_view_attachments;
  can_download_artifacts = i.can_download_artifacts;
  can_upload_files = i.can_upload_files;
  can_generate_artifacts = i.can_generate_artifacts;
  active = true;
}

-- `db.add(ThreadParticipant(...))`, unless the user takes part already.
unfoldable pub join : Principal → ThreadInvitation → List ThreadParticipant → List ThreadParticipant
join principal i rows =
    if any (takes_part i.thread_id principal.user_id) rows
    then rows
    else rows ++ guest principal i ∷ []

abbrev pub is_invited : Principal → ThreadInvitation → Bool
is_invited principal i =
    truthy principal.email && str_eq (lower (text_or principal.email "")) i.invited_email

unfoldable pub accept_found :
    String → ℕ → Principal → Option ThreadInvitation → Threads → Outcome ThreadInvitation × Threads
unfolding join
accept_found digest now principal none db = (raised "INVITATION_NOT_FOUND" 404, db)
accept_found digest now principal (some i) db =
    if not (str_eq i.status "pending")
    then (raised "INVITATION_NOT_AVAILABLE" 409, db)
    else if leb i.expires_at now
    then (
      raised "INVITATION_EXPIRED" 410,
      record db { invitations = modify_first (has_hash digest) expired db.invitations },
    )
    else if not (is_invited principal i)
    then (raised "INVITATION_EMAIL_MISMATCH" 403, db)
    else if not (str_eq principal.tenant_id i.tenant_id)
    then (raised "INVITATION_TENANT_MISMATCH" 403, db)
    else (
      returned (accepted now principal i),
      record {
        participants = join principal i db.participants;
        invitations = modify_first (has_hash digest) (accepted now principal) db.invitations;
      },
    )

unfoldable pub accept_invitation :
    InviteSettings → ℕ → String → Principal → Threads → Outcome ThreadInvitation × Threads
accept_invitation settings now token principal db =
    accept_found (hash settings token) now principal
      (find (has_hash (hash settings token)) db.invitations) db

abbrev pub committed :
    Outcome ThreadInvitation → Threads → Threads → Outcome ThreadInvitation × Threads
committed (returned i) db' db = (returned i, db')
committed (raised code status) db' db = (raised code status, db)
committed crashed db' db = (crashed, db)

-- The route of src/orkio_v2/routes.py, which only commits what is returned.
unfoldable pub accept_route :
    InviteSettings → ℕ → String → Principal → Threads → Outcome ThreadInvitation × Threads
accept_route settings now token principal db =
    let (reply, db') = accept_invitation settings now token principal db in committed reply db' db
