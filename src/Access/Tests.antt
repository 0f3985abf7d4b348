-- ===== src/Access/Tests.antt =====
-- One owner and one guest, and the theorems on access at them.
use efata_777_backend_premiu.Prelude.{refl, true, false, none, some, [], ◌∷◌, any, find}
use efata_777_backend_premiu.Prelude.Text.{strip, lower}
use efata_777_backend_premiu.Prelude.Http.{◌>>=◌}
use efata_777_backend_premiu.Services.Authorization.{
  Directory, resolve_provisioned_roles, of_membership, with_owner, roles_of, add_role,
}
use efata_777_backend_premiu.Access.Principal.{Principal}
use efata_777_backend_premiu.Access.Identity.{
  require_provisioned_superadmin, require_provisioned_principal,
}
use efata_777_backend_premiu.Access.Identity.Provisioned.{IsProvisioned, superadmin-IsProvisioned}
use efata_777_backend_premiu.Access.Invitations.{
  ThreadParticipant, InvitationCreate, Threads, InviteSettings, hash, new_invitation,
  create_invitation, accept_route, accept_invitation, accept_found, accepted,
}
use efata_777_backend_premiu.Access.Invitations.Acceptance.{IsAccepted, accept_route-IsAccepted}

abbrev settings : InviteSettings
settings = record { invitation_secret = "s"; invitation_ttl_hours = 1; sha256 = λ t. t }

abbrev host : Principal
host = record {
  user_id = "h";
  tenant_id = "t";
  roles = [];
  email = some "h@x";
  external_subject = some "sub";
}

abbrev visitor : Principal
visitor = record host { user_id = "v"; email = some "V@x" }

abbrev owner_row : ThreadParticipant
owner_row = record {
  tenant_id = "t";
  thread_id = "th";
  user_id = "h";
  thread_role = "owner";
  membership_type = "tenant_member";
  history_access = "full_thread";
  can_view_attachments = true;
  can_download_artifacts = true;
  can_upload_files = true;
  can_generate_artifacts = true;
  active = true;
}

abbrev threads : Threads
threads = record { participants = owner_row ∷ []; invitations = [] }

abbrev offer : InvitationCreate
offer = record {
  email = "v@X";
  role = "viewer";
  history_access = "from_join";
  can_view_attachments = true;
  can_download_artifacts = false;
  can_upload_files = false;
  can_generate_artifacts = false;
}

abbrev invited : Threads
invited = (create_invitation settings 10 "token" "th" offer host threads).1

accept_route-IsAccepted_example :
    IsAccepted settings 20 "token" visitor invited
      (accept_route settings 20 "token" visitor invited).1
unfolding create_invitation new_invitation accept_route accept_invitation accept_found find any
    lower hash
accept_route-IsAccepted_example =
    accept_route-IsAccepted settings 20 "token" visitor invited
      (accepted 20 visitor (new_invitation settings 10 "token" "th" offer host)) refl

abbrev directory : Directory
directory = record {
  tenants = record { id = "t" } ∷ [];
  users = record { id = "h"; external_subject = "sub" } ∷ [];
  memberships = record { tenant_id = "t"; user_id = "h"; role = "superadmin"; active = true } ∷ [];
}

superadmin-IsProvisioned_example :
    IsProvisioned directory none host
      (record host { roles = "admin" ∷ "owner" ∷ "superadmin" ∷ [] })
unfolding require_provisioned_superadmin require_provisioned_principal resolve_provisioned_roles
    of_membership with_owner roles_of add_role find any strip ◌>>=◌
superadmin-IsProvisioned_example =
    superadmin-IsProvisioned directory none host
      (record host { roles = "admin" ∷ "owner" ∷ "superadmin" ∷ [] }) refl
