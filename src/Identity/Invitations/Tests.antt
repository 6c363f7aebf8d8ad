-- ===== src/Identity/Invitations/Tests.antt =====
-- The theorems on invitations at concrete inputs.
use omni_crm_backend.Prelude.{◌≡◌, refl, some, [], arith, ok, err, first, update, days, count}
use omni_crm_backend.Identity.{User, Role, Invitation, InvitationStatus, Store}
use omni_crm_backend.Identity.Sample.{start}
use omni_crm_backend.Identity.Sessions.{text_length}
use omni_crm_backend.Identity.Invitations.{
  InvitationLibrary, InvitationIds, InvitationAcceptance, create_invitation, accept_invitation,
  get_pending_invitation, invalid_invitation, set_status, new_invitation, invited_user,
  joined_member,
}
use omni_crm_backend.Identity.Invitations.Pending.{
  IsSingleInvitation, created, Step-IsSingleInvitation,
}
use omni_crm_backend.Identity.Invitations.Accepted.{Answered, accept_sound, accept-accept}

abbrev library : InvitationLibrary
library = record {
  sha256 = λ s. s;
  hash_password = λ s. s;
  normalize_email = λ s. s;
  strip = λ s. s;
}

abbrev ids : InvitationIds
ids = record { invitation = 11; mail = 12; user = 13; membership = 14 }

abbrev invited : Store
invited =
    (create_invitation library 10 ids 9 1 "luz@example.com" Role.supervisor (days 7) "tok"
      "http://x" start).1

none_waits : IsSingleInvitation []
unfolding count
none_waits t e = omega arith

Step-IsSingleInvitation_example : IsSingleInvitation invited.invitations
Step-IsSingleInvitation_example =
    Step-IsSingleInvitation library start invited
      (created 10 ids 9 1 "luz@example.com" Role.supervisor (days 7) "tok" "http://x") none_waits

abbrev invitation : Invitation
invitation = new_invitation library 10 11 9 "luz@example.com" Role.supervisor "tok" 1 (days 7)

abbrev luz : User
luz = invited_user library 20 13 "Luz" "luz@example.com" "correcthorse"

abbrev acceptance : InvitationAcceptance
acceptance = record {
  invitation = set_status InvitationStatus.accepted invitation;
  user = luz;
  membership = joined_member library 20 14 invitation luz;
}

answered_once :
    (accept_invitation library 20 ids "tok" (some "Luz") (some "correcthorse") invited).0
    ≡ ok acceptance
unfolding accept_invitation create_invitation get_pending_invitation first update text_length
answered_once = refl

accept_sound_example :
    Answered library 20 ids "tok" invited acceptance
      (accept_invitation library 20 ids "tok" (some "Luz") (some "correcthorse") invited).1
accept_sound_example =
    accept_sound library 20 ids "tok" (some "Luz") (some "correcthorse") invited {a = acceptance}
      answered_once

accept-accept_example :
    accept_invitation library 30 ids "tok"
      (some "Eva")
      (some "correcthorse")
      (accept_invitation library 20 ids "tok" (some "Luz") (some "correcthorse") invited).1
    ≡ (
      err invalid_invitation,
      (accept_invitation library 20 ids "tok" (some "Luz") (some "correcthorse") invited).1,
    )
accept-accept_example =
    accept-accept library 20 ids "tok" (some "Luz") (some "correcthorse") invited 30 ids
      (some "Eva") (some "correcthorse") {a = acceptance} answered_once
