-- ===== src/Access/Invitations/Acceptance.antt =====
-- An invitation of src/orkio_v2/services/invitations.py from its creation to its acceptance.
use efata_777_backend_premiu.Prelude.{
  ℕ, String, ◌≡◌, refl, true, false, Bool-cases, inl, inr, Option, none, some, List, str_eq,
  eq_refl, arith, leb, any, any-append, find, find-modify_first_self, modify_first,
}
use efata_777_backend_premiu.Prelude.Http.{Outcome, returned, raised, crashed}
use efata_777_backend_premiu.Access.Principal.{Principal}
use efata_777_backend_premiu.Access.Invitations.{
  ThreadInvitation, ThreadParticipant, Threads, InviteSettings, hash, takes_part, has_hash,
  accepted, guest, join, is_invited, accept_found, accept_invitation, committed, accept_route,
}

-- What an acceptance tells: the invitation was open to the principal, who takes part from now on; and it is spent.
pub record IsAccepted (settings : InviteSettings) (now : ℕ) (token : String) (p : Principal)
    (db db' : Threads) : Type 0 where
  pub invitation : ThreadInvitation
  pub found : find (has_hash (hash settings token)) db.invitations ≡ some invitation
  pub pending : str_eq invitation.status "pending" ≡ true
  pub in_time : leb invitation.expires_at now ≡ false
  pub invited : is_invited p invitation ≡ true
  pub same_tenant : str_eq p.tenant_id invitation.tenant_id ≡ true
  pub takes_part_now : any (takes_part invitation.thread_id p.user_id) db'.participants ≡ true
  pub spent :
      (later : ℕ) (q : Principal)
      → accept_route settings later token q db' ≡ (raised "INVITATION_NOT_AVAILABLE" 409, db')

join-takes_part :
    (p : Principal) (i : ThreadInvitation) (rows : List ThreadParticipant)
    → any (takes_part i.thread_id p.user_id) (join p i rows) ≡ true
unfolding join guest
join-takes_part p i rows = elim (Bool-cases (any (takes_part i.thread_id p.user_id) rows)) [
  | inl e ↦ rw (e, e) refl
  | inr e ↦ rw e (
      any-append (takes_part i.thread_id p.user_id) rows (guest p i)
        (ground (arith, eq_refl i.thread_id, eq_refl p.user_id)))
]

not_pending :
    (settings : InviteSettings) (now : ℕ) (token : String) (p : Principal) (db : Threads)
    (i : ThreadInvitation)
    → find (has_hash (hash settings token)) db.invitations ≡ some i
    → str_eq i.status "pending" ≡ false
    → accept_route settings now token p db ≡ (raised "INVITATION_NOT_AVAILABLE" 409, db)
unfolding accept_route accept_invitation accept_found
not_pending settings now token p db i found closed = rw (found, closed) refl

-- What an acceptance needs is enough.
acceptable :
    (settings : InviteSettings) (now : ℕ) (token : String) (p : Principal) (db : Threads)
    (i : ThreadInvitation)
    → find (has_hash (hash settings token)) db.invitations ≡ some i
    → str_eq i.status "pending" ≡ true
    → leb i.expires_at now ≡ false
    → is_invited p i ≡ true
    → str_eq p.tenant_id i.tenant_id ≡ true
    → accept_route settings now token p db ≡ (
      returned (accepted now p i),
      record {
        participants = join p i db.participants;
        invitations = modify_first (has_hash (hash settings token)) (accepted now p) db.invitations;
      },
    )
unfolding accept_route accept_invitation accept_found
acceptable settings now token p db i found pending in_time invited tenant =
    rw (found, pending, in_time, invited, tenant) refl

accept_found-cases :
    (digest : String) (now : ℕ) (p : Principal) (o : Option ThreadInvitation) (db : Threads)
    (r : ThreadInvitation)
    → (accept_found digest now p o db).0 ≡ returned r
    → (i : ThreadInvitation) × (o ≡ some i)
      × (str_eq i.status "pending" ≡ true)
      × (leb i.expires_at now ≡ false)
      × (is_invited p i ≡ true)
      × (str_eq p.tenant_id i.tenant_id ≡ true)
unfolding accept_found
accept_found-cases digest now p none db r h = cc h
accept_found-cases digest now p (some i) db r h = elim (Bool-cases (str_eq i.status "pending")) [
  | inr a ↦ cc (rw a at h)
  | inl a ↦ elim (Bool-cases (leb i.expires_at now)) [
    | inl b ↦ cc (rw (a, b) at h)
    | inr b ↦ elim (Bool-cases (is_invited p i)) [
      | inr c ↦ cc (rw (a, b, c) at h)
      | inl c ↦ elim (Bool-cases (str_eq p.tenant_id i.tenant_id)) [
        | inr d ↦ cc (rw (a, b, c, d) at h)
        | inl d ↦ (i, refl, a, b, c, d)
      ]
    ]
  ]
]

route_returned :
    (o : Outcome ThreadInvitation) (db' db : Threads) (r : ThreadInvitation)
    → (committed o db' db).0 ≡ returned r
    → o ≡ returned r
route_returned (returned i) db' db r h = h
route_returned (raised code status) db' db r h = cc h
route_returned crashed db' db r h = cc h

accepted_by_route :
    (settings : InviteSettings) (now : ℕ) (token : String) (p : Principal) (db : Threads)
    (r : ThreadInvitation)
    → (accept_route settings now token p db).0 ≡ returned r
    → (accept_found
        (hash settings token)
        now
        p
        (find (has_hash (hash settings token)) db.invitations)
        db).0
      ≡ returned r
unfolding accept_route accept_invitation
accepted_by_route settings now token p db r h =
    let reply =
      accept_found (hash settings token) now p
        (find (has_hash (hash settings token)) db.invitations) db in
    route_returned reply.0 reply.1 db r h

-- Whoever accepts an invitation has a token whose invitation is pending, not expired, and for the principal's email and tenant; from then on the thread has a participant row of the principal, and nobody accepts with the same token again, which is refused without a change.
pub accept_route-IsAccepted :
    (settings : InviteSettings) (now : ℕ) (token : String) (p : Principal) (db : Threads)
    (r : ThreadInvitation)
    → (accept_route settings now token p db).0 ≡ returned r
    → IsAccepted settings now token p db (accept_route settings now token p db).1
accept_route-IsAccepted settings now token p db r h =
    let q = has_hash (hash settings token) in
    let (i, found, pending, in_time, invited, tenant) =
      accept_found-cases (hash settings token) now p (find q db.invitations) db r
        (accepted_by_route settings now token p db r h) in
    rw (acceptable settings now token p db i found pending in_time invited tenant) (record {
      invitation = i;
      found = found;
      pending = pending;
      in_time = in_time;
      invited = invited;
      same_tenant = tenant;
      takes_part_now = join-takes_part p i db.participants;
      spent = λ later other.
          not_pending settings later token other
            (record {
              participants = join p i db.participants;
              invitations = modify_first q (accepted now p) db.invitations;
            })
            (accepted now p i)
            (rw (find-modify_first_self q (accepted now p) db.invitations (λ x e. e), found) refl)
            refl;
    })
