-- ===== src/Identity/Approval/Decision.antt =====
-- What a decision on a device rests on: the binding of the form to the session.
use entra_emulator.Prelude.{
  ℕ, ◌<◌, code, String, ◌≡◌, refl, ap, ◌∙◌, ◌≢◌, ◌⊎◌, inl, inr, not, ◌||◌, Option, none, some,
  arith, ◌==◌, eq_iff, Bool-cases, Option-cases, update,
}
use entra_emulator.Store.Types.{User, Session, DeviceCode, Store, Result-cases, ok}
use entra_emulator.Store.Devices.{
  is_pending, decide, get_device_code_by_user_code, set_device_code_decision,
}
use entra_emulator.Identity.Sessions.{current_session}
use entra_emulator.Identity.Approval.{
  ApprovalState, load_pending_device_code, decide_row, device_decide,
}

-- The form's state was signed for a device and for the session of the request, which is live and of
-- an enabled user; the code's row can still be decided; and only this row's status and user change,
-- as the button says.
pub record IsDecided (now : ℕ) (cookie decision : String) (state : Option ApprovalState)
    (s t : Store) : Type 0 where
  pub st : ApprovalState
  pub sess : Session
  pub user : User
  pub row : DeviceCode
  pub signed : state ≡ some st
  pub kind : st.kind ≡ "device"
  pub session : current_session s now cookie ≡ some (sess, user)
  pub bound : sess.id ≡ st.sid
  pub found : get_device_code_by_user_code s st.user_code ≡ ok row
  pub in_time : now < row.expires_at
  pub undecided : (row.status ≢ "denied") × (row.status ≢ "approved")
  pub effect :
      ((decision ≡ "approve")
        × (t ≡ record s {
          device_codes =
              update (is_pending st.user_code) (decide "approved" user.id) s.device_codes;
        }))
      ⊎ ((decision ≡ "deny")
          × (t ≡ record s {
            device_codes = update (is_pending st.user_code) (decide "denied" "") s.device_codes;
          }))

pending_lem :
    (s : Store) (now : ℕ) (code : String) (row : DeviceCode)
    → load_pending_device_code s now code ≡ ok row
    → (get_device_code_by_user_code s code ≡ ok row)
      × (now < row.expires_at)
      × (row.status ≢ "denied")
      × (row.status ≢ "approved")
unfolding load_pending_device_code
pending_lem s now code row e = elim (Result-cases (get_device_code_by_user_code s code)) [
  | inr (x, missing) ↦ ground arith
  | inl (r, found) ↦
      let k = rw (found, load_pending_device_code) at e in
      let same : r ≡ row = ground arith in
      (
        found ∙ ap ok same,
        ground arith,
        λ z. ground (arith, eq_iff r.status "denied"),
        λ z. ground (arith, eq_iff r.status "approved"),
      )
]

row_effect :
    (decision code : String) (user : User) (s : Store)
    → let t = (decide_row decision code user s).1 in
      (t ≡ s)
      ⊎ (((decision ≡ "approve")
            × (t ≡ record s {
              device_codes = update (is_pending code) (decide "approved" user.id) s.device_codes;
            }))
          ⊎ ((decision ≡ "deny")
              × (t ≡ record s {
                device_codes = update (is_pending code) (decide "denied" "") s.device_codes;
              })))
unfolding set_device_code_decision
row_effect decision code user s = ground (arith, eq_iff decision "approve", eq_iff decision "deny")

-- A decision changes nothing, or it is bound to the session: the form's state was signed for this
-- live session of an enabled user and for a code that is in the table, has not expired and is
-- neither approved nor denied, and the only change is that the pending row of this code is approved
-- by this user, or denied, as the button says.
pub device_decide_lem :
    (now : ℕ) (cookie decision : String) (state : Option ApprovalState) (s : Store)
    → let t = (device_decide now cookie decision state s).1 in
      (t ≡ s) ⊎ IsDecided now cookie decision state s t
unfolding device_decide
device_decide_lem now cookie decision none s = inl refl
device_decide_lem now cookie decision (some st) s =
    elim (Bool-cases (not (st.kind == "device") || st.sid == "")) [
      | inl bad ↦ inl (rw (bad, device_decide) refl)
      | inr fine ↦ elim (Option-cases (current_session s now cookie)) [
        | inl out ↦ inl (ground arith)
        | inr ((sess, user), live) ↦ elim (Bool-cases (sess.id == st.sid)) [
          | inr other ↦ inl (ground arith)
          | inl bound ↦ elim (Result-cases (load_pending_device_code s now st.user_code)) [
            | inr (page, stop) ↦ inl (ground arith)
            | inl (row, pending) ↦
                let there : (device_decide now cookie decision (some st) s).1
                    ≡ (decide_row decision st.user_code user s).1 =
                  rw (fine, live, bound, pending, device_decide) refl in
                let (found, in_time, denied, approved) =
                  pending_lem s now st.user_code row pending in
                elim (row_effect decision st.user_code user s) [
                  | inl same ↦ inl (there ∙ same)
                  | inr effect ↦ inr record {
                    st = st;
                    sess = sess;
                    user = user;
                    row = row;
                    signed = refl;
                    kind = (eq_iff st.kind "device").0 (ground arith);
                    session = live;
                    bound = (eq_iff sess.id st.sid).0 bound;
                    found = found;
                    in_time = in_time;
                    undecided = (denied, approved);
                    effect = ground (arith, effect, there);
                  }
                ]
          ]
        ]
      ]
    ]
