-- ===== src/Permissions/Decisions.antt =====
-- service/runtime_permissions.py: decisions of users, over sequences of events.
use zj_cyber_workbench.Prelude.{
  string_eq, ◌==◌, nat_eq, not, ◌&&◌, ◌||◌, filter, any, first_where, update_where, ℕ, ◌+◌, ◌≡◌,
  refl, Bool, true, false, Option, none, some, List, [], ◌∷◌, ◌++◌, arith,
}
use zj_cyber_workbench.Permissions.{
  PermissionMode, PermissionDecision, pending, PermissionRequest, PendingPermission, Permissions,
  Answer, granted, is_full_access, require_permission, has_request_id, get_pending, pop_pending,
  answer_decision, resume_permission, with_decision, decide_found, decide_pending, decide,
  update_mode, clear_rules,
}

pub data Event : Type 0 where
  ask : PermissionRequest → Event
  resume : (request_id : ℕ) → (timeout : Bool) → Event
  decision : (request_id requester_id : ℕ) → PermissionDecision → (now : ℕ) → Event
  switch : PermissionMode → Event
  clear : Event

abbrev pub resume_if : Option PendingPermission → (timeout : Bool) → Permissions → Permissions
resume_if none timeout st = st
resume_if (some p) timeout st = (resume_permission p timeout st).1

unfoldable pub happen : Event → Permissions → Permissions
happen (ask request) st = (require_permission request st).1
happen (resume request_id timeout) st = resume_if (get_pending request_id st) timeout st
happen (decision request_id requester_id d now) st = (decide request_id requester_id d now st).1
happen (switch mode) st = update_mode mode st
happen clear st = (clear_rules st).1

unfoldable pub happen_all : List Event → Permissions → Permissions
happen_all [] st = st
happen_all (event ∷ events) st = happen_all events (happen event st)

abbrev pub is_granted : Answer → Bool
is_granted (granted _) = true
is_granted _ = false

abbrev is_decided : Option PermissionDecision → Bool
is_decided none = false
is_decided (some _) = true

-- The event is no decision of `user` on the request `k`, and no switch to full access; a request
-- with the id `k` is of `user`.
abbrev pub is_silent : (k user : ℕ) → Event → Bool
is_silent k user (ask request) = not (request.id == k) || request.context.user_id == user
is_silent k user (decision request_id requester_id d now) =
    not (request_id == k && requester_id == user)
is_silent k user (switch mode) = not (is_full_access mode)
is_silent k user _ = true

abbrev pub all_silent : (k user : ℕ) → List Event → Bool
all_silent k user [] = true
all_silent k user (event ∷ events) = is_silent k user event && all_silent k user events

abbrev pub is_settled : (k user : ℕ) → PendingPermission → Bool
is_settled k user p =
    has_request_id k p && (is_decided p.decision || not (p.request.context.user_id == user))

-- Normal mode, and `k` is at most an undecided request of `user`.
pub record IsOpen (k user : ℕ) (st : Permissions) : Type 0 where
  pub normal_mode : is_full_access st.mode ≡ false
  pub unsettled : any (is_settled k user) st.waiting ≡ false

module _ {A : Type 0} (q : A → Bool) where
  any-filter : (p : A → Bool) (rows : List A) → any q rows ≡ false → any q (filter p rows) ≡ false
  unfolding any filter
  any-filter p [] h = h
  any-filter p (row ∷ rows) h = ground (arith, h, any-filter p rows)

  any-append :
      (rows : List A) (row : A)
      → any q rows ≡ false
      → q row ≡ false
      → any q (rows ++ (row ∷ [])) ≡ false
  unfolding any
  any-append [] row h k = ground (arith, k)
  any-append (r ∷ rows) row h k = ground (arith, h, any-append rows row)

  any-update_where :
      (p : A → Bool) (f : A → A) (rows : List A)
      → ((row : A) → p row ≡ true → q (f row) ≡ false)
      → any q rows ≡ false
      → any q (update_where p f rows) ≡ false
  unfolding any update_where
  any-update_where p f [] k h = h
  any-update_where p f (row ∷ rows) k h = ground (arith, h, k row, any-update_where p f rows k)

  first_where-unlike :
      (p : A → Bool) (rows : List A) (row : A)
      → any q rows ≡ false
      → first_where p rows ≡ some row
      → (p row ≡ true) × (q row ≡ false)
  unfolding any first_where
  first_where-unlike p [] row h e = ground (arith, e)
  first_where-unlike p (r ∷ rows) row h e = ground (arith, h, e, first_where-unlike p rows row)

module _ (k user : ℕ) where
  resume_if-IsOpen :
      (found : Option PendingPermission) (timeout : Bool) (st : Permissions)
      → IsOpen k user st
      → IsOpen k user (resume_if found timeout st)
  unfolding resume_permission answer_decision pop_pending
  resume_if-IsOpen none timeout st h = h
  resume_if-IsOpen (some p) timeout st h = record {
    normal_mode = ground (arith, h.normal_mode);
    unsettled = ground (
      arith,
      any-filter (is_settled k user) (λ r. not (has_request_id p.request.id r)) st.waiting
          h.unsettled,
    );
  }

  decide_pending-IsOpen :
      (found : Option PendingPermission) (request_id requester_id : ℕ) (d : PermissionDecision)
      (now : ℕ) (st : Permissions)
      → get_pending request_id st ≡ found
      → is_silent k user (decision request_id requester_id d now) ≡ true
      → IsOpen k user st
      → IsOpen k user (decide_pending found requester_id d now st).1
  unfolding decide_pending decide_found
  decide_pending-IsOpen none request_id requester_id d now st e s h = h
  decide_pending-IsOpen (some p) request_id requester_id d now st e s h =
      let found =
        first_where-unlike (is_settled k user) (has_request_id request_id) st.waiting p h.unsettled
          e in
      record {
        normal_mode = ground (arith, h.normal_mode);
        unsettled = ground (
          arith,
          s,
          found.0,
          found.1,
          h.unsettled,
          any-update_where (is_settled k user) (has_request_id p.request.id) (with_decision d)
              st.waiting,
        );
      }

  happen-IsOpen :
      (event : Event) (st : Permissions)
      → is_silent k user event ≡ true
      → IsOpen k user st
      → IsOpen k user (happen event st)
  unfolding happen require_permission decide update_mode clear_rules
  happen-IsOpen (ask request) st s h = record {
    normal_mode = ground (arith, h.normal_mode);
    unsettled = ground (
      arith,
      s,
      h.unsettled,
      any-append (is_settled k user) st.waiting
          (record {
            request = record request {
              status = pending;
              expires_at = request.created_at + st.approval_timeout_seconds;
            };
            decision = none;
          })
          h.unsettled (ground (arith, s)),
    );
  }
  happen-IsOpen (resume request_id timeout) st s h = resume_if-IsOpen _ timeout st h
  happen-IsOpen (decision request_id requester_id d now) st s h =
      decide_pending-IsOpen _ request_id requester_id d now st refl s h
  happen-IsOpen (switch mode) st s h = record {
    normal_mode = ground (arith, s);
    unsettled = ground (arith, s, h.unsettled);
  }
  happen-IsOpen clear st s h = record { normal_mode = h.normal_mode; unsettled = h.unsettled }

  happen_all-IsOpen :
      (events : List Event) (st : Permissions)
      → all_silent k user events ≡ true
      → IsOpen k user st
      → IsOpen k user (happen_all events st)
  unfolding happen_all
  happen_all-IsOpen [] st s h = h
  happen_all-IsOpen (event ∷ events) st s h =
      happen_all-IsOpen events (happen event st) (ground (arith, s))
        (happen-IsOpen event st (ground (arith, s)) h)

-- No operation is permitted without a decision: while the user of a request makes none on it, and
-- nobody switches to full access, the request is not granted, whatever else happens and however
-- its wait ends. Requests with its id are of that user.
pub resume_permission-undecided :
    (k user : ℕ) (events : List Event) (timeout : Bool) (st : Permissions) (p : PendingPermission)
    → IsOpen k user st
    → all_silent k user events ≡ true
    → get_pending k (happen_all events st) ≡ some p
    → is_granted (resume_permission p timeout (happen_all events st)).0 ≡ false
unfolding resume_permission answer_decision
resume_permission-undecided k user events timeout st p h s e =
    let open_after = happen_all-IsOpen k user events st s h in
    let found =
      first_where-unlike (is_settled k user) (has_request_id k) _ p open_after.unsettled e in
    ground (arith, open_after.normal_mode, found.0, found.1)
