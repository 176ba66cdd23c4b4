-- ===== src/Notifications/Steps/Claiming.antt =====
-- service/agent/notifications.py: which notification a claim takes.
use zj_cyber_workbench.Prelude.{
  if◌then◌else◌, Bool-cases, Option-cases, string_eq, ◌==◌, nat_eq, ◌&&◌, All, filter, any, In,
  All-In, first_where, update_where, count_where, ℕ, ◌≤◌, String, ◌≡◌, refl, sym, ap, subst, ◌≢◌,
  ◌↔◌, ◌⊎◌, inl, inr, Bool, true, false, Option, none, some, [], ◌∷◌, arith,
}
use zj_cyber_workbench.Notifications.{
  NotificationStatus, awaiting, pending, processing, completed, failed, canceled, is_pending,
  AgentNotification,
}
use zj_cyber_workbench.Notifications.Claims.{
  better, first_by_order, start_row, is_pending_row, claim_row, claim_found, is_target,
  is_claimable, claim_next_pending_notification, has_pending_notification,
}
use zj_cyber_workbench.Notifications.Inbox.{Table, has_id, get_row, in_session, given}

-- The primary key: no two rows have the same id.
abbrev pub IsKeyed : Table → Type 0
IsKeyed [] = Unit
IsKeyed (row ∷ table) = All (λ r. r.id ≢ row.id) table × IsKeyed table

-- `row` comes no later than `other` in the order of the query.
pub record Precedes (row other : AgentNotification) : Type 0 where
  pub priority : other.priority ≤ row.priority
  pub age : other.priority ≡ row.priority → row.created_at ≤ other.created_at

better-Precedes :
    (row best : AgentNotification)
    → Precedes (better row (some best)) row × Precedes (better row (some best)) best
unfolding better
better-Precedes row best = (
  record { priority = ground arith; age = ground arith },
  record { priority = ground arith; age = ground arith },
)

Precedes-trans : (a b c : AgentNotification) → Precedes a b → Precedes b c → Precedes a c
Precedes-trans a b c h k = record {
  priority = omega (arith, h.priority, k.priority);
  age = λ e. omega (arith, h.priority, k.priority, h.age, k.age, e);
}

All-Precedes :
    (a b : AgentNotification) (table : Table)
    → Precedes a b
    → All (Precedes b) table
    → All (Precedes a) table
All-Precedes a b [] h k = tt
All-Precedes a b (r ∷ table) h k = (Precedes-trans a b r h k.0, All-Precedes a b table h k.1)

better-cases :
    (row best : AgentNotification)
    → (better row (some best) ≡ row) ⊎ (better row (some best) ≡ best)
unfolding better
better-cases row best = ground arith

-- `row` is in the table, and none of its rows comes before it.
abbrev IsFirst : Table → AgentNotification → Type 0
IsFirst table row = In row table × All (Precedes row) table

Precedes-refl : (row : AgentNotification) → Precedes row row
Precedes-refl row = record { priority = omega arith; age = λ e. omega arith }

better-IsFirst :
    (row best : AgentNotification) (table : Table)
    → IsFirst table best
    → IsFirst (row ∷ table) (better row (some best))
better-IsFirst row best table h =
    let b = better-Precedes row best in
    (
      elim (better-cases row best) [
        | inl e ↦ inl e
        | inr e ↦ inr (subst (λ r. In r table) (sym e) h.0)
      ],
      (b.0, All-Precedes _ best table b.1 h.1),
    )

better-first_by_order-IsFirst :
    (r : AgentNotification) (table : Table) → IsFirst (r ∷ table) (better r (first_by_order table))
unfolding first_by_order better
better-first_by_order-IsFirst r [] = (inl refl, (Precedes-refl r, tt))
better-first_by_order-IsFirst r (next ∷ table) =
    better-IsFirst r _ (next ∷ table) (better-first_by_order-IsFirst next table)

first_by_order-IsFirst :
    (table : Table) (row : AgentNotification) → first_by_order table ≡ some row → IsFirst table row
unfolding first_by_order
first_by_order-IsFirst [] row h = ground (arith, h)
first_by_order-IsFirst (r ∷ table) row h =
    subst (IsFirst (r ∷ table)) (ground (arith, h)) (better-first_by_order-IsFirst r table)

In-filter :
    (p : AgentNotification → Bool) (row : AgentNotification) (table : Table)
    → In row (filter p table)
    → In row table × (p row ≡ true)
unfolding filter
In-filter p row [] m = absurd m
In-filter p row (r ∷ table) m = ground (arith, m, In-filter p row table)

Precedes-filter :
    (p : AgentNotification → Bool) (a : AgentNotification) (table : Table)
    → All (Precedes a) (filter p table)
    → All (λ r. p r ≡ true → Precedes a r) table
unfolding filter
Precedes-filter p a [] h = tt
Precedes-filter p a (r ∷ table) h = ground (arith, h, Precedes-filter p a table)

module _ (q : AgentNotification → Bool) where
  count_where-absent :
      (id : String) (table : Table)
      → All (λ r. r.id ≢ id) table
      → count_where (λ r. has_id id r && q r) table ≡ 0
  unfolding count_where filter
  count_where-absent id [] h = refl
  count_where-absent id (r ∷ table) h =
      ground (arith, h.0, string_eq.same_iff r.id id, count_where-absent id table h.1)

  pub count_where-keyed :
      (row : AgentNotification) (table : Table)
      → IsKeyed table
      → q row ≡ true
      → In row table
      → count_where (λ r. has_id row.id r && q r) table ≡ 1
  unfolding count_where filter
  count_where-keyed row [] k h m = absurd m
  count_where-keyed row (r ∷ table) k h (inl e) = ground (
    arith,
    h,
    ap (λ x. x.id) e,
    ap q e,
    string_eq.same_iff r.id row.id,
    count_where-absent row.id table (rw (ap (λ x. x.id) e) k.0),
  )
  count_where-keyed row (r ∷ table) k h (inr m) = ground (
    arith,
    All-In (λ x. x.id ≢ r.id) table row k.0 m,
    string_eq.same_iff r.id row.id,
    count_where-keyed row table k.1 h m,
  )

get_row-keyed :
    (now : ℕ) (row : AgentNotification) (table : Table)
    → IsKeyed table
    → is_pending row.status ≡ true
    → In row table
    → get_row row.id (update_where (is_pending_row row.id) (start_row now) table)
      ≡ some (start_row now row)
unfolding first_where update_where start_row
get_row-keyed now row [] k h m = absurd m
get_row-keyed now row (r ∷ table) k h (inl e) =
    rw (sym e) (ground (arith, h, string_eq.same_iff row.id row.id))
get_row-keyed now row (r ∷ table) k h (inr m) = ground (
  arith,
  All-In (λ x. x.id ≢ r.id) table row k.0 m,
  string_eq.same_iff r.id row.id,
  get_row-keyed now row table k.1 h m,
)

claim_row-keyed :
    (now : ℕ) (row : AgentNotification) (table : Table)
    → IsKeyed table
    → is_pending row.status ≡ true
    → In row table
    → claim_row now row table
      ≡ (some (start_row now row), update_where (is_pending_row row.id) (start_row now) table)
unfolding claim_row
claim_row-keyed now row table k h m = ground (
  arith,
  count_where-keyed (λ r. is_pending r.status) row table k h m,
  get_row-keyed now row table k h m,
)

-- `any` and the query agree on whether there is a row.
abbrev Agree : (AgentNotification → Bool) → Table → Type 0
Agree p table =
    (any p table ≡ true)
    ↔ ((row : AgentNotification) × (first_by_order (filter p table) ≡ some row))

Agree-cons :
    (p : AgentNotification → Bool) (r : AgentNotification) (table : Table)
    → Agree p table
    → (p r ≡ true) ⊎ (p r ≡ false)
    → Agree p (r ∷ table)
unfolding any filter first_by_order
Agree-cons p r table h (inl e) =
    (λ _. (better r (first_by_order (filter p table)), ground (arith, e)), λ _. ground (arith, e))
Agree-cons p r table h (inr e) = ground (arith, e, h)

any-filter : (p : AgentNotification → Bool) (table : Table) → Agree p table
unfolding any filter first_by_order
any-filter p [] = (λ h. ground (arith, h), λ h. ground (arith, h.1))
any-filter p (r ∷ table) = Agree-cons p r table (any-filter p table) (Bool-cases (p r))

-- The table with the row of an id changed to another one.
abbrev pub replaced : String → AgentNotification → Table → Table
replaced id claimed [] = []
replaced id claimed (r ∷ table) = (if r.id == id then claimed else r) ∷ replaced id claimed table

replaced-absent :
    (id : String) (claimed : AgentNotification) (p : AgentNotification → Bool)
    (f : AgentNotification → AgentNotification) (table : Table)
    → All (λ r. r.id ≢ id) table
    → update_where (λ r. has_id id r && p r) f table ≡ replaced id claimed table
unfolding update_where
replaced-absent id claimed p f [] h = refl
replaced-absent id claimed p f (r ∷ table) h =
    ground (arith, h.0, string_eq.same_iff r.id id, replaced-absent id claimed p f table h.1)

update_where-replaced :
    (p : AgentNotification → Bool) (f : AgentNotification → AgentNotification)
    (row : AgentNotification) (table : Table)
    → IsKeyed table
    → p row ≡ true
    → In row table
    → update_where (λ r. has_id row.id r && p r) f table ≡ replaced row.id (f row) table
unfolding update_where
update_where-replaced p f row [] k h m = absurd m
update_where-replaced p f row (r ∷ table) k h (inl e) = ground (
  arith,
  h,
  e,
  ap f e,
  ap (λ x. x.id) e,
  ap p e,
  string_eq.same_iff r.id row.id,
  replaced-absent row.id (f row) p f table (rw (ap (λ x. x.id) e) k.0),
)
update_where-replaced p f row (r ∷ table) k h (inr m) = ground (
  arith,
  All-In (λ x. x.id ≢ r.id) table row k.0 m,
  string_eq.same_iff r.id row.id,
  update_where-replaced p f row table k.1 h m,
)

module _ (like : String → String → Bool) (session_id : String)
    (agent_code instance_id : Option String) (now : ℕ) where
  -- A notification that a claim may take: of the session, pending, for the agent and the instance
  -- that are asked for, which is a main one if none is.
  pub record Fits (row : AgentNotification) : Type 0 where
    pub session : row.session_id ≡ session_id
    pub waits : row.status ≡ pending
    pub agent : (code : String) → agent_code ≡ some code → row.target_agent_code ≡ code
    pub instance_of : (id : String) → instance_id ≡ some id → row.target_agent_instance_id ≡ id
    pub main : instance_id ≡ none → like row.target_agent_instance_id "main:%" ≡ true

  -- What a claim that gives `claimed` has done: `row` was its notification.
  pub record IsClaim (table after : Table) (claimed row : AgentNotification) : Type 0 where
    pub found : In row table
    pub fits : Fits row
    pub first : All (λ r. Fits r → Precedes row r) table
    pub started :
        claimed ≡ record row { status = processing; started_at = some now; updated_at = now }
    pub written : after ≡ replaced row.id claimed table

  pending_iff : (row : AgentNotification) → (is_pending row.status ≡ true) ↔ (row.status ≡ pending)
  pending_iff row = status_iff row.status
    where
      status_iff : (s : NotificationStatus) → (is_pending s ≡ true) ↔ (s ≡ pending)
      status_iff awaiting = ground arith
      status_iff pending = ground arith
      status_iff processing = ground arith
      status_iff completed = ground arith
      status_iff failed = ground arith
      status_iff canceled = ground arith

  given_iff :
      (wanted : Option String) (value : String)
      → (given wanted value ≡ true) ↔ ((w : String) → wanted ≡ some w → value ≡ w)
  given_iff none value = (λ _ w e. ground (arith, e), λ _. refl)
  given_iff (some wanted) value = (
    λ h w e. ground (arith, h, e, string_eq.same_iff value wanted),
    λ h. (string_eq.same_iff value wanted).1 (h wanted refl),
  )

  is_target_iff :
      (wanted : Option String) (row : AgentNotification)
      → (is_target like wanted row ≡ true) ↔ (
          ((id : String) → wanted ≡ some id → row.target_agent_instance_id ≡ id)
          × (wanted ≡ none → like row.target_agent_instance_id "main:%" ≡ true))
  unfolding is_target
  is_target_iff none row = (λ h. (λ w e. ground (arith, e), λ _. h), λ h. h.1 refl)
  is_target_iff (some wanted) row = (
    λ h. (
      λ w e. ground (arith, h, e, string_eq.same_iff row.target_agent_instance_id wanted),
      λ e. ground (arith, e),
    ),
    λ h. (string_eq.same_iff row.target_agent_instance_id wanted).1 (h.0 wanted refl),
  )

  is_claimable-Fits :
      (row : AgentNotification)
      → (is_claimable like session_id agent_code instance_id row ≡ true) ↔ Fits row
  unfolding is_claimable in_session
  is_claimable-Fits row = (
    λ h. record {
      session = (string_eq.same_iff row.session_id session_id).0 (ground (arith, h));
      waits = (pending_iff row).0 (ground (arith, h));
      agent = (given_iff agent_code row.target_agent_code).0 (ground (arith, h));
      instance_of = ((is_target_iff instance_id row).0 (ground (arith, h))).0;
      main = ((is_target_iff instance_id row).0 (ground (arith, h))).1;
    },
    λ f. ground (
      arith,
      (string_eq.same_iff row.session_id session_id).1 f.session,
      (pending_iff row).1 f.waits,
      (given_iff agent_code row.target_agent_code).1 f.agent,
      (is_target_iff instance_id row).1 (f.instance_of, f.main),
    ),
  )

  All-Fits :
      (row : AgentNotification) (table : Table)
      → All
          (λ r. is_claimable like session_id agent_code instance_id r ≡ true → Precedes row r)
          table
      → All (λ r. Fits r → Precedes row r) table
  All-Fits row [] h = tt
  All-Fits row (r ∷ table) h = (λ f. h.0 ((is_claimable-Fits r).1 f), All-Fits row table h.1)

  first_by_order-IsClaim :
      (table : Table) (row : AgentNotification)
      → IsKeyed table
      → first_by_order (filter (is_claimable like session_id agent_code instance_id) table)
        ≡ some row
      → (claim_next_pending_notification like session_id agent_code instance_id now table
          ≡ (some (start_row now row), update_where (is_pending_row row.id) (start_row now) table))
        × IsClaim table
            (update_where (is_pending_row row.id) (start_row now) table)
            (start_row now row)
            row
  unfolding claim_next_pending_notification claim_found is_claimable start_row
  first_by_order-IsClaim table row k e =
      let best = first_by_order-IsFirst _ row e in
      let own = In-filter (is_claimable like session_id agent_code instance_id) row table best.0 in
      (
        rw e (claim_row-keyed now row table k (ground (arith, own.1)) own.0),
        record {
          found = own.0;
          fits = (is_claimable-Fits row).0 own.1;
          first = All-Fits row table (Precedes-filter _ row table best.1);
          started = refl;
          written =
              update_where-replaced (λ r. is_pending r.status) (start_row now) row table k
                (ground (arith, own.1)) own.0;
        },
      )

  -- `has_pending_notification` holds exactly when a claim with the same filters gives a
  -- notification, in a table whose ids differ.
  pub has_pending_notification_iff :
      (table : Table)
      → IsKeyed table
      → (has_pending_notification like session_id agent_code instance_id table ≡ true) ↔ (
          (claimed : AgentNotification) × ((claim_next_pending_notification like session_id
              agent_code instance_id now table).0
            ≡ some claimed))
  unfolding has_pending_notification claim_next_pending_notification claim_found
  has_pending_notification_iff table k =
      elim (Option-cases
        (first_by_order (filter (is_claimable like session_id agent_code instance_id) table))) [
          | inl e ↦
              ground
                (arith, e, any-filter (is_claimable like session_id agent_code instance_id) table)
          | inr (row, e) ↦ (
            λ _. (start_row now row, ap (λ c. c.0) (first_by_order-IsClaim table row k e).0),
            λ _. (any-filter _ table).1 (row, e),
          )
        ]

  -- A claim takes a pending notification of the session, for the agent and the instance that it asks
  -- for (a main one if it asks for none), that no other such one precedes, by higher priority and
  -- then by age. It gives this row in processing, with the time, and writes it, and leaves the other
  -- rows. The ids of the table differ.
  pub claim_next_pending_notification-IsClaim :
      (table : Table) (claimed : AgentNotification)
      → IsKeyed table
      → (claim_next_pending_notification like session_id agent_code instance_id now table).0
        ≡ some claimed
      → (row : AgentNotification) × IsClaim table
          (claim_next_pending_notification like session_id agent_code instance_id now table).1
          claimed
          row
  unfolding claim_next_pending_notification claim_found
  claim_next_pending_notification-IsClaim table claimed k h =
      elim (Option-cases
        (first_by_order (filter (is_claimable like session_id agent_code instance_id) table))) [
          | inl e ↦ ground (arith, e, h)
          | inr (row, e) ↦
              let c = first_by_order-IsClaim table row k e in
              (
                row,
                subst (λ after. IsClaim table after claimed row) (sym (ap (λ q. q.1) c.0))
                    (subst
                      (λ x.
                        IsClaim table (update_where (is_pending_row row.id) (start_row now) table) x
                          row)
                      (ground (arith, c.0, h)) c.1),
              )
        ]
