-- ===== src/ModelGateway/Egress/Refines.antt =====
-- Every transaction keeps the promise of every permit.
use knowledage_base_assistan.Prelude.{
  nat_eq, string_eq, ◌==◌, ==-refl, ℕ, Uuid, true, ◌||◌, ◌≡◌, sym, subst, inl, inr, Option, none,
  some, if◌then◌else◌, Bool-cases, arith, leb, String,
}
use knowledage_base_assistan.ModelGateway.Egress.Permit.{
  EgressPermitRecord, admitted, secret_read, expired, ModelCall, is_ready, is_admitted,
}
use knowledage_base_assistan.ModelGateway.Egress.Repository.{
  EgressDb, current_call_rejection, find_permit, store, with_status, expire,
}
use knowledage_base_assistan.ModelGateway.Egress.Admission.{
  admit_locked, admit_for, admit_unopposed, EgressAdmissionRequest, admission_reason,
  authorize_locked, authorize_for, may_read, ProviderSecretReadRequest,
}
use knowledage_base_assistan.ModelGateway.Egress.Rows.{find-key, find-set_same, find-set_other}
use knowledage_base_assistan.ModelGateway.Egress.OneShot.{
  Phase, Event, nothing, admission, reading, may_go, phase, phase_of_status, event_of_decision,
  event_of_answer,
}

-- An event that concerns one model call, seen from another or the same.
abbrev seen : Uuid → Uuid → Event → Event
seen k id e = if k == id then e else nothing

pub stays : (x : Phase) → may_go x nothing x ≡ true
stays x = ground arith

stays-seen : (k id : Uuid) (x : Phase) → may_go x (seen k id nothing) x ≡ true
stays-seen k id x = elim (Bool-cases (k == id)) [
  | inl here ↦ rw here (stays x)
  | inr other ↦ rw other (stays x)
]

module _ (db : EgressDb) (id : Uuid) where
  store-goes :
      (q p : EgressPermitRecord) (e : Event)
      → find_permit p.model_call_id db.permits ≡ some q
      → may_go (phase_of_status q.status) e (phase_of_status p.status) ≡ true
      → may_go (phase id db) (seen p.model_call_id id e) (phase id (store db p)) ≡ true
  store-goes q p e f h = elim (Bool-cases (p.model_call_id == id)) [
    | inl here ↦
        subst (λ i. may_go (phase i db) (seen p.model_call_id i e) (phase i (store db p)) ≡ true)
          ((nat_eq.same_key_iff p.model_call_id id).0 here)
          (rw (f, ==-refl p.model_call_id, find-set_same p q db.permits f) h)
    | inr other ↦ rw (other, find-set_other id p db.permits other) (stays (phase id db))
  ]

  module _ (now : ℕ) (p : EgressPermitRecord)
      (f : find_permit p.model_call_id db.permits ≡ some p) where
    expire-goes :
        may_go (phase id db) (seen p.model_call_id id nothing) (phase id (store db (expire now p)))
        ≡ true
    unfolding expire with_status
    expire-goes = elim (Bool-cases (is_ready p.status || is_admitted p.status)) [
      | inl live ↦ rw live (
          store-goes p (with_status expired p.admitted_at p.secret_read_at now p) nothing f
            (ground arith))
      | inr over ↦ rw over (store-goes p p nothing f (stays (phase_of_status p.status)))
    ]

    admit_unopposed-goes :
        may_go
          (phase id db)
          (seen p.model_call_id id (event_of_decision (admit_unopposed db now p).1))
          (phase id (admit_unopposed db now p).0)
        ≡ true
    unfolding admit_unopposed with_status
    admit_unopposed-goes = elim (Bool-cases (leb p.expires_at now)) [
      | inl late ↦ rw late expire-goes
      | inr open_ ↦ elim (Bool-cases (is_ready p.status)) [
        | inl fresh ↦
            rw (open_, fresh)
              (store-goes p (with_status admitted (some now) p.secret_read_at now p) admission f
                (ground arith))
        | inr used ↦ rw (open_, used) (stays-seen p.model_call_id id (phase id db))
      ]
    ]

    admit_for-goes :
        (reason : Option String)
        → may_go
            (phase id db)
            (seen p.model_call_id id (event_of_decision (admit_for db now p reason).1))
            (phase id (admit_for db now p reason).0)
          ≡ true
    unfolding admit_for
    admit_for-goes none = admit_unopposed-goes
    admit_for-goes (some reason) = stays-seen p.model_call_id id (phase id db)

    authorize_for-goes :
        (request : ProviderSecretReadRequest) (reason : Option String)
        → may_go
            (phase id db)
            (seen p.model_call_id id (event_of_answer (authorize_for db now request p reason).1))
            (phase id (authorize_for db now request p reason).0)
          ≡ true
    unfolding authorize_for with_status may_read
    authorize_for-goes request (some reason) = stays-seen p.model_call_id id (phase id db)
    authorize_for-goes request none = elim (Bool-cases (leb p.expires_at now)) [
      | inl late ↦ rw late expire-goes
      | inr open_ ↦ elim (Bool-cases (may_read request p)) [
        | inl yes_ ↦
            rw (open_, yes_)
              (store-goes p (with_status secret_read p.admitted_at (some now) now p) reading f
                (ground arith))
        | inr no_ ↦ rw (open_, no_) (stays-seen p.model_call_id id (phase id db))
      ]
    ]

  -- The same for the row that is found under a request's key.
  at_key :
      (Q : Uuid → Type 0) (k : Uuid) (p : EgressPermitRecord)
      → find_permit k db.permits ≡ some p
      → ((find_permit p.model_call_id db.permits ≡ some p) → Q p.model_call_id)
      → Q k
  at_key Q k p f h =
      let key = find-key k p db.permits f in
      subst Q key (h (subst (λ i. find_permit i db.permits ≡ some p) (sym key) f))

  pub admit_locked-goes :
      (now : ℕ) (request : EgressAdmissionRequest) (call : Option ModelCall)
      (permit : Option EgressPermitRecord)
      → find_permit request.model_call_id db.permits ≡ permit
      → may_go
          (phase id db)
          (seen request.model_call_id id
            (event_of_decision (admit_locked db now request call permit).1))
          (phase id (admit_locked db now request call permit).0)
        ≡ true
  unfolding admit_locked
  admit_locked-goes now request (some call) (some p) f =
      at_key
        (λ k.
          may_go (phase id db)
            (seen k id (event_of_decision (admit_for db now p (admission_reason request call p)).1))
            (phase id (admit_for db now p (admission_reason request call p)).0)
          ≡ true)
        request.model_call_id p f (λ g. admit_for-goes now p g (admission_reason request call p))
  admit_locked-goes now request (some call) none f =
      stays-seen request.model_call_id id (phase id db)
  admit_locked-goes now request none permit f = stays-seen request.model_call_id id (phase id db)

  pub authorize_locked-goes :
      (now : ℕ) (request : ProviderSecretReadRequest) (call : Option ModelCall)
      (permit : Option EgressPermitRecord)
      → find_permit request.model_call_id db.permits ≡ permit
      → may_go
          (phase id db)
          (seen request.model_call_id id
            (event_of_answer (authorize_locked db now request call permit).1))
          (phase id (authorize_locked db now request call permit).0)
        ≡ true
  unfolding authorize_locked
  authorize_locked-goes now request (some call) (some p) f =
      let reason = current_call_rejection call p in
      at_key
        (λ k.
          may_go (phase id db)
            (seen k id (event_of_answer (authorize_for db now request p reason).1))
            (phase id (authorize_for db now request p reason).0)
          ≡ true)
        request.model_call_id p f (λ g. authorize_for-goes now p g request reason)
  authorize_locked-goes now request (some call) none f =
      stays-seen request.model_call_id id (phase id db)
  authorize_locked-goes now request none permit f =
      stays-seen request.model_call_id id (phase id db)
