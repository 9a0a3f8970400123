-- ===== src/Gateway/Idempotency.antt =====
-- Idempotency of the in-memory backend: a key keeps its application for good.
use project_k_platform.Prelude.{
  ℕ, String, ◌≡◌, refl, true, Option, none, some, List, [], ◌∷◌, sym, arith, eq_iff, Option-cases,
  inl, inr,
}
use project_k_platform.Prelude.Dict.{
  Dict, lookup, insert, lookup-insert, lookup-insert_self, contains,
}
use project_k_platform.Prelude.Eq.{string_eq, nat_eq}
use project_k_platform.Prelude.Result.{ok}
use project_k_platform.Gateway.Types.{
  LoanApplicationRequest, LoanApplicationResponse, existing_message,
}
use project_k_platform.Gateway.Memory.{
  Application, Service, Extra, nothing_overwritten, empty, real_key, find_key, initiate_application,
  initiate_by, create, index_key, update_gate, update_found, new_application, advance,
}

module _ (workflow_of : ℕ → String) where
  -- An indexed key has its application, and an application is stored under its own id, with the
  -- workflow of that id.
  pub record IsValid (s : Service) : Type 0 where
    pub indexed :
        (k : String) (id : ℕ)
        → lookup k s.idempotency_index ≡ some id
        → contains id s.applications ≡ true
    pub stored :
        (id : ℕ) (a : Application)
        → lookup id s.applications ≡ some a
        → (a.application_id ≡ id) × (a.workflow_id ≡ workflow_of id)

  pub empty-IsValid : IsValid empty
  empty-IsValid = record { indexed = λ k id h. cc; stored = λ id a h. cc }

  create-IsValid :
      (now app_id : ℕ) (request : LoanApplicationRequest) (s : Service)
      → IsValid s
      → IsValid (create workflow_of now app_id request s).1
  create-IsValid now app_id request s v = record {
    indexed = λ k id h. split (real_key request.idempotency_key) k id h;
    stored = λ id a h. ground (
      arith,
      lookup-insert app_id id (new_application workflow_of now app_id request) s.applications,
      v.stored id a,
    );
  }
    where
      split :
          (key : Option String) (k : String) (id : ℕ)
          → lookup k (index_key workflow_of key app_id s.idempotency_index) ≡ some id
          → contains id
              (insert app_id (new_application workflow_of now app_id request) s.applications)
            ≡ true
      split none k id h = ground (
        arith,
        lookup-insert app_id id (new_application workflow_of now app_id request) s.applications,
        v.indexed k id,
      )
      split (some j) k id h = ground (
        arith,
        lookup-insert app_id id (new_application workflow_of now app_id request) s.applications,
        lookup-insert j k app_id s.idempotency_index,
        v.indexed k id,
      )

  initiate-IsValid :
      (now app_id : ℕ) (request : LoanApplicationRequest) (s : Service)
      → IsValid s
      → IsValid (initiate_application workflow_of now app_id request s).1
  unfolding initiate_application
  initiate-IsValid now app_id request s v =
      split (find_key workflow_of (real_key request.idempotency_key) s.idempotency_index)
    where
      split : (o : Option ℕ) → IsValid (initiate_by workflow_of o now app_id request s).1
      split none = create-IsValid now app_id request s v
      split (some id) = v

  update_gate-IsValid :
      (now id : ℕ) (gate status : String) (extra : Extra) (s : Service)
      → IsValid s
      → IsValid (update_gate now id gate status nothing_overwritten extra s).1
  unfolding update_gate
  update_gate-IsValid now id gate status extra s v = split (lookup id s.applications) refl
    where
      split :
          (o : Option Application)
          → lookup id s.applications ≡ o
          → IsValid (update_found o now id gate status nothing_overwritten extra s).1
      split none e = v
      split (some a) e = record {
        indexed = λ k j h. ground (
          arith,
          lookup-insert id j (advance now gate status nothing_overwritten extra a) s.applications,
          v.indexed k j,
        );
        stored = λ j b h. ground (
          arith,
          lookup-insert id j (advance now gate status nothing_overwritten extra a) s.applications,
          v.stored j b,
          v.stored id a,
        );
      }

-- The calls that change the service; those of `update_gate` overwrite nothing that a new application
-- has, the gate and the status aside.
pub data Op : Type 0 where
  initiate : ℕ → ℕ → LoanApplicationRequest → Op
  update : ℕ → ℕ → String → String → Extra → Op

module _ (workflow_of : ℕ → String) where
  unfoldable pub apply : Op → Service → Service
  apply (initiate now app_id request) s = (initiate_application workflow_of now app_id request s).1
  apply (update now id gate status extra) s =
      (update_gate now id gate status nothing_overwritten extra s).1

  unfoldable pub apply_all : List Op → Service → Service
  unfolding apply
  apply_all [] s = s
  apply_all (op ∷ ops) s = apply_all ops (apply op s)

  apply-IsValid : (op : Op) (s : Service) → IsValid workflow_of s → IsValid workflow_of (apply op s)
  unfolding apply
  apply-IsValid (initiate now app_id request) s v =
      initiate-IsValid workflow_of now app_id request s v
  apply-IsValid (update now id gate status extra) s v =
      update_gate-IsValid workflow_of now id gate status extra s v

  pub apply_all-IsValid :
      (ops : List Op) (s : Service) → IsValid workflow_of s → IsValid workflow_of (apply_all ops s)
  unfolding apply_all
  apply_all-IsValid [] s v = v
  apply_all-IsValid (op ∷ ops) s v = apply_all-IsValid ops (apply op s) (apply-IsValid op s v)

  -- A key that is indexed stays so: a new application is created only for a key that is not.
  index-index_key :
      (key : Option String) (app_id : ℕ) (index : Dict String ℕ) (k : String) (id : ℕ)
      → find_key workflow_of key index ≡ none
      → lookup k index ≡ some id
      → lookup k (index_key workflow_of key app_id index) ≡ some id
  index-index_key none app_id index k id e h = h
  index-index_key (some j) app_id index k id e h =
      ground (arith, lookup-insert j k app_id index, eq_iff j k)

  index-initiate :
      (now app_id : ℕ) (request : LoanApplicationRequest) (s : Service) (k : String) (id : ℕ)
      → lookup k s.idempotency_index ≡ some id
      → lookup k (initiate_application workflow_of now app_id request s).1.idempotency_index
        ≡ some id
  unfolding initiate_application
  index-initiate now app_id request s k id h =
      split (find_key workflow_of (real_key request.idempotency_key) s.idempotency_index) refl
    where
      split :
          (o : Option ℕ)
          → find_key workflow_of (real_key request.idempotency_key) s.idempotency_index ≡ o
          → lookup k (initiate_by workflow_of o now app_id request s).1.idempotency_index ≡ some id
      split (some i) e = h
      split none e =
          index-index_key (real_key request.idempotency_key) app_id s.idempotency_index k id e h

  index-update_found :
      (o : Option Application) (now id : ℕ) (gate status : String) (extra : Extra) (s : Service)
      → (update_found o now id gate status nothing_overwritten extra s).1.idempotency_index
        ≡ s.idempotency_index
  index-update_found none now id gate status extra s = refl
  index-update_found (some a) now id gate status extra s = refl

  index-apply_all :
      (ops : List Op) (s : Service) (k : String) (id : ℕ)
      → lookup k s.idempotency_index ≡ some id
      → lookup k (apply_all ops s).idempotency_index ≡ some id
  unfolding apply_all update_gate
  index-apply_all [] s k id h = h
  index-apply_all (initiate now app_id request ∷ ops) s k id h =
      index-apply_all ops _ k id (index-initiate now app_id request s k id h)
  index-apply_all (update now i gate status extra ∷ ops) s k id h =
      index-apply_all ops _ k id
        (rw (index-update_found (lookup i s.applications) now i gate status extra s) h)

  -- What a request by an indexed key gets.
  initiate-indexed :
      (now app_id : ℕ) (request : LoanApplicationRequest) (s : Service) (k : String) (id : ℕ)
      → IsValid workflow_of s
      → real_key request.idempotency_key ≡ some k
      → lookup k s.idempotency_index ≡ some id
      → (a : Application) × (lookup id s.applications ≡ some a)
        × (initiate_application workflow_of now app_id request s ≡ (
          ok (record {
            application_id = id;
            invoice_id = a.invoice_id;
            status = a.status;
            workflow_id = some (workflow_of id);
            message = existing_message;
          }),
          s,
        ))
  unfolding initiate_application
  initiate-indexed now app_id request s k id v key h =
      elim (Option-cases (lookup id s.applications)) [
        | inl e ↦ ground (arith, v.indexed k id h)
        | inr (a, e) ↦ (a, e, ground (arith, v.stored id a))
      ]

  initiate-fresh :
      (now app_id : ℕ) (request : LoanApplicationRequest) (s : Service) (k : String)
      {r : LoanApplicationResponse}
      → real_key request.idempotency_key ≡ some k
      → lookup k s.idempotency_index ≡ none
      → (initiate_application workflow_of now app_id request s).0 ≡ ok r
      → (lookup k (initiate_application workflow_of now app_id request s).1.idempotency_index
          ≡ some r.application_id)
        × (r.workflow_id ≡ some (workflow_of r.application_id))
  unfolding initiate_application
  initiate-fresh now app_id request s k key e h =
      let done : lookup k (insert k app_id s.idempotency_index) ≡ some app_id =
        lookup-insert_self k app_id s.idempotency_index in
      ground (arith)

  initiate-registers :
      (now app_id : ℕ) (request : LoanApplicationRequest) (s : Service) (k : String)
      {r : LoanApplicationResponse}
      → IsValid workflow_of s
      → real_key request.idempotency_key ≡ some k
      → (initiate_application workflow_of now app_id request s).0 ≡ ok r
      → (lookup k (initiate_application workflow_of now app_id request s).1.idempotency_index
          ≡ some r.application_id)
        × (r.workflow_id ≡ some (workflow_of r.application_id))
  initiate-registers now app_id request s k v key h =
      elim (Option-cases (lookup k s.idempotency_index)) [
        | inr (id, e) ↦
            let (a, f, g) = initiate-indexed now app_id request s k id v key e in
            (ground arith, ground arith)
        | inl e ↦ initiate-fresh now app_id request s k key e h
      ]

-- From any state that the service can reach: after a request with an idempotency key (not empty) got
-- its response, and after any further calls, of which none has an extra argument with the name of a
-- key that a new application has, a request with the same key, whatever else it says, is
-- answered with the same application and workflow, and changes nothing.
pub initiate_application-idempotent :
    (workflow_of : ℕ → String) (before later : List Op) (now now' app_id app_id' : ℕ)
    (request request' : LoanApplicationRequest) (k : String) {r : LoanApplicationResponse}
    → real_key request.idempotency_key ≡ some k
    → real_key request'.idempotency_key ≡ some k
    → let s = apply_all workflow_of before empty in
      (initiate_application workflow_of now app_id request s).0 ≡ ok r
      → let s' =
          apply_all workflow_of later (initiate_application workflow_of now app_id request s).1 in
        (r' : LoanApplicationResponse) × (initiate_application workflow_of now' app_id' request' s'
          ≡ (ok r', s'))
        × (r'.application_id ≡ r.application_id)
        × (r'.workflow_id ≡ r.workflow_id)
initiate_application-idempotent workflow_of before later now now' app_id app_id' request request' k
      key key' h =
    let s = apply_all workflow_of before empty in
    let v = apply_all-IsValid workflow_of before empty (empty-IsValid workflow_of) in
    let t = (initiate_application workflow_of now app_id request s).1 in
    let v' =
      apply_all-IsValid workflow_of later t (initiate-IsValid workflow_of now app_id request s v) in
    let (registered, w) = initiate-registers workflow_of now app_id request s k v key h in
    let (a, _, e) =
      initiate-indexed workflow_of now' app_id' request' (apply_all workflow_of later t) k _ v' key'
        (index-apply_all workflow_of later t k _ registered) in
    (_, e, refl, sym w)
