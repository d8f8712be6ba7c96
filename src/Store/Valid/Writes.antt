-- ===== src/Store/Valid/Writes.antt =====
-- The statements of crates/nac-store that change endpoints and sessions, and what the tables promise.
use native.Mathlib.Omega.{arith}
use lentropy.Common.{
  ℕ, Bool, Option, List, Text, String, any, find, refl, ◌≡◌, true, Option-cases, inl, inr,
}
use lentropy.Exec.Triples.{Keeps}
use lentropy.Store.Endpoint.{EndpointRow}
use lentropy.Store.Database.{Platform, SessionRow, Message, is_status, is_state, cast, cast_option}
use lentropy.Store.Endpoints.{
  UpsertEndpoint, PostureFields, has_mac, has_id, insert_endpoint, merge_endpoint, upsert_rows,
  upsert, set_status, set_policy, set_exempt, set_username, set_compliance, update_posture_fields,
}
use lentropy.Store.Sessions.{
  CreateSession, session_has_id, end_session, move_session, create, transition, terminate,
}
use lentropy.Store.Steps.{On, Yields-ok, Yields-bail, Yields-bind, Keeps-statement}
use lentropy.Store.Valid.{Valid, endpoints_updated, endpoint_added, sessions_updated, session_added}

module _ {Json : Type 0} where
  abbrev pub Sound : List (EndpointRow Json) → List SessionRow → List Message → Type 0
  Sound e s m = Valid e s

module _ {Json : Type 0} (platform : Platform Json) where
  pub upsert-IsValid : (ep : UpsertEndpoint) → Keeps (On Sound) (upsert platform ep)
  unfolding upsert upsert_rows insert_endpoint merge_endpoint is_status
  upsert-IsValid ep = Keeps-statement Sound platform _ λ n t sent v.
      Yields-bind (cast platform.macaddr ep.mac_address) _ λ mac e.
        Yields-bind (cast_option platform.inet ep.ip_address) _ λ ip e'. Yields-bail _ _ _ λ free.
          elim (Option-cases (find (has_mac mac) t.endpoints)) [
            | inl new ↦ rw new (
                Yields-bail (any (has_id (platform.uuid n)) t.endpoints) _ _
                  λ fresh. Yields-ok (endpoint_added _ t.endpoints t.sessions refl new fresh v))
            | inr (r, old) ↦ rw old (
                Yields-ok (
                  endpoints_updated _ _ t.endpoints t.sessions (λ r. refl) (λ r. refl) (λ r b h. h)
                    v))
          ]

  pub set_status-IsValid :
      (id : ℕ) (status : String)
      → is_status status ≡ true
      → Keeps (On Sound) (set_status platform id status)
  unfolding set_status
  set_status-IsValid id status good = Keeps-statement Sound platform _ λ n t sent v.
      Yields-bail _ _ _ λ checked.
        Yields-ok
          (endpoints_updated _ _ t.endpoints t.sessions (λ r. refl) (λ r. refl) (λ r b h. good) v)

  pub set_username-IsValid :
      (id : ℕ) (username : Text) → Keeps (On Sound) (set_username platform id username)
  unfolding set_username
  set_username-IsValid id username = Keeps-statement Sound platform _ λ n t sent v.
      Yields-ok
        (endpoints_updated _ _ t.endpoints t.sessions (λ r. refl) (λ r. refl) (λ r b h. h) v)

  pub set_compliance-IsValid :
      (id : ℕ) (is_compliant : Bool) → Keeps (On Sound) (set_compliance platform id is_compliant)
  unfolding set_compliance
  set_compliance-IsValid id is_compliant = Keeps-statement Sound platform _ λ n t sent v.
      Yields-ok
        (endpoints_updated _ _ t.endpoints t.sessions (λ r. refl) (λ r. refl) (λ r b h. h) v)

  pub update_posture_fields-IsValid :
      (id : ℕ) (fields : PostureFields Json)
      → Keeps (On Sound) (update_posture_fields platform id fields)
  unfolding update_posture_fields
  update_posture_fields-IsValid id fields = Keeps-statement Sound platform _ λ n t sent v.
      Yields-ok
        (endpoints_updated _ _ t.endpoints t.sessions (λ r. refl) (λ r. refl) (λ r b h. h) v)

  pub set_exempt-IsValid :
      (id : ℕ) (exempt : Bool) → Keeps (On Sound) (set_exempt platform id exempt)
  unfolding set_exempt
  set_exempt-IsValid id exempt = Keeps-statement Sound platform _ λ n t sent v.
      Yields-ok
        (endpoints_updated _ _ t.endpoints t.sessions (λ r. refl) (λ r. refl) (λ r b h. h) v)

  pub set_policy-IsValid :
      (id : ℕ) (policy_id : Option ℕ) → Keeps (On Sound) (set_policy platform id policy_id)
  unfolding set_policy
  set_policy-IsValid id policy_id = Keeps-statement Sound platform _ λ n t sent v.
      Yields-bail _ _ _ λ known.
        Yields-ok
          (endpoints_updated _ _ t.endpoints t.sessions (λ r. refl) (λ r. refl) (λ r b h. h) v)

  pub create-IsValid : (s : CreateSession) → Keeps (On Sound) (create platform s)
  unfolding create is_state
  create-IsValid s = Keeps-statement Sound platform _ λ n t sent v.
      Yields-bail _ _ _
        λ checked. Yields-ok (session_added _ t.endpoints t.sessions refl (ground arith) v)

  pub transition-IsValid :
      (id : ℕ) (state : String) (username : Option Text)
      → is_state state ≡ true
      → Keeps (On Sound) (transition platform id state username)
  unfolding transition
  transition-IsValid id state username good = Keeps-statement Sound platform _ λ n t sent v.
      Yields-bail _ _ _ λ checked. Yields-ok (
        sessions_updated (session_has_id id) (move_session (platform.now n) state username)
          t.endpoints t.sessions (λ s. refl) (λ s b h. good) v)

  pub terminate-IsValid : (id : ℕ) → Keeps (On Sound) (terminate platform id)
  unfolding terminate end_session is_state
  terminate-IsValid id = Keeps-statement Sound platform _ λ n t sent v. Yields-ok (
      sessions_updated (session_has_id id) (end_session (platform.now n)) t.endpoints t.sessions
        (λ s. refl) (λ s b h. refl) v)
