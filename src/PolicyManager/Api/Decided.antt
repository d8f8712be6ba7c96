-- ===== src/PolicyManager/Api/Decided.antt =====
-- services/policy-manager/src/api/endpoints.rs: what a change of status does, when it succeeds and
-- when it fails on the way.
use lentropy.Common.{
  ℕ, Bool, Option, none, some, List, [], ◌∷◌, ◌++◌, String, ◌≡◌, refl, ap, sym, ◌∙◌, ◌⊎◌, inl, inr,
  if_lem, find, unwrap_or,
}
use lentropy.Outcome.{Outcome, ok, err, panic, timeout}
use lentropy.Exec.Triples.{
  Ends, Meets, Meets-pure, Meets-option, Meets-bind, Meets-fails, Meets-weaken, Meets-fact,
}
use lentropy.Store.Endpoint.{EndpointRow}
use lentropy.Store.Database.{
  Platform, Db, StoreError, World, SessionRow, Message, command, update_where,
}
use lentropy.Store.Endpoints.{has_id, find_by_id, set_status}
use lentropy.Store.Steps.{Yields-ok, Yields-bail, Meets-statement, Meets-publish, On, Keeps-log}
use lentropy.PolicyManager.Commands.{enforcement, strip_cidr, send}
use lentropy.PolicyManager.Api.{
  from_store, asked, answer_with, set_and_send, update_endpoint_status,
}

module _ {W E A : Type 0} where
  pub Meets-fail :
      {P X : W → Type 0} {Q : A → W → Type 0} (e : E)
      → ((w : W) → P w → X w)
      → Meets P X (λ w. (err e, w)) Q
  Meets-fail e h = record { at = h }

module _ {Json A : Type 0} (X : World Json → Type 0) (Q : A → World Json → Type 0) where
  from_store-Ends : (r : Outcome StoreError A × World Json) → Ends Q X r → Ends Q X (from_store r)
  from_store-Ends (ok a, w) h = h
  from_store-Ends (err e, w) h = h
  from_store-Ends (panic, w) h = h
  from_store-Ends (timeout, w) h = h

module _ {Json A : Type 0} {P X : World Json → Type 0} {Q : A → World Json → Type 0} where
  pub Meets-asked : {m : Db Json A} → Meets P X m Q → Meets P X (asked m) Q
  unfolding asked
  Meets-asked {m = m} h = record { at = λ w p. from_store-Ends X Q (m w) (h.at w p) }

module _ {ℓ} {A : Type ℓ} where
  -- A change that the test does not see.
  find-update :
      (p : A → Bool) (f : A → A) (xs : List A) (a : A)
      → ((x : A) → p (f x) ≡ p x)
      → find p xs ≡ some a
      → find p (update_where p f xs) ≡ some (f a)
  find-update p f [] a same e = absurd cc
  find-update p f (x ∷ xs) a same e =
      if_lem (λ o. o ≡ some a → find p (update_where p f (x ∷ xs)) ≡ some (f a)) (p x) _ _
        (λ b e. let h : x ≡ a = cc in rw (b, same x, b) (ap (λ y. some (f y)) h))
        (λ b e. rw (b, b) (find-update p f xs a same e)) e

module _ {Json : Type 0} where
  abbrev pub with_status : String → EndpointRow Json → EndpointRow Json
  with_status status r = record r { status = status }

  -- The command for the device.
  abbrev pub command_for : EndpointRow Json → String → Message
  command_for ep status =
      command (enforcement ep.mac_address (strip_cidr (unwrap_or ep.ip_address [])) status none)

module _ {Json : Type 0} (platform : Platform Json) (id : ℕ) (status : String)
    (rows : List (EndpointRow Json)) (before : List Message) where
  abbrev pub changed : List (EndpointRow Json)
  changed = update_where (has_id id) (with_status status) rows

  abbrev pub Told : EndpointRow Json → List Message → Type 0
  Told ep sent = (sent ≡ before) ⊎ (sent ≡ before ++ command_for ep status ∷ [])

  abbrev Same : List (EndpointRow Json) → List SessionRow → List Message → Type 0
  Same e s m = (e ≡ rows) × (m ≡ before)

  abbrev Set : List (EndpointRow Json) → List SessionRow → List Message → Type 0
  Set e s m = (e ≡ changed) × (m ≡ before)

  abbrev Sent : EndpointRow Json → List (EndpointRow Json) → List SessionRow → List Message → Type 0
  Sent ep e s m = (e ≡ changed) × Told ep m

  -- Where a failure can leave the tables and the messages.
  pub data Stopped (e : List (EndpointRow Json)) (m : List Message) : Type 0 where
    untouched : e ≡ rows → m ≡ before → Stopped e m
    written : e ≡ changed → m ≡ before → Stopped e m
    told :
        (ep : EndpointRow Json)
        → find (has_id id) rows ≡ some ep
        → e ≡ changed
        → m ≡ before ++ command_for ep status ∷ []
        → Stopped e m

  abbrev pub Halfway : World Json → Type 0
  Halfway w = Stopped w.tables.endpoints w.sent

  -- What a success promises: the device was there, only its status is written, the answer is the
  -- row that is in the table now, and nothing but its command is published.
  pub record Applied (v : Json) (w : World Json) : Type 0 where
    pub device : EndpointRow Json
    pub found : find (has_id id) rows ≡ some device
    pub endpoints : w.tables.endpoints ≡ changed
    pub messages : Told device w.sent
    pub answer : platform.endpoint_to_value (with_status status device) ≡ some v

  module _ (ep : EndpointRow Json) (there : find (has_id id) rows ≡ some ep) where
    halfway : (w : World Json) → On (Sent ep) w → Halfway w
    halfway w (e, inl m) = written e m
    halfway w (e, inr m) = told ep there e m

    answer_with-Applied :
        (found : Option (EndpointRow Json))
        → found ≡ some (with_status status ep)
        → Meets (On (Sent ep)) Halfway (answer_with platform found) Applied
    unfolding answer_with
    answer_with-Applied found e = rw e (
        Meets-option (platform.endpoint_to_value (with_status status ep)) _ _
          (λ e. Meets-fail _ halfway)
          λ v e. Meets-pure v λ w (c, m). record {
            device = ep;
            found = there;
            endpoints = c;
            messages = m;
            answer = e;
          })

    find-Sent :
        Meets
          (On (Sent ep))
          Halfway
          (find_by_id platform id)
          (λ found w. On (Sent ep) w × (found ≡ some (with_status status ep)))
    unfolding find_by_id
    find-Sent = Meets-statement platform _ halfway λ w (c, m).
        Yields-ok
          ((c, m), rw c (find-update (has_id id) (with_status status) rows ep (λ x. refl) there))

    set_status-Set : Meets (On Same) Halfway (set_status platform id status) (λ u. On Set)
    unfolding set_status
    set_status-Set =
        Meets-statement platform _ (λ w (e, m). untouched e m)
          λ w (e, m).
            Yields-bail _ _ _
              λ checked. Yields-ok (ap (update_where (has_id id) (with_status status)) e, m)

    set_and_send-Applied :
        (event_type : String)
        → Meets (On Same) Halfway (set_and_send platform ep id status event_type) Applied
    unfolding set_and_send send
    set_and_send-Applied event_type = Meets-bind (Meets-asked set_status-Set) λ s.
        Meets-bind
          (Meets-asked (Meets-fails (Keeps-log Set platform _ _ _ _) λ w (e, m). written e m))
          λ l.
            Meets-bind
              (Meets-asked (
                Meets-weaken
                  (Meets-fails
                    (Meets-publish {P = On Set} {X = On (Sent ep)} platform (command_for ep status)
                      (λ w (e, m). (e, inl m))
                      λ w (e, m). (e, inr (ap (λ b. b ++ command_for ep status ∷ []) m)))
                    halfway)
                  (λ w p. p) λ u w q. q))
              λ p.
                Meets-bind (Meets-asked find-Sent)
                  λ updated. Meets-fact λ e. answer_with-Applied updated e

  find-Same :
      Meets
        (On Same)
        Halfway
        (find_by_id platform id)
        (λ found w. On Same w × (find (has_id id) rows ≡ found))
  unfolding find_by_id
  find-Same =
      Meets-statement platform _ (λ w (e, m). untouched e m)
        λ w (e, m). Yields-ok ((e, m), ap (find (has_id id)) (sym e))

  update-Applied :
      (event_type : String)
      → Meets (On Same) Halfway (update_endpoint_status platform id status event_type) Applied
  unfolding update_endpoint_status
  update-Applied event_type = Meets-bind (Meets-asked find-Same) λ found. Meets-fact λ e.
      Meets-option found _ _ (λ e'. Meets-fail _ λ w (e, m). untouched e m)
        λ ep e'. set_and_send-Applied ep (e ∙ e') event_type

module _ {Json : Type 0} (platform : Platform Json) where
  -- A change of status over the API that succeeds finds the device and changes its status and
  -- nothing else of the devices; the answer is the new row, and at most one message is published:
  -- the command with the device's MAC address, its IP address without a prefix length, and the
  -- status as the action. One that fails leaves the devices and the messages as they were, or has
  -- written the status, with that message or without one.
  pub update_endpoint_status-Applied :
      (id : ℕ) (status event_type : String) (w : World Json)
      → let rows = w.tables.endpoints in
        Ends
          (Applied platform id status rows w.sent)
          (Halfway platform id status rows w.sent)
          (update_endpoint_status platform id status event_type w)
  update_endpoint_status-Applied id status event_type w =
      (update-Applied platform id status w.tables.endpoints w.sent event_type).at w (refl, refl)
