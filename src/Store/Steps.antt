-- ===== src/Store/Steps.antt =====
-- What holds after a statement of crates/nac-store and after a message is published.
use lentropy.Common.{
  ℕ, suc, Bool, true, false, Option, List, [], ◌∷◌, ◌++◌, Text, String, ◌≡◌, refl, if_lem,
}
use lentropy.Outcome.{Outcome, ok, err, panic, timeout, bail_if, ◌>>=◌, ◌>>◌}
use lentropy.Exec.Triples.{Ends, Meets, Keeps, Meets-bind, Keeps-lift}
use lentropy.Store.Endpoint.{EndpointRow}
use lentropy.Store.Posture.{PostureReport}
use lentropy.Store.Database.{
  Platform, Tables, World, StoreError, SessionRow, Message, Value, statement, cast, settle, publish,
}
use lentropy.Store.Endpoints.{find_by_mac, find_by_id}
use lentropy.Store.Sessions.{CreateSession, create, transition, terminate, find_active_by_endpoint}
use lentropy.Store.Sessions
use lentropy.Store.Logs.{log, save}
use lentropy.Store.Policies.{load_rules}

abbrev pub Yielded : {E A : Type 0} → (A → Type 0) → Outcome E A → Type 0
Yielded Q (ok a) = Q a
Yielded Q (err e) = Unit
Yielded Q panic = Unit
Yielded Q timeout = Unit

-- A result has the property.
pub record Yields {E A : Type 0} (Q : A → Type 0) (m : Outcome E A) : Type 0 where
  pub at : Yielded Q m

module _ {E B : Type 0} {Q : B → Type 0} where
  pub Yields-ok : {b : B} → Q b → Yields {E = E} Q (ok b)
  Yields-ok h = record { at = h }

  pub Yields-bail :
      (b : Bool) (e : E) (m : Outcome E B) → (b ≡ false → Yields Q m) → Yields Q (bail_if b e >> m)
  unfolding bail_if
  Yields-bail true e m h = record { at = tt }
  Yields-bail false e m h = h refl

  pub Yields-bind :
      {A : Type 0} (m : Outcome E A) (f : A → Outcome E B)
      → ((a : A) → m ≡ ok a → Yields Q (f a))
      → Yields Q (m >>= f)
  Yields-bind (ok a) f h = h a refl
  Yields-bind (err e) f h = record { at = tt }
  Yields-bind panic f h = record { at = tt }
  Yields-bind timeout f h = record { at = tt }

module _ {Json : Type 0} where
  abbrev pub called : World Json → World Json
  called w = record w { calls = suc w.calls }

  module _ {A : Type 0} (platform : Platform Json) (X : World Json → Type 0)
      (Q : A → World Json → Type 0) where
    settle-Ends :
        (w : World Json) (r : Outcome StoreError (A × Tables Json))
        → X w
        → Yields (λ (a, t). Q a (record w { tables = t })) r
        → Ends Q X (settle platform w r)
    settle-Ends w (ok (a, t)) x h = h.at
    settle-Ends w (err e) x h = x
    settle-Ends w panic x h = x
    settle-Ends w timeout x h = x

  module _ {A : Type 0} {P X : World Json → Type 0} {Q : A → World Json → Type 0}
      (platform : Platform Json) where
    pub Meets-statement :
        (f : ℕ → Tables Json → Outcome StoreError (A × Tables Json))
        → ((w : World Json) → P w → X (called w))
        → ((w : World Json)
            → P w
            → Yields (λ (a, t). Q a (record (called w) { tables = t })) (f w.calls w.tables))
        → Meets P X (statement platform f) Q
    unfolding statement
    Meets-statement f fails works = record {
      at = λ w p.
          if_lem (Ends Q X) (platform.answers w.calls) _ _
            (λ b. settle-Ends platform X Q (called w) _ (fails w p) (works w p)) (λ b. fails w p);
    }

-- What is said of the endpoints, the sessions and the messages stays true while statements leave
-- these as they are.
module _ {Json : Type 0}
    (I : List (EndpointRow Json) → List SessionRow → List Message → Type 0) where
  abbrev pub On : World Json → Type 0
  On w = I w.tables.endpoints w.tables.sessions w.sent

  module _ (platform : Platform Json) where
    pub Keeps-statement :
        {A : Type 0} (f : ℕ → Tables Json → Outcome StoreError (A × Tables Json))
        → ((n : ℕ) (t : Tables Json) (sent : List Message)
            → I t.endpoints t.sessions sent
            → Yields (λ (a, t'). I t'.endpoints t'.sessions sent) (f n t))
        → Keeps On (statement platform f)
    Keeps-statement f h = Meets-statement platform f (λ w p. p) λ w p. h w.calls w.tables w.sent p

    pub Keeps-log :
        (event_type : String) (endpoint_id : Option ℕ) (actor : Text)
        (detail : List (String × Value))
        → Keeps On (log platform event_type endpoint_id actor detail)
    unfolding log
    Keeps-log event_type endpoint_id actor detail =
        Keeps-statement _ λ n t sent p. Yields-bail _ _ _ λ _. Yields-ok p

    pub Keeps-save :
        (endpoint_id : ℕ) (report : PostureReport) (is_compliant : Bool)
        → Keeps On (save platform endpoint_id report is_compliant)
    unfolding save
    Keeps-save endpoint_id report is_compliant = Meets-bind (Keeps-lift _) λ sw.
        Meets-bind (Keeps-lift _)
          λ patches. Keeps-statement _ λ n t sent p. Yields-bail _ _ _ λ _. Yields-ok p

    pub Keeps-load_rules : Keeps On (load_rules platform)
    unfolding load_rules
    Keeps-load_rules = Meets-bind (Keeps-statement _ λ n t sent p. Yields-ok p) λ rows. Keeps-lift _

    pub Keeps-find_by_mac : (mac : Text) → Keeps On (find_by_mac platform mac)
    unfolding find_by_mac
    Keeps-find_by_mac mac =
        Keeps-statement _ λ n t sent p. Yields-bind (cast platform.macaddr mac) _ λ m e. Yields-ok p

    pub Keeps-find_by_id : (id : ℕ) → Keeps On (find_by_id platform id)
    unfolding find_by_id
    Keeps-find_by_id id = Keeps-statement _ λ n t sent p. Yields-ok p

    pub Keeps-find_active_by_endpoint : (id : ℕ) → Keeps On (find_active_by_endpoint platform id)
    unfolding find_active_by_endpoint
    Keeps-find_active_by_endpoint id = Keeps-statement _ λ n t sent p. Yields-ok p

    pub Keeps-find_session : (id : ℕ) → Keeps On (Sessions.find_by_id platform id)
    unfolding lentropy.Store.Sessions.find_by_id
    Keeps-find_session id = Keeps-statement _ λ n t sent p. Yields-ok p

-- The same where nothing is said of the sessions.
module _ {Json : Type 0} (I : List (EndpointRow Json) → List Message → Type 0) where
  abbrev pub OnEndpoints : World Json → Type 0
  OnEndpoints w = I w.tables.endpoints w.sent

  module _ (platform : Platform Json) where
    pub Keeps-create : (s : CreateSession) → Keeps OnEndpoints (create platform s)
    unfolding create
    Keeps-create s =
        Keeps-statement (λ e s m. I e m) platform _ λ n t sent p. Yields-bail _ _ _ λ _. Yields-ok p

    pub Keeps-transition :
        (id : ℕ) (state : String) (username : Option Text)
        → Keeps OnEndpoints (transition platform id state username)
    unfolding transition
    Keeps-transition id state username =
        Keeps-statement (λ e s m. I e m) platform _ λ n t sent p. Yields-bail _ _ _ λ _. Yields-ok p

    pub Keeps-terminate : (id : ℕ) → Keeps OnEndpoints (terminate platform id)
    unfolding terminate
    Keeps-terminate id = Keeps-statement (λ e s m. I e m) platform _ λ n t sent p. Yields-ok p

-- What is said of the tables stays true when a message is published.
module _ {Json : Type 0} {P X : World Json → Type 0} (platform : Platform Json) where
  pub Meets-publish :
      (m : Message)
      → ((w : World Json) → P w → X (called w))
      → ((w : World Json) → P w → X (record (called w) { sent = w.sent ++ m ∷ [] }))
      → Meets P X (publish platform m) (λ _. X)
  unfolding publish
  Meets-publish m lost taken = record {
    at = λ w p.
        if_lem (Ends (λ _. X) X) (platform.takes w.calls) _ _ (λ b. taken w p) (λ b. lost w p);
  }
