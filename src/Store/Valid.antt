-- ===== src/Store/Valid.antt =====
-- What the tables of crates/nac-store promise, beside their types: statuses and states of the
-- CHECKs, no MAC address and no id twice, and sessions of endpoints that exist.
pub mod Writes
use native.Mathlib.Omega.{arith}
use lentropy.Common.{
  ℕ, Bool, true, false, ◌||◌, Option, none, some, List, [], ◌∷◌, ◌++◌, Text, text_eq, ◌==◌,
  if◌then◌else◌, if_lem, any, find, map, All, All-append, All-map, ◌≡◌, refl, ap, sym, ◌∙◌,
}
use lentropy.Store.Endpoint.{EndpointRow}
use lentropy.Store.Database.{SessionRow, Tables, is_status, is_state, update_where}
use lentropy.Store.Endpoints.{has_mac, has_id}

abbrev pub Distinct {ℓ} : {A : Type ℓ} → (A → A → Bool) → List A → Type 0
Distinct eq [] = Unit
Distinct eq (x ∷ xs) = (any (eq x) xs ≡ false) × Distinct eq xs

module _ {ℓ} {A : Type ℓ} where
  any-map {κ} :
      {B : Type κ} (p : B → Bool) (g : A → B) (xs : List A)
      → any p (map g xs) ≡ any (λ a. p (g a)) xs
  any-map p g [] = refl
  any-map p g (x ∷ xs) = ap (λ b. p (g x) || b) (any-map p g xs)

  find-none : (p : A → Bool) (xs : List A) → find p xs ≡ none → any p xs ≡ false
  find-none p [] e = refl
  find-none p (x ∷ xs) e =
      if_lem (λ o. o ≡ none → (p x || any p xs) ≡ false) (p x) _ _ (λ b e. absurd cc)
        (λ b e. rw (b, find-none p xs e) refl) e

  any-append : (p : A → Bool) (xs : List A) (x : A) → any p (xs ++ x ∷ []) ≡ any p xs || p x
  any-append p [] x = ground arith
  any-append p (y ∷ ys) x = rw (any-append p ys x) (ground arith)

  Distinct-append :
      (eq : A → A → Bool) (xs : List A) (x : A)
      → Distinct eq xs
      → any (λ y. eq y x) xs ≡ false
      → Distinct eq (xs ++ x ∷ [])
  Distinct-append eq [] x d h = (refl, tt)
  Distinct-append eq (y ∷ ys) x (h, d) k =
      (rw (any-append (eq y) ys x) (ground arith), Distinct-append eq ys x d (ground arith))

  pub map-update {κ} :
      {B : Type κ} (g : A → B) (p : A → Bool) (f : A → A) (xs : List A)
      → ((a : A) → g (f a) ≡ g a)
      → map g (update_where p f xs) ≡ map g xs
  map-update g p f [] h = refl
  map-update g p f (x ∷ xs) h =
      if_lem (λ y. g y ∷ map g (update_where p f xs) ≡ g x ∷ map g xs) (p x) (f x) x
        (λ b. rw (h x, map-update g p f xs h) refl) (λ b. ap (◌∷◌ (g x)) (map-update g p f xs h))

  pub map-append {κ} :
      {B : Type κ} (g : A → B) (xs : List A) (x : A) → map g (xs ++ x ∷ []) ≡ map g xs ++ g x ∷ []
  map-append g [] x = refl
  map-append g (y ∷ ys) x = ap (◌∷◌ (g y)) (map-append g ys x)

  pub All-update {κ} :
      {P : A → Type κ} (p : A → Bool) (f : A → A) (xs : List A)
      → ((a : A) → any p xs ≡ true → P a → P (f a))
      → All P xs
      → All P (update_where p f xs)
  All-update p f [] h k = tt
  All-update {P = P} p f (x ∷ xs) h (k, ks) = (
    if_lem P (p x) (f x) x (λ b. h x (ground arith) k) (λ b. k),
    All-update p f xs (λ a b. h a (ground arith)) ks,
  )

abbrev pub Refers : List ℕ → SessionRow → Type 0
Refers is s = any (λ i. i == s.endpoint_id) is ≡ true

module _ {Json : Type 0} where
  abbrev pub ids : List (EndpointRow Json) → List ℕ
  ids = map (λ r. r.id)

  abbrev pub macs : List (EndpointRow Json) → List Text
  macs = map (λ r. r.mac_address)

  pub record Valid (endpoints : List (EndpointRow Json)) (sessions : List SessionRow) : Type 0 where
    pub statuses : All (λ r. is_status r.status ≡ true) endpoints
    pub states : All (λ s. is_state s.state ≡ true) sessions
    pub distinct_macs : Distinct text_eq (macs endpoints)
    pub distinct_ids : Distinct ◌==◌ (ids endpoints)
    pub references : All (Refers (ids endpoints)) sessions

  abbrev pub IsValid : Tables Json → Type 0
  IsValid t = Valid t.endpoints t.sessions

  -- A change of endpoints that keeps their keys.
  pub endpoints_updated :
      (p : EndpointRow Json → Bool) (f : EndpointRow Json → EndpointRow Json)
      (endpoints : List (EndpointRow Json)) (sessions : List SessionRow)
      → ((r : EndpointRow Json) → (f r).id ≡ r.id)
      → ((r : EndpointRow Json) → (f r).mac_address ≡ r.mac_address)
      → ((r : EndpointRow Json)
          → any p endpoints ≡ true
          → is_status r.status ≡ true
          → is_status (f r).status ≡ true)
      → Valid endpoints sessions
      → Valid (update_where p f endpoints) sessions
  endpoints_updated p f endpoints sessions same_id same_mac good v =
      let is = map-update (λ r. r.id) p f endpoints same_id in
      let ms = map-update (λ r. r.mac_address) p f endpoints same_mac in
      record {
        statuses = All-update p f endpoints good v.statuses;
        states = v.states;
        distinct_macs = rw ms v.distinct_macs;
        distinct_ids = rw is v.distinct_ids;
        references = rw is v.references;
      }

  -- A new endpoint, whose keys are new.
  pub endpoint_added :
      (row : EndpointRow Json) (endpoints : List (EndpointRow Json)) (sessions : List SessionRow)
      → is_status row.status ≡ true
      → find (has_mac row.mac_address) endpoints ≡ none
      → any (has_id row.id) endpoints ≡ false
      → Valid endpoints sessions
      → Valid (endpoints ++ row ∷ []) sessions
  endpoint_added row endpoints sessions good new_mac new_id v =
      let is = map-append (λ r. r.id) endpoints row in
      let ms = map-append (λ r. r.mac_address) endpoints row in
      record {
        statuses = All-append _ endpoints _ v.statuses (good, tt);
        states = v.states;
        distinct_macs = rw ms (
            Distinct-append text_eq (macs endpoints) row.mac_address v.distinct_macs (
              any-map (λ m. text_eq m row.mac_address) (λ r. r.mac_address) endpoints
              ∙ find-none (has_mac row.mac_address) endpoints new_mac));
        distinct_ids = rw is (
            Distinct-append ◌==◌ (ids endpoints) row.id v.distinct_ids
              (any-map (λ i. i == row.id) (λ r. r.id) endpoints ∙ new_id));
        references = rw is (
            All-map sessions
              (λ s h. any-append (λ i. i == s.endpoint_id) (ids endpoints) row.id ∙ rw h refl)
              v.references);
      }

  -- A change of sessions that keeps the endpoint.
  pub sessions_updated :
      (p : SessionRow → Bool) (f : SessionRow → SessionRow) (endpoints : List (EndpointRow Json))
      (sessions : List SessionRow)
      → ((s : SessionRow) → (f s).endpoint_id ≡ s.endpoint_id)
      → ((s : SessionRow)
          → any p sessions ≡ true
          → is_state s.state ≡ true
          → is_state (f s).state ≡ true)
      → Valid endpoints sessions
      → Valid endpoints (update_where p f sessions)
  sessions_updated p f endpoints sessions same good v = record {
    statuses = v.statuses;
    states = All-update p f sessions good v.states;
    distinct_macs = v.distinct_macs;
    distinct_ids = v.distinct_ids;
    references = All-update p f sessions (λ s b h. rw (same s) h) v.references;
  }

  -- A new session of an endpoint that exists.
  pub session_added :
      (s : SessionRow) (endpoints : List (EndpointRow Json)) (sessions : List SessionRow)
      → is_state s.state ≡ true
      → any (has_id s.endpoint_id) endpoints ≡ true
      → Valid endpoints sessions
      → Valid endpoints (sessions ++ s ∷ [])
  session_added s endpoints sessions good known v = record {
    statuses = v.statuses;
    states = All-append _ sessions _ v.states (good, tt);
    distinct_macs = v.distinct_macs;
    distinct_ids = v.distinct_ids;
    references =
        All-append _ sessions _ v.references
          (any-map (λ i. i == s.endpoint_id) (λ r. r.id) endpoints ∙ known, tt);
  }
