-- ===== src/Signaling/Requests.antt =====
-- What the requests of the web come to (`remote_handler` of examples/async_signal/mod.rs), alone and together
-- with the media server that answers them.
use sfu.Prelude.{
  ◌⊎◌, ltb, length, ℕ, ◌≡◌, ◌≢◌, refl, inl, inr, Bool, true, false, Bool-cases, Option-cases,
  Option, none, some, List, [], ◌∷◌, Text, codes, In, arith, is_some, ◌==◌, nat_eq, list_eq,
  if◌then◌else◌,
}
use sfu.Prelude.HashMap.{HashMap, keys, get}
use sfu.Prelude.Strings.{split}
use sfu.Signaling.Ports.{port_for-In}
use sfu.Signaling.Routing.{
  Thread, Method, Outcome, Response, remote_handler, routed, bad_request, event_base, posted,
  segment, parse_u64, names_endpoint, with_endpoint, number, guarded, is_no_number,
  is_endpoint_route, with_body, by_method, is_page,
}

-- A key of a map has a value.
pub get_key {ℓ} :
    {V : Type ℓ} (k : ℕ) (m : HashMap ℕ V) → In k (keys m) → (v : V) × (get k m ≡ some v)
unfolding get
get_key k [] i = elim i [ ]
get_key k ((j, v) ∷ m) i = elim (Bool-cases (j == k)) [
  | inl t ↦ (v, rw (get, t) refl)
  | inr t ↦ elim i [
    | inl e ↦ absurd (ground (arith, nat_eq.equal_iff j k))
    | inr i' ↦ let (w, e) = get_key k m i' in (w, rw (get, t) e)
  ]
]

event_base-some :
    (p : ℕ) (tx : Thread) (m : HashMap ℕ Thread) (sid : ℕ)
    → (t : Thread) × (event_base ((p, tx) ∷ m) sid ≡ some t)
unfolding event_base
event_base-some p tx m sid =
    let (port, e, i) = port_for-In p (keys m) sid in
    let (t, found) = get_key port ((p, tx) ∷ m) i in (t, rw (event_base, e) found)

with_body-responds :
    (body : Option (List ℕ)) (f : List ℕ → Response)
    → with_body body (λ bytes. Outcome.responded (f bytes)) ≢ Outcome.panicked
with_body-responds none f = λ e. cc
with_body-responds (some bytes) f = λ e. cc

with_endpoint-responds :
    (path : List Text) (f : ℕ → Outcome)
    → is_some (number path 3) ≡ true
    → ((n : ℕ) → f n ≢ Outcome.panicked)
    → with_endpoint path f ≢ Outcome.panicked
unfolding with_endpoint
with_endpoint-responds path f h fine = elim (Option-cases (number path 3)) [
  | inl e ↦ absurd (cc)
  | inr (n, e) ↦ rw (with_endpoint, e) (fine n)
]

-- What the guard has found where it lets a request through: the first segment, a session, and an endpoint on
-- the routes that need one.
record Found (path : List Text) : Type 0 where
  name : Text
  sid : ℕ
  named : segment path 1 ≡ some name
  in_session : number path 2 ≡ some sid
  at_endpoint : names_endpoint name ≡ true → is_some (number path 3) ≡ true

-- On the routes that need an endpoint.
guard_decides_route :
    (x y z : Text) (rest : List Text) (sid : ℕ)
    → parse_u64 z ≡ some sid
    → names_endpoint y ≡ true
    → (bad_request (x ∷ y ∷ z ∷ rest) ≡ some true)
      ⊎ ((bad_request (x ∷ y ∷ z ∷ rest) ≡ some false) × Found (x ∷ y ∷ z ∷ rest))
unfolding bad_request is_no_number is_endpoint_route segment number
guard_decides_route x y z [] sid k route =
    inl (rw (bad_request, is_no_number, is_endpoint_route, k, route) refl)
guard_decides_route x y z (w ∷ rest) sid k route =
    let long : ltb (length (x ∷ y ∷ z ∷ w ∷ rest)) 3 ≡ false = ground arith in
    let longer : ltb (length (x ∷ y ∷ z ∷ w ∷ rest)) 4 ≡ false = ground arith in
    elim (Option-cases (parse_u64 w)) [
      | inl l ↦
          inl (rw (bad_request, is_no_number, is_endpoint_route, long, longer, k, route, l) refl)
      | inr (eid, l) ↦ inr (
        rw (bad_request, is_no_number, is_endpoint_route, long, longer, k, route, l) refl,
        record { name = y; sid = sid; named = refl; in_session = k; at_endpoint = λ h. rw l refl },
      )
    ]

-- On a path of three segments or more.
guard_decides_long :
    (x y z : Text) (rest : List Text)
    → (bad_request (x ∷ y ∷ z ∷ rest) ≡ some true)
      ⊎ ((bad_request (x ∷ y ∷ z ∷ rest) ≡ some false) × Found (x ∷ y ∷ z ∷ rest))
unfolding bad_request is_no_number is_endpoint_route segment number
guard_decides_long x y z rest =
    let long : ltb (length (x ∷ y ∷ z ∷ rest)) 3 ≡ false = ground arith in
    elim (Option-cases (parse_u64 z)) [
      | inl k ↦ inl (rw (bad_request, is_no_number, long, k) refl)
      | inr (sid, k) ↦ elim (Bool-cases (names_endpoint y)) [
        | inr free ↦ inr (
          rw (bad_request, is_no_number, is_endpoint_route, long, k, free) refl,
          record {
            name = y;
            sid = sid;
            named = refl;
            in_session = k;
            at_endpoint = λ h. absurd (cc);
          },
        )
        | inl route ↦ guard_decides_route x y z rest sid k route
      ]
    ]

-- The guard never looks at a segment that is not there.
guard_decides :
    (path : List Text)
    → (bad_request path ≡ some true) ⊎ ((bad_request path ≡ some false) × Found path)
unfolding bad_request is_no_number is_endpoint_route segment number
guard_decides [] = inl refl
guard_decides (x ∷ []) = inl refl
guard_decides (x ∷ y ∷ []) = inl refl
guard_decides (x ∷ y ∷ z ∷ rest) = guard_decides_long x y z rest

if-avoids :
    (b : Bool) (x y z : Outcome)
    → (b ≡ true → x ≢ z)
    → (b ≡ false → y ≢ z)
    → (if b then x else y) ≢ z
if-avoids true x y z f g = f refl
if-avoids false x y z f g = g refl

posted-responds :
    (path : List Text) (f : Found path) (body : Option (List ℕ)) (tx : Thread)
    → posted f.name path body tx f.sid ≢ Outcome.panicked
unfolding posted
posted-responds path f body tx =
    if-avoids (f.name == codes "join") _ _ _ (λ t e. cc)
      (λ t.
        if-avoids (f.name == codes "offer") _ _ _
          (λ t.
            with_endpoint-responds path _ (f.at_endpoint (ground arith))
              (λ n. with_body-responds body _))
          (λ t.
            if-avoids (f.name == codes "answer") _ _ _
              (λ t.
                with_endpoint-responds path _ (f.at_endpoint (ground arith))
                  (λ n. with_body-responds body _))
              (λ t.
                if-avoids (f.name == codes "leave") _ _ _
                  (λ t. with_endpoint-responds path _ (f.at_endpoint (ground arith)) (λ n e. cc))
                  (λ t e. cc))))

method-responds :
    (method : Method) (path : List Text) (f : Found path) (body : Option (List ℕ)) (tx : Thread)
    → by_method method f.name path body tx f.sid ≢ Outcome.panicked
unfolding by_method
method-responds Method.method_post path f body tx = posted-responds path f body tx
method-responds Method.method_get path f body tx = λ e. cc
method-responds Method.method_other path f body tx = λ e. cc

routed-responds :
    (p : ℕ) (tx : Thread) (m : HashMap ℕ Thread) (method : Method) (path : List Text)
    (body : Option (List ℕ))
    → routed ((p, tx) ∷ m) method path body ≢ Outcome.panicked
unfolding routed guarded
routed-responds p tx m method path body = elim (guard_decides path) [
  | inl refused ↦ rw (routed, refused) (λ e. cc)
  | inr (passed, f) ↦
      let (thread, found) = event_base-some p tx m f.sid in
      rw (routed, passed, guarded, f.in_session, found, f.named)
        (method-responds method path f body thread)
]

-- Where there is a media server, no request makes the task of the web server panic.
pub remote_handler_never_panics :
    (p : ℕ) (tx : Thread) (m : HashMap ℕ Thread) (page : Option (List ℕ)) (method : Method)
    (path : Text) (body : Option (List ℕ))
    → remote_handler ((p, tx) ∷ m) page method path body ≢ Outcome.panicked
unfolding remote_handler
remote_handler_never_panics p tx m page method path body =
    if-avoids (is_page method path) _ _ _ (λ t e. cc)
      (λ t. routed-responds p tx m method (split 47 path) body)
