-- ===== src/Handlers/Sctp/Ends.antt =====
-- The loops of src/handlers/sctp.rs that poll the associations of a transport come to an end.
use sfu.Prelude.{
  ℕ, zero, suc, ◌+◌, ◌≡◌, ◌≤◌, ◌<◌, refl, Option, none, some, List, [], ◌∷◌, ◌++◌, inl, inr, arith,
  Option-cases,
}
use sfu.Prelude.HashMap.{HashMap}
use sfu.Prelude.Results.{Result, Result-cases, ok, err, ◌>>=◌}
use sfu.Crates.{Crates, SctpEvent, readable}
use sfu.Types.{Instant}
use sfu.Handlers.Sctp.Read.{
  Polled, SctpMessage, Events, before, inbound_message, and_then, read_stream, handle_stream_event,
  poll_events, handle_event, read_associations,
}

-- An association gives out what it holds: an event that is polled, and a message that is read, leaves
-- less behind, and to open a stream adds nothing.
pub record Drains (c : Crates) : Type 0 where
  pub size : c.Association → ℕ
  pub poll_lowers :
      (conn : c.Association) (e : SctpEvent)
      → (c.association_poll conn).0 ≡ some e
      → size (c.association_poll conn).1 < size conn
  pub poll_none_keeps :
      (conn : c.Association)
      → (c.association_poll conn).0 ≡ none
      → size (c.association_poll conn).1 ≤ size conn
  pub open_keeps : (id : ℕ) (conn : c.Association) → size (c.open_stream id conn).1 ≤ size conn
  pub read_keeps : (id : ℕ) (conn : c.Association) → size (c.read_sctp id conn).1 ≤ size conn
  pub read_lowers :
      (id : ℕ) (conn : c.Association) (chunks : c.Chunks)
      → (c.read_sctp id conn).0 ≡ ok (some chunks)
      → size (c.read_sctp id conn).1 < size conn

module _ (c : Crates) (d : Drains c) where
  open d use {size}

  -- The loop gives a result, and an association that holds no more than before.
  pub record Returns (bound : ℕ) (p : Polled c) : Type 0 where
    pub result : Result (List SctpMessage)
    pub conn : c.Association
    pub returns : p ≡ some (result, conn)
    pub held : size conn ≤ bound

  Returns-before :
      (ms : List SctpMessage) (b n : ℕ) (p : Polled c)
      → Returns n p
      → n ≤ b
      → Returns b (before c ms p)
  Returns-before ms b n p r h = record {
    result = r.result >>= λ ns. ok (ms ++ ns);
    conn = r.conn;
    returns = rw r.returns refl;
    held = omega (arith, r.held);
  }

  Returns-up : (n b : ℕ) (p : Polled c) → n ≤ b → Returns n p → Returns b p
  Returns-up n b p h r = record {
    result = r.result;
    conn = r.conn;
    returns = r.returns;
    held = omega (arith, r.held);
  }

  read_stream-Returns :
      (fuel length ch id : ℕ) (conn : c.Association)
      → size conn < fuel
      → Returns (size conn) (read_stream c fuel length ch id conn)
  unfolding read_stream
  read_stream-Returns zero length ch id conn h = absurd (omega arith)
  read_stream-Returns (suc fuel) length ch id conn h = elim (Result-cases (c.read_sctp id conn).0) [
    | inl (e, k) ↦ record {
      result = err e;
      conn = (c.read_sctp id conn).1;
      returns = rw (read_stream, k) refl;
      held = d.read_keeps id conn;
    }
    | inr (found, k) ↦ elim (Option-cases found) [
      | inl n ↦ record {
        result = ok [];
        conn = (c.read_sctp id conn).1;
        returns = rw (read_stream, k, n) refl;
        held = d.read_keeps id conn;
      }
      | inr (chunks, n) ↦
          let less = d.read_lowers id conn chunks (rw n at k) in
          elim (Result-cases (c.chunks_read length chunks)) [
            | inl (e, m) ↦ record {
              result = err e;
              conn = (c.read_sctp id conn).1;
              returns = rw (read_stream, k, n, m) refl;
              held = d.read_keeps id conn;
            }
            | inr (payload, m) ↦
                let rest =
                  read_stream-Returns fuel length ch id (c.read_sctp id conn).1 (omega arith) in
                rw (read_stream, k, n, m)
                  (Returns-before (inbound_message c ch id chunks payload ∷ []) (size conn) _ _ rest
                    (omega arith))
          ]
    ]
  ]

  handle_stream_event-Returns :
      (fuel length ch : ℕ) (e : SctpEvent) (conn : c.Association)
      → size conn < fuel
      → Returns (size conn) (handle_stream_event c fuel length ch e conn)
  unfolding handle_stream_event
  handle_stream_event-Returns fuel length ch SctpEvent.other conn h = record {
    result = ok [];
    conn = conn;
    returns = refl;
    held = omega arith;
  }
  handle_stream_event-Returns fuel length ch (readable id) conn h =
      elim (Result-cases (c.open_stream id conn).0) [
        | inl (e, k) ↦ record {
          result = err e;
          conn = (c.open_stream id conn).1;
          returns = rw (handle_stream_event, k) refl;
          held = d.open_keeps id conn;
        }
        | inr (u, k) ↦
            let keep = d.open_keeps id conn in
            let r = read_stream-Returns fuel length ch id (c.open_stream id conn).1 (omega arith) in
            rw (handle_stream_event, k)
              (record {
                result = r.result;
                conn = r.conn;
                returns = r.returns;
                held = omega (arith, r.held);
              })
      ]

  and_then-Returns :
      (b : ℕ) (p : Polled c) (rest : c.Association → Polled c)
      → Returns b p
      → ((conn : c.Association) → size conn ≤ b → Returns b (rest conn))
      → Returns b (and_then c p rest)
  unfolding and_then
  and_then-Returns b none rest r go = absurd (let e = r.returns in ground arith)
  and_then-Returns b (some (err e, conn)) rest r go = record {
    result = err e;
    conn = conn;
    returns = refl;
    held = let e = r.returns in ground (arith, r.held);
  }
  and_then-Returns b (some (ok ms, conn)) rest r go =
      Returns-before ms b b (rest conn) (go conn (let e = r.returns in ground (arith, r.held)))
        (omega arith)

  poll_events-Returns :
      (fuel length ch : ℕ) (conn : c.Association)
      → size conn < fuel
      → Returns (size conn) (poll_events c fuel length ch conn)
  unfolding poll_events
  poll_events-Returns zero length ch conn h = absurd (omega arith)
  poll_events-Returns (suc fuel) length ch conn h =
      elim (Option-cases (c.association_poll conn).0) [
        | inl k ↦ record {
          result = ok [];
          conn = (c.association_poll conn).1;
          returns = rw (poll_events, k) refl;
          held = d.poll_none_keeps conn k;
        }
        | inr (e, k) ↦
            let less = d.poll_lowers conn e k in
            let b = size (c.association_poll conn).1 in
            let first =
              handle_stream_event-Returns fuel length ch e (c.association_poll conn).1
                (omega arith) in
            rw (poll_events, k)
              (Returns-up b (size conn) _ (omega arith) (
                and_then-Returns b
                  (handle_stream_event c fuel length ch e (c.association_poll conn).1)
                  (λ a. poll_events c fuel length ch a) first
                  (λ a m.
                    let r = poll_events-Returns fuel length ch a (omega arith) in
                    Returns-up (size a) b _ m r)))
      ]

  -- One unit of fuel more than each association holds, for all of them together.
  unfoldable pub enough_for : Option (ℕ × c.SctpAssociationEvent) → HashMap ℕ c.Association → ℕ
  unfolding handle_event
  enough_for event [] = 0
  enough_for event ((ch, conn) ∷ rest) =
      suc (size (handle_event c event ch conn)) + enough_for event rest

  pub read_associations-Returns :
      (fuel length : ℕ) (now : Instant) (event : Option (ℕ × c.SctpAssociationEvent))
      (conns : HashMap ℕ c.Association)
      → enough_for event conns ≤ fuel
      → (x : Result (List SctpMessage × Events c) × HashMap ℕ c.Association) × (read_associations c
            fuel length now event conns
          ≡ some x)
  unfolding read_associations enough_for
  read_associations-Returns fuel length now event [] h = ((ok ([], []), []), refl)
  read_associations-Returns fuel length now event ((ch, conn) ∷ rest) h =
      let (x, e) = read_associations-Returns fuel length now event rest (omega arith) in
      let r = poll_events-Returns fuel length ch (handle_event c event ch conn) (omega arith) in
      elim (Option-cases (read_associations c fuel length now event ((ch, conn) ∷ rest))) [
        | inr found ↦ found
        | inl k ↦ absurd (elim (Result-cases r.result) [
          | inl (y, q) ↦ let k' = rw (read_associations, r.returns, q) at k in ground arith
          | inr (ms, q) ↦ let k' = rw (read_associations, r.returns, q, e) at k in ground arith
        ])
      ]
