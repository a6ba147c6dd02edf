-- ===== src/Interceptor/Timers.antt =====
-- The reports and the deadlines of the chain of src/interceptors.
use sfu.Prelude.{
  ℕ, ◌+◌, ◌≤◌, ◌<◌, ◌≡◌, refl, sym, ap, ◌∙◌, inl, inr, subst, Option-cases, List, [], ◌∷◌, arith,
  Bool-cases, leb, ltb, if◌then◌else◌,
}
use sfu.Prelude.HashMap.{adjust}
use sfu.Crates.{Crates}
use sfu.Types.{FourTuple, TransportContext, Instant}
use sfu.Messages.{TaggedMessageEvent, MessageEvent, stun, dtls, rtp, RtpMessageEvent}
use sfu.Interceptor.{
  Interceptor, no_op, sender_report, receiver_report, Registry, build, build_chained,
}
use sfu.Interceptor.Forwarding.{write_silent}
use sfu.Interceptor.Chain.{read, write, handle_timeout, poll_timeout, observe, observe_rtcp}

module _ {c : Crates} where
  -- No receiver report of the chain knows a stream.
  unfoldable pub NoStreams : Interceptor c → Type 0
  NoStreams no_op = Unit
  NoStreams (sender_report next) = NoStreams next
  NoStreams (receiver_report interval eto streams next) = (streams ≡ []) × NoStreams next

  observe_rtcp_empty :
      (now : Instant) (ps : List c.RtcpPacket) → observe_rtcp {c = c} now ps [] ≡ []
  unfolding observe_rtcp adjust
  observe_rtcp_empty now [] = refl
  observe_rtcp_empty now (p ∷ ps) = elim (Option-cases (c.as_sender_report p)) [
    | inl h ↦ rw h (observe_rtcp_empty now ps)
    | inr (sr, h) ↦ rw h (observe_rtcp_empty now ps)
  ]

  observe_message :
      (m : MessageEvent c) (now : Instant) (t : TransportContext)
      → observe (record { now = now; transport = t; message = m }) [] ≡ []
  unfolding observe adjust
  observe_message (stun m) now t = refl
  observe_message (dtls m) now t = refl
  observe_message (rtp (RtpMessageEvent.raw bytes)) now t = refl
  observe_message (rtp (RtpMessageEvent.packet p)) now t = refl
  observe_message (rtp (RtpMessageEvent.rtcp ps)) now t = observe_rtcp_empty now ps

  read-NoStreams :
      (msg : TaggedMessageEvent c) (i : Interceptor c) → NoStreams i → NoStreams (read msg i).1
  unfolding NoStreams read
  read-NoStreams msg no_op h = tt
  read-NoStreams msg (sender_report next) h = read-NoStreams msg next h
  read-NoStreams msg (receiver_report interval eto streams next) (e, h) = (
    ap (observe msg) e ∙ observe_message msg.message msg.now msg.transport,
    read-NoStreams msg next h,
  )

  handle_timeout-NoStreams :
      (now : Instant) (fts : List FourTuple) (i : Interceptor c)
      → NoStreams i
      → ((handle_timeout now fts i).0 ≡ []) × NoStreams (handle_timeout now fts i).1
  unfolding NoStreams handle_timeout
  handle_timeout-NoStreams now fts no_op h = (refl, tt)
  handle_timeout-NoStreams now fts (sender_report next) h = handle_timeout-NoStreams now fts next h
  handle_timeout-NoStreams now fts (receiver_report interval eto streams next) (e, h) =
      let (none_next, keep) = handle_timeout-NoStreams now fts next h in
      elim (Bool-cases (leb eto now)) [
        | inl d ↦ rw (d, e, none_next) (refl, (refl, keep))
        | inr d ↦ rw d (none_next, (e, keep))
      ]

-- What the calls of an endpoint make of its chain.
pub data Reaches {c : Crates} (i : Interceptor c) : Interceptor c → Type 0 where
  start : Reaches i i
  on_read :
      {j k : Interceptor c} (msg : TaggedMessageEvent c)
      → Reaches i j
      → (read msg j).1 ≡ k
      → Reaches i k
  on_write :
      {j k : Interceptor c} (msg : TaggedMessageEvent c)
      → Reaches i j
      → (write msg j).1 ≡ k
      → Reaches i k
  on_timeout :
      {j k : Interceptor c} (now : Instant) (fts : List FourTuple)
      → Reaches i j
      → (handle_timeout now fts j).1 ≡ k
      → Reaches i k

module _ {c : Crates} where
  Reaches-NoStreams : (i j : Interceptor c) → Reaches i j → NoStreams i → NoStreams j
  Reaches-NoStreams i _ start h = h
  Reaches-NoStreams i k (on_read msg r e) h =
      subst NoStreams e (read-NoStreams msg _ (Reaches-NoStreams i _ r h))
  Reaches-NoStreams i k (on_write msg r e) h =
      subst NoStreams (sym (ap (λ x. x.1) (write_silent msg _)) ∙ e) (Reaches-NoStreams i _ r h)
  Reaches-NoStreams i k (on_timeout now fts r e) h =
      subst NoStreams e (handle_timeout-NoStreams now fts _ (Reaches-NoStreams i _ r h)).1

build-NoStreams :
    (c : Crates) (clock : Instant) (bs : Registry) → NoStreams (build {c = c} clock bs)
unfolding NoStreams build build_chained
build-NoStreams c clock [] = tt
build-NoStreams c clock (b ∷ bs) = elim (Bool-cases b.is_rr) [
  | inl h ↦ rw h (refl, build-NoStreams c clock bs)
  | inr h ↦ rw h (build-NoStreams c clock bs)
]

-- A chain that a registry has built reports nothing, at whatever time and whatever it was asked before:
-- nothing makes a stream known to a receiver report.
pub handle_timeout_silent :
    (c : Crates) (clock now : Instant) (bs : Registry) (fts : List FourTuple) (i : Interceptor c)
    → Reaches (build {c = c} clock bs) i
    → (handle_timeout now fts i).0 ≡ []
handle_timeout_silent c clock now bs fts i r =
    (handle_timeout-NoStreams now fts i
      (Reaches-NoStreams (build clock bs) i r (build-NoStreams c clock bs))).0

-- A deadline of its own goes through to the next one as the earlier of two.
within :
    (now eto x : ℕ) (f : ℕ → ℕ)
    → ((e : ℕ) → now < e → (now < f e) × (f e ≤ e))
    → now < eto
    → now < x
    → (now < f (if ltb x eto then x else eto)) × (f (if ltb x eto then x else eto) ≤ eto)
within now eto x f after h g =
    let (low, high) = after (if ltb x eto then x else eto) (ground arith) in (low, ground arith)

module _ {c : Crates} where
  -- Every interval is at least one unit of time.
  unfoldable pub Ticking : Interceptor c → Type 0
  Ticking no_op = Unit
  Ticking (sender_report next) = Ticking next
  Ticking (receiver_report interval eto streams next) = (0 < interval) × Ticking next

  -- A deadline that has passed is not asked for again: where every interval is positive and the chain is
  -- given a deadline after `now`, it asks after `handle_timeout` for no time up to `now`, and for none after
  -- the one it is given.
  pub handle_timeout_later :
      (now eto : Instant) (fts : List FourTuple) (i : Interceptor c)
      → Ticking i
      → now < eto
      → (now < poll_timeout (handle_timeout now fts i).1 eto)
        × (poll_timeout (handle_timeout now fts i).1 eto ≤ eto)
  unfolding Ticking handle_timeout poll_timeout
  handle_timeout_later now eto fts no_op t h = (h, omega arith)
  handle_timeout_later now eto fts (sender_report next) t h =
      handle_timeout_later now eto fts next t h
  handle_timeout_later now eto fts (receiver_report interval own streams next) (p, t) h =
      let after = λ (e : ℕ). handle_timeout_later now e fts next t in
      elim (Bool-cases (leb own now)) [
        | inl d ↦ rw d (within now eto (now + interval) _ after h (omega arith))
        | inr d ↦ rw d (within now eto own _ after h (ground arith))
      ]
