-- ===== src/Interceptor.antt =====
-- src/interceptors/mod.rs and src/interceptors/report: the chain of interceptors of an endpoint.
pub mod Stream
pub mod Slots
pub mod Arrivals
pub mod Gaps
pub mod Loss
pub mod Chain
pub mod Forwarding
pub mod Timers
use sfu.Prelude.{ℕ, Bool, true, false, Option, none, some, List, [], ◌∷◌, ◌++◌}
use sfu.Prelude.HashMap.{HashMap}
use sfu.Crates.{Crates}
use sfu.Types.{Instant}
use Stream.{ReceiverStream}

-- `Box<dyn Interceptor>`, with the `next` that `chain` sets as the last argument.
pub data Interceptor (c : Crates) : Type 0 where
  no_op : Interceptor c
  sender_report : Interceptor c → Interceptor c
  receiver_report : ℕ → Instant → HashMap ℕ (ReceiverStream c) → Interceptor c → Interceptor c

pub record ReportBuilder : Type 0 where
  pub is_rr : Bool
  pub interval : Option ℕ

abbrev pub Registry : Type 0
Registry = List ReportBuilder

-- `self.builders.push(builder)`
unfoldable pub add : Registry → ReportBuilder → Registry
add self builder = self ++ builder ∷ []

module _ {c : Crates} (clock : Instant) where
  -- ReportBuilder::build, then chain(next).
  unfoldable pub build_chained : ReportBuilder → Interceptor c → Interceptor c
  build_chained b next = elim b.is_rr [
    | true ↦ receiver_report (elim b.interval [ none ↦ c.from_secs 1 | some i ↦ i ]) clock [] next
    | false ↦ sender_report next
  ]

  -- Registry::build: from the last builder to the first, each before the chain so far.
  unfoldable pub build : Registry → Interceptor c
  unfolding build_chained
  build [] = no_op
  build (b ∷ bs) = build_chained b (build bs)
