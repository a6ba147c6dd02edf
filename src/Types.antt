-- ===== src/Types.antt =====
-- src/types.rs: identifiers and the pair of addresses that a transport is known by, with the two
-- records of the libraries std and retty that the code takes apart field by field.
use sfu.Prelude.{ℕ, Option, ◌≡◌, ◌↔◌, Bool, true, ◌&&◌, PartialEq, ◌==◌, nat_eq, arith, Text}

abbrev pub SessionId : Type 0
SessionId = ℕ  -- u64

abbrev pub EndpointId : Type 0
EndpointId = ℕ  -- u64

abbrev pub UserName : Type 0
UserName = Text

abbrev pub Mid : Type 0
Mid = Text

-- An instant and a duration, in any unit that is fine enough.
abbrev pub Instant : Type 0
Instant = ℕ

-- std::net::SocketAddr: an address is a number.
pub record SocketAddr : Type 0 where
  pub ip : ℕ
  pub port : ℕ

pub record FourTuple : Type 0 where
  pub local_addr : SocketAddr
  pub peer_addr : SocketAddr

-- retty::transport::TransportContext
pub record TransportContext : Type 0 where
  pub local_addr : SocketAddr
  pub peer_addr : SocketAddr
  pub ecn : Option ℕ

-- impl From<&TransportContext> for FourTuple
abbrev pub four_tuple : TransportContext → FourTuple
four_tuple value = record { local_addr = value.local_addr; peer_addr = value.peer_addr }

-- The derived `PartialEq` of the keys.
abbrev pub addr_beq : SocketAddr → SocketAddr → Bool
addr_beq a b = (a.ip == b.ip) && (a.port == b.port)

pub addr_beq_iff : (a b : SocketAddr) → (addr_beq a b ≡ true) ↔ (a ≡ b)
addr_beq_iff a b = ground arith

abbrev pub tuple_beq : FourTuple → FourTuple → Bool
tuple_beq a b = addr_beq a.local_addr b.local_addr && addr_beq a.peer_addr b.peer_addr

pub tuple_beq_iff : (a b : FourTuple) → (tuple_beq a b ≡ true) ↔ (a ≡ b)
tuple_beq_iff a b = ground arith

instance abbrev pub tuple_eq : PartialEq FourTuple
tuple_eq = record { equal = tuple_beq; equal_iff = tuple_beq_iff }
