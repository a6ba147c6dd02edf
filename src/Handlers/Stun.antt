-- ===== src/Handlers/Stun.antt =====
-- src/handlers/stun.rs and exception.rs: STUN messages are decoded on the way in and encoded on the
-- way out; errors and messages go through the last handler as they are.
use sfu.Prelude.{Option, none, some, List, [], ◌∷◌}
use sfu.Prelude.Results.{Error, ok, err}
use sfu.Crates.{Crates}
use sfu.Messages.{TaggedMessageEvent, stun, StunMessageEvent}

-- What a handler fires: messages by `ctx.fire_read`, errors by `ctx.fire_exception`.
pub record Fired (c : Crates) : Type 0 where
  pub reads : List (TaggedMessageEvent c)
  pub exceptions : List Error

abbrev pub fire_exception : (c : Crates) → Error → Fired c
fire_exception c e = record { reads = []; exceptions = e ∷ [] }

abbrev pub fire_nothing : (c : Crates) → Fired c
fire_nothing c = record { reads = []; exceptions = [] }

-- ExceptionHandler::handle_exception
unfoldable pub handle_exception : (c : Crates) → Error → Fired c
handle_exception c e = fire_exception c e

module _ {c : Crates} where
  abbrev pub fire_read : TaggedMessageEvent c → Fired c
  fire_read msg = record { reads = msg ∷ []; exceptions = [] }

  unfoldable pub handle_read : TaggedMessageEvent c → Fired c
  handle_read msg = elim msg.message [
    | stun m ↦ elim m [
      | StunMessageEvent.raw bytes ↦ elim (c.stun_decode bytes) [
        | ok decoded ↦ fire_read (record msg { message = stun (StunMessageEvent.message decoded) })
        | err e ↦ fire_exception c e
      ]
      | _ ↦ fire_read msg
    ]
    | _ ↦ fire_read msg
  ]

  -- On what `ctx.fire_poll_write` returns.
  unfoldable pub poll_write : Option (TaggedMessageEvent c) → Option (TaggedMessageEvent c)
  poll_write none = none
  poll_write (some msg) = elim msg.message [
    | stun m ↦ elim m [
      | StunMessageEvent.message decoded ↦
          some (record msg { message = stun (StunMessageEvent.raw (c.stun_encode decoded)) })
      | _ ↦ some msg
    ]
    | _ ↦ some msg
  ]

  -- ExceptionHandler
  unfoldable pub exception_read : TaggedMessageEvent c → Fired c
  exception_read msg = fire_read msg

  unfoldable pub exception_poll_write :
      Option (TaggedMessageEvent c) → Option (TaggedMessageEvent c)
  exception_poll_write upstream = upstream
