-- ===== src/Message.antt =====
-- pubsuber/src/MessageImpl.h and MessageImpl.cpp: a received message, which is settled once.
pub mod Settled
pub mod Reaches
mod Tests
use pubsuber.Base.{ℕ, List, [], ◌∷◌, Bytes, Bool, false, Option, none, some, ◌&&◌, if◌then◌else◌}
use pubsuber.Containers.{Map, emplace}
use pubsuber.Double.{Float}
use pubsuber.Io.{PubsubMessage}
use pubsuber.ModAckIterator.{ModAckIterator, DoneAction, ack, nack, done}

-- `attached` is whether `_iterator` was not reset.
pub record MessageImpl : Type 0 where
  pub attached : Bool
  pub subscription_name : Bytes
  pub ack_id : Bytes
  pub attributes : Map Bytes
  pub msg : PubsubMessage
  pub receive_time : ℕ

copy_attributes : Map Bytes → Map Bytes → Map Bytes
copy_attributes [] attributes = attributes
copy_attributes ((k, v) ∷ from) attributes = copy_attributes from (emplace k v attributes)

-- The constructor; `iterator` is whether the weak pointer that it is given is set.
unfoldable pub create : Bool → Bytes → Bytes → PubsubMessage → ℕ → MessageImpl
unfolding copy_attributes
create iterator sub_name ack_id msg rt = record {
  attached = iterator;
  subscription_name = sub_name;
  ack_id = ack_id;
  attributes = copy_attributes msg.attributes [];
  msg = msg;
  receive_time = rt;
}

unfoldable pub payload : MessageImpl → Bytes
payload m = m.msg.payload

module _ (fl : Float) where
  -- A message with its iterator. `alive` is whether the iterator's owners still hold it.
  pub record Held : Type 0 where
    pub message : MessageImpl
    pub alive : Bool
    pub it : ModAckIterator fl

  unfoldable pub after_done : Held → Option (ModAckIterator fl) → Option Held
  after_done h none = none
  after_done h (some it) =
      some (record h { message = record h.message { attached = false }; it = it })

  -- `Ack()` and `Nack()` at the clock reading `now`; `none` is `std::terminate` in `Done`.
  unfoldable pub settle : DoneAction → ℕ → Held → Option Held
  unfolding after_done
  settle action now h =
      if h.message.attached && h.alive
      then after_done h (done fl h.message.ack_id h.message.receive_time now action h.it)
      else some h

  -- The destructor.
  unfoldable pub destroy : ℕ → Held → Option Held
  unfolding settle
  destroy now h = settle nack now h
