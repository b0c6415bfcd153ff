-- ===== src/Topic.antt =====
-- pubsuber/src/TopicImpl.h and TopicImpl.cpp.
pub mod Calls
pub mod Answers
mod Tests
use pubsuber.Base.{
  ℕ, List, [], ◌∷◌, Bytes, text, Bool, true, false, Option, none, some, length, ◌==◌, if◌then◌else◌,
}
use pubsuber.Containers.{Map, emplace}
use pubsuber.Double.{Float}
use pubsuber.Io.{
  StatusCode, Status, Exception, PubsubMessage, Request, get_topic, create_topic, delete_topic,
  publish, World, Outcome, returned, threw, blocked, terminated, Act, ◌>>=◌, ◌>>◌, pure, throw,
  plain, on_status, ensure_connected,
}
use pubsuber.Retriable.{Policies, CallResult, make_call}

-- `mutable_attributes()` of the new message, as it is filled; an empty key is refused.
unfoldable pub copy_attributes : Map Bytes → Map Bytes → Act World (Map Bytes)
copy_attributes attrs [] w = returned attrs w
copy_attributes attrs (([], v) ∷ rest) w =
    threw (plain (text "Pubsuber: attribute key must not be empty")) w
copy_attributes attrs ((c ∷ k, v) ∷ rest) w = copy_attributes (emplace (c ∷ k) v attrs) rest w

unfoldable pub first_id : List Bytes → Act World Bytes
first_id [] = throw (
    plain
      (text "Pubsuber: received response.message_ids_size() is 0, no msg id to return to caller."))
first_id (id ∷ ids) = pure id

-- The `switch` over a status: its two special cases, and an exception with the text else.
abbrev pub on_code :
    {A : Type 0} → StatusCode → Act World A → Act World A → Act World A → Act World A
on_code StatusCode.ok on_ok on_missing otherwise = on_ok
on_code StatusCode.not_found on_ok on_missing otherwise = on_missing
on_code _ on_ok on_missing otherwise = otherwise

module _ (fl : Float) where
  pub record TopicImpl : Type 0 where
    pub id : Bytes
    pub full_name : Bytes
    pub policies : Policies fl

  -- `EnsureConnected`, whose result is not looked at, and the call.
  unfoldable pub call_topic : TopicImpl → Request → Act World CallResult
  call_topic t request = do ensure_connected >>= λ c. make_call fl request t.policies

  unfoldable pub exists : TopicImpl → Act World Bool
  unfolding call_topic
  exists t = do
    r ← call_topic t (get_topic t.full_name)
    on_code r.status.error_code (pure true) (pure false)
        (throw (on_status (text "Pubsuber: GetTopicRequest request failed with error ") r.status))

  unfoldable pub create : TopicImpl → Act World (Unit {0})
  unfolding call_topic
  create t = do
    r ← call_topic t (create_topic t.full_name)
    let error = on_status (text "Pubsuber: CreateTopic request failed with error ") r.status
    on_code r.status.error_code (pure tt) (throw error) (throw error)

  -- A topic that is not found is no error.
  unfoldable pub delete : TopicImpl → Act World (Unit {0})
  unfolding call_topic
  delete t = do
    r ← call_topic t (delete_topic t.full_name)
    on_code r.status.error_code (pure tt) (pure tt)
        (throw (on_status (text "Pubsuber: DeleteTopic request failed with error ") r.status))

  unfoldable pub publish_message : TopicImpl → Bytes → Map Bytes → Act World Bytes
  unfolding call_topic copy_attributes first_id
  publish_message t buffer attributes = do
    attrs ← copy_attributes [] attributes
    r ← call_topic t (publish t.full_name (record { payload = buffer; attributes = attrs }))
    let error = on_status (text "Pubsuber: Publish request failed with error ") r.status
    on_code r.status.error_code (first_id r.response.message_ids) (throw error) (throw error)
