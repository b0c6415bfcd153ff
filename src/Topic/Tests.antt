-- ===== src/Topic/Tests.antt =====
-- The theorem on pubsuber/src/TopicImpl.cpp for a text with one attribute.
use pubsuber.Retriable.Meanings.{exists_meaning, create_meaning, delete_meaning}
use pubsuber.Topic.{exists, create, delete}
use pubsuber.Topic.Answers.{Decided, topic_calls-Decided}
use pubsuber.Base.{[], ◌∷◌, text}
use pubsuber.Double.{fixed_point}
use pubsuber.Io.{After, World}
use pubsuber.Topic.{TopicImpl, publish_message}
use pubsuber.Topic.Calls.{Sent, Failed, publish-Publishes}
use pubsuber.Examples.{two_retries, world_of, ok_answers, tick}

abbrev topic : TopicImpl fixed_point
topic = record { id = text "t"; full_name = text "projects/p/topics/t"; policies = two_retries }

abbrev w : World
w = world_of ok_answers tick

publish-Publishes_example :
    After
      (Sent fixed_point topic (text "hello") ((text "k", text "v") ∷ []) w)
      (Failed fixed_point topic (text "hello") ((text "k", text "v") ∷ []) w)
      (publish_message fixed_point topic (text "hello") ((text "k", text "v") ∷ []) w)
publish-Publishes_example =
    publish-Publishes fixed_point topic (text "hello") ((text "k", text "v") ∷ []) w

topic_calls-Decided_example :
    Decided exists_meaning w.replies (exists fixed_point topic w)
    × Decided create_meaning w.replies (create fixed_point topic w)
    × Decided delete_meaning w.replies (delete fixed_point topic w)
topic_calls-Decided_example = topic_calls-Decided fixed_point topic w
