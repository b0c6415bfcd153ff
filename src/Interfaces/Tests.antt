-- ===== src/Interfaces/Tests.antt =====
-- The promises of `Topic` for a concrete `TopicImpl`.
use pubsuber.Base.{text}
use pubsuber.Double.{fixed_point}
use pubsuber.Topic.{TopicImpl}
use pubsuber.Interfaces.{IsTopic}
use pubsuber.Interfaces.Objects.{topic_of, topic_of-IsTopic}
use pubsuber.Examples.{two_retries}

abbrev topic : TopicImpl fixed_point
topic = record { id = text "t"; full_name = text "projects/p/topics/t"; policies = two_retries }

topic_of-IsTopic_example : IsTopic (λ w. w) (topic_of fixed_point topic)
topic_of-IsTopic_example = topic_of-IsTopic fixed_point topic
