-- ===== src/Topic/Calls.antt =====
-- What the operations of pubsuber/src/TopicImpl.cpp send to the service.
use pubsuber.Base.{
  ◌⊎◌, inl, inr, text, subst, sym, ◌≡◌, refl, List, [], ◌∷◌, Bytes, none, arith, ◌≢◌,
}
use pubsuber.Containers.{Map, lookup, emplace}
use pubsuber.Containers.Maps.{lookup-emplace, or_else}
use pubsuber.Double.{Float}
use pubsuber.Io.{
  StatusCode, throw, on_status, Exception, Request, publish, World, returned, threw, blocked,
  terminated, Act, ◌>>=◌, After, Requested, ensure_connected,
}
use pubsuber.Io.Rules.{Holds-bind, Holds-mono}
use pubsuber.Retriable.{CallResult}
use pubsuber.Retriable.Spends.{Grown, Grown-refl, Grown-mono, make_call-Grown}
use pubsuber.Topic.{copy_attributes, on_code, first_id, TopicImpl, call_topic, publish_message}

-- The new attributes hold what was there, and else the user's; no key is empty.
copy_attributes-After :
    (attrs attributes : Map Bytes) (w : World)
    → After
        (λ new w'.
          (w' ≡ w)
          × (lookup [] attributes ≡ none)
          × ((k : Bytes) → lookup k new ≡ or_else (lookup k attrs) (lookup k attributes)))
        (λ e w'. (w' ≡ w) × (lookup [] attributes ≢ none))
        (copy_attributes attrs attributes w)
unfolding copy_attributes lookup
copy_attributes-After attrs [] w = (refl, refl, λ k. ground arith)
copy_attributes-After attrs (([], v) ∷ rest) w = (refl, λ e. ground arith)
copy_attributes-After attrs ((c ∷ k, v) ∷ rest) w =
    Holds-mono _ _ _ _ (Unit {0}) (copy_attributes (emplace (c ∷ k) v attrs) rest w)
      (copy_attributes-After (emplace (c ∷ k) v attrs) rest w)
      (λ new w' h.
        (h.0, ground arith, λ j. ground (arith, h.2 j, lookup-emplace (c ∷ k) j v attrs)))
      (λ e w' h. (h.0, ground arith))

first_id-Same :
    (ids : List Bytes) (w : World) → After (λ id w'. w' ≡ w) (λ e w'. w' ≡ w) (first_id ids w)
unfolding first_id
first_id-Same [] w = refl
first_id-Same (id ∷ ids) w = refl

module _ (fl : Float) where
  -- The request that publishes `buffer` with the attributes of the user.
  abbrev pub Publishes : TopicImpl fl → Bytes → Map Bytes → Request → Type 0
  Publishes t buffer attributes r =
      (attrs : Map Bytes) × (r
        ≡ publish t.full_name (record { payload = buffer; attributes = attrs }))
      × ((k : Bytes) → lookup k attrs ≡ lookup k attributes)

  -- The request was sent, and the key of no attribute is empty.
  abbrev pub Sent : TopicImpl fl → Bytes → Map Bytes → World → Bytes → World → Type 0
  Sent t buffer attributes w id w' =
      (lookup [] attributes ≡ none)
      × Grown (Publishes t buffer attributes) w w'
      × ((r : Request) × Publishes t buffer attributes r × Requested r w'.log)

  -- At most such requests were sent, and none if the key of an attribute is empty.
  abbrev pub Failed : TopicImpl fl → Bytes → Map Bytes → World → Exception → World → Type 0
  Failed t buffer attributes w e w' =
      Grown (Publishes t buffer attributes) w w' × ((lookup [] attributes ≡ none) ⊎ (w' ≡ w))

  -- What `Publish` does with the answer.
  abbrev publish_answer : CallResult → Act World Bytes
  publish_answer r =
      on_code r.status.error_code (first_id r.response.message_ids)
        (throw (on_status (text "Pubsuber: Publish request failed with error ") r.status))
        (throw (on_status (text "Pubsuber: Publish request failed with error ") r.status))

  -- The call starts from a channel that was waited for.
  pub call_topic-Grown :
      (t : TopicImpl fl) (request : Request) (w : World)
      → After
          (λ r w'. Grown (λ q. request ≡ q) w w' × Requested request w'.log)
          (λ e w'. Grown (λ q. request ≡ q) w w')
          (call_topic fl t request w)
  unfolding call_topic ensure_connected
  call_topic-Grown t request w =
      Holds-mono _ _ _ _ (Unit {0}) (call_topic fl t request w)
        (make_call-Grown fl request t.policies (connected w)) (λ r w' h. (again w' h.0, h.1))
        (λ e w' h. again w' h)
    where
      connected : World → World
      connected w = elim (ensure_connected w) [
        | returned c w' ↦ w'
        | threw e w' ↦ w'
        | blocked ↦ w
        | terminated ↦ w
      ]

      again :
          (w' : World) → Grown (λ q. request ≡ q) (connected w) w' → Grown (λ q. request ≡ q) w w'
      again w' g = record {
        keeps = g.keeps;
        only = g.only;
        spent = g.spent;
        same_clock = g.same_clock;
      }

  on_published :
      (r : CallResult) (w : World)
      → After
          (λ id w'. w' ≡ w)
          (λ e w'. w' ≡ w)
          (on_code r.status.error_code
            (first_id r.response.message_ids)
            (throw (on_status (text "Pubsuber: Publish request failed with error ") r.status))
            (throw (on_status (text "Pubsuber: Publish request failed with error ") r.status))
            w)
  on_published r w =
      elim r.status.error_code
        as (λ c.
          After (λ id w'. w' ≡ w) (λ e w'. w' ≡ w)
            (on_code c (first_id r.response.message_ids)
              (throw (on_status (text "Pubsuber: Publish request failed with error ") r.status))
              (throw (on_status (text "Pubsuber: Publish request failed with error ") r.status))
              w)) [ StatusCode.ok ↦ first_id-Same r.response.message_ids w | _ ↦ refl ]

  -- A `Publish` that returns sent a request with the text and exactly the attributes of the user, and
  -- sent nothing else; its attributes have no empty key. One that throws sent at most such requests,
  -- and if it has an empty key, it sent none and the environment is as it was.
  pub publish-Publishes :
      (t : TopicImpl fl) (buffer : Bytes) (attributes : Map Bytes) (w : World)
      → After
          (Sent t buffer attributes w)
          (Failed t buffer attributes w)
          (publish_message fl t buffer attributes w)
  unfolding publish_message lookup
  publish-Publishes t buffer attributes w =
      Holds-bind _ _ _ (Unit {0}) (copy_attributes [] attributes) _ w
        (Holds-mono _ _ _ _ (Unit {0}) (copy_attributes [] attributes w)
          (copy_attributes-After [] attributes w) (λ new w' h. h)
          (λ e w' h.
            (subst (Grown (Publishes t buffer attributes) w) (sym h.0) (Grown-refl w), inr h.0)))
        (λ attrs w₁ h.
          let request = publish t.full_name (record { payload = buffer; attributes = attrs }) in
          let own : Publishes t buffer attributes request = (attrs, refl, h.2) in
          subst
            (λ v.
              After (Sent t buffer attributes w) (Failed t buffer attributes w)
                ((call_topic fl t request >>= λ r. publish_answer r) v))
            (sym h.0)
            (Holds-bind _ _ _ (Unit {0}) (call_topic fl t request) publish_answer w
              (Holds-mono _
                (λ r w'.
                  (lookup [] attributes ≡ none)
                  × Grown (Publishes t buffer attributes) w w'
                  × Requested request w'.log)
                _ (Failed t buffer attributes w) (Unit {0}) (call_topic fl t request w)
                (call_topic-Grown t request w)
                (λ r w' g.
                  (h.1, Grown-mono (λ q e. subst (Publishes t buffer attributes) e own) g.0, g.1))
                (λ e w' g.
                  (Grown-mono (λ q e. subst (Publishes t buffer attributes) e own) g, inl h.1)))
              (λ r w' g.
                Holds-mono _ _ _ _ (Unit {0}) (publish_answer r w') (on_published r w')
                  (λ id w'' e.
                    subst (Sent t buffer attributes w id) (sym e) (g.0, g.1, (request, own, g.2)))
                  (λ x w'' e. subst (Failed t buffer attributes w x) (sym e) (g.1, inl g.0)))))
