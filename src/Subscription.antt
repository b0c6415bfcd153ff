-- ===== src/Subscription.antt =====
-- pubsuber/src/SubscriptionImpl.h and SubscriptionImpl.cpp.
pub mod Receiver
pub mod QuickStop
pub mod Answers
mod Tests
use pubsuber.Base.{
  ℕ, ◌%◌, ◌^◌, List, [], ◌∷◌, ◌++◌, Bytes, text, Bool, true, false, Option, none, some, ◌&&◌,
  if◌then◌else◌,
}
use pubsuber.Double.{Float}
use pubsuber.Io.{
  StatusCode, Exception, Request, World, Outcome, returned, threw, blocked, terminated, Act, ◌>>=◌,
  ◌>>◌, pure, throw, plain, on_status, ensure_connected,
}
use pubsuber.Retriable.{Policies, CallResult, make_call}
use pubsuber.Executor.{Executor}
use pubsuber.Executor

module _ (fl : Float) (Callback : Type 0) where
  pub record SubscriptionImpl : Type 0 where
    pub id : Bytes
    pub full_name : Bytes
    pub ack_deadline : ℕ
    pub receiver_active : Bool
    pub policies : Policies fl

  -- A subscription with what it works on. `alive` is whether `_executor.lock()` gives the executor.
  pub record Shared : Type 0 where
    pub subscription : SubscriptionImpl
    pub alive : Bool
    pub executor : Executor fl Callback
    pub world : World

  -- The constructor; `executor_set` is whether `_executor.lock()` gives the executor.
  unfoldable pub create : {S : Type 0} → Bool → Bytes → Bytes → Policies fl → Act S SubscriptionImpl
  create executor_set id name policies s =
      if executor_set
      then returned
          (record {
            id = id;
            full_name = name;
            ack_deadline = 0;
            receiver_active = false;
            policies = policies;
          })
          s
      else threw (plain (text "Pubsuber: Executor object is not set")) s

  -- `EnsureConnected`, whose result is not looked at, and the call.
  unfoldable pub call_subscription : Request → Act Shared CallResult
  call_subscription request s =
      elim ((do ensure_connected >>= λ c. make_call fl request s.subscription.policies) s.world) [
        | returned r w ↦ returned r (record s { world = w })
        | threw e w ↦ threw e (record s { world = w })
        | blocked ↦ blocked
        | terminated ↦ terminated
      ]

  abbrev save_deadline : ℕ → Shared → Shared
  save_deadline seconds s = record s {
    subscription = record s.subscription { ack_deadline = seconds };
  }

  abbrev pub set_receiver : Bool → Shared → Shared
  set_receiver b s = record s { subscription = record s.subscription { receiver_active = b } }

  unfoldable pub on_exists : CallResult → Act Shared Bool
  on_exists r s = elim r.status.error_code [
    | StatusCode.not_found ↦ returned false s
    | StatusCode.ok ↦ returned true (save_deadline r.response.ack_deadline_seconds s)
    | _ ↦ threw (on_status (text "Pubsuber: GetSubscription request failed with error ") r.status) s
  ]

  unfoldable pub exists : Act Shared Bool
  unfolding call_subscription on_exists
  exists s = (call_subscription (Request.get_subscription s.subscription.full_name) >>= on_exists) s

  unfoldable pub on_created : CallResult → Act Shared (Unit {0})
  on_created r s = elim r.status.error_code [
    | StatusCode.ok ↦ returned tt (save_deadline r.response.ack_deadline_seconds s)
    | _ ↦
        threw (on_status (text "Pubsuber: CreateSubscription request failed with error ") r.status)
          s
  ]

  -- `Create`, with the topic's name and the deadline in seconds of its options. The field of the request
  -- has 32 bits, of which a sign, and takes the low ones of the count.
  unfoldable pub create_subscription : Bytes → ℕ → Act Shared (Unit {0})
  unfolding call_subscription on_created
  create_subscription topic deadline s =
      (call_subscription
            (Request.create_subscription s.subscription.full_name topic (deadline % 2 ^ 32))
          >>= on_created)
        s

  unfoldable pub on_deleted : CallResult → Act Shared (Unit {0})
  on_deleted r s = elim r.status.error_code [
    | StatusCode.ok ↦ returned tt s
    | StatusCode.not_found ↦ returned tt s
    | _ ↦
        threw (on_status (text "Pubsuber: DeleteSubscription request failed with error ") r.status)
          s
  ]

  unfoldable pub delete : Act Shared (Unit {0})
  unfolding call_subscription on_deleted
  delete s =
      (call_subscription (Request.delete_subscription s.subscription.full_name) >>= on_deleted) s

  -- `exec->AddIterator(_fullName, cb)` and the flag after it.
  unfoldable pub activate : Option Callback → List ℕ → Act Shared (Unit {0})
  activate cb raw s =
      elim (Executor.add_iterator fl Callback s.subscription.full_name cb raw s.executor) [
        | returned _ e ↦ returned tt (set_receiver true (record s { executor = e }))
        | threw x e ↦ threw x (record s { executor = e })
        | blocked ↦ blocked
        | terminated ↦ terminated
      ]

  -- `Receive` once the subscription was looked up.
  unfoldable pub on_found : Option Callback → List ℕ → Bool → Act Shared (Unit {0})
  unfolding activate
  on_found cb raw false s =
      threw
        (plain
          (text "Pubsuber: Subscription " ++ s.subscription.full_name ++ text " does not exit"))
        s
  on_found cb raw true s =
      if s.subscription.receiver_active
      then threw (plain (text "Pubsuber: Subscription object supports only one receiver")) s
      else (if s.alive
          then activate cb raw s
          else threw (plain (text "Pubsuber: Executor object is not set")) s)

  unfoldable pub receive : Option Callback → List ℕ → Act Shared (Unit {0})
  unfolding exists on_found
  receive cb raw = exists >>= on_found cb raw

  abbrev pub deactivate : Shared → Shared
  deactivate s = set_receiver false (record s {
    executor = Executor.remove_iterator fl Callback s.subscription.full_name s.executor;
  })

  unfoldable pub stop : Act Shared (Unit {0})
  stop s =
      if s.alive && s.subscription.receiver_active
      then returned tt (deactivate s)
      else threw (plain (text "Executor object is not set")) s

  -- The destructor.
  unfoldable pub destroy : Shared → Shared
  destroy s = if s.alive && s.subscription.receiver_active then deactivate s else s
