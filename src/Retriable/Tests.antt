-- ===== src/Retriable/Tests.antt =====
-- The theorems on pubsuber/src/Retriable.h for calls under a limit of two retries.
use pubsuber.Base.{Bytes, ◌++◌}
use pubsuber.Retriable.Namer.{starts_with, type_name, type_name-append}
use pubsuber.Base.{some}
use pubsuber.Retriable.Answers.{final_answer, IsGaveUp, reply_of, make_call-final_answer}
use pubsuber.Base.{◌≡◌, refl, [], ◌∷◌, text, arith, inl, inr}
use pubsuber.Double.{fixed_point}
use pubsuber.Io.{StatusCode, Request, get_topic, World, Ends, After, sends}
use pubsuber.Retriable.{make_call}
use pubsuber.Retriable.Attempts.{IsRetried, Answered, GaveUp, make_call-Ends, make_call_refused}
use pubsuber.Examples.{answer, world_of, two_retries, tick}

abbrev request : Request
request = get_topic (text "t")

-- The server is too busy three times, and then answers.
abbrev busy : World
busy =
    world_of
      (answer StatusCode.unavailable
        ∷ answer StatusCode.deadline_exceeded
        ∷ answer StatusCode.unavailable
        ∷ [])
      tick

abbrev stopped_clock : World
stopped_clock = record busy { clock = λ n. 0 }

abbrev prompt : World
prompt = world_of (answer StatusCode.not_found ∷ []) tick

-- Every reading of the clock is sixteen seconds after the one before.
abbrev slow : World
slow = world_of (answer StatusCode.unavailable ∷ []) 16_000_000_000

not-IsRetried : ¬ IsRetried StatusCode.not_found
not-IsRetried (inl e) = cc
not-IsRetried (inr e) = cc

make_call-Ends_example :
    Ends
      (Answered fixed_point request two_retries 0)
      (GaveUp fixed_point request two_retries 0)
      (make_call fixed_point request two_retries busy)
make_call-Ends_example =
    make_call-Ends fixed_point request two_retries busy (omega arith, omega arith) (omega arith)

make_call_refused_example :
    Ends
      (λ r w'. ⊥)
      (λ e w'. sends w'.log ≡ 3)
      (make_call fixed_point request two_retries stopped_clock)
make_call_refused_example =
    make_call_refused fixed_point request two_retries stopped_clock (omega arith, omega arith)
      (omega arith) (inr refl, (inl refl, (inr refl, tt))) (λ n. omega arith)

make_call-final_answer_example :
    After
      (λ r w'. final_answer busy.replies ≡ some (reply_of r, w'.replies))
      (λ e w'. IsGaveUp busy.replies e.code w')
      (make_call fixed_point request two_retries busy)
make_call-final_answer_example = make_call-final_answer fixed_point request two_retries busy

-- What GCC writes before the arguments of the template.
abbrev gcc : Bytes
gcc = text "static const char* pubsuber::retriable::Namer<NamedParamType>::Name() [with "

type_name-append_example :
    type_name (gcc ++ (text "NamedParamType = " ++ (text "int (Stub::*)(Request)" ++ text "]")))
    ≡ text "int (Stub::*)(Request)"
unfolding starts_with
type_name-append_example = type_name-append gcc (text "int (Stub::*)(Request)") (ground arith)
