-- ===== src/Retriable/Meanings.antt =====
-- What the calls of pubsuber/src/TopicImpl.cpp and SubscriptionImpl.cpp take a status to mean.
use pubsuber.Base.{Bool, true, false, Option, none, some}
use pubsuber.Io.{StatusCode}

-- What an operation makes of a final status: its result, or an exception.
abbrev pub exists_meaning : StatusCode → Option Bool
exists_meaning StatusCode.ok = some true
exists_meaning StatusCode.not_found = some false
exists_meaning _ = none

abbrev pub create_meaning : StatusCode → Option (Unit {0})
create_meaning StatusCode.ok = some tt
create_meaning _ = none

abbrev pub delete_meaning : StatusCode → Option (Unit {0})
delete_meaning StatusCode.ok = some tt
delete_meaning StatusCode.not_found = some tt
delete_meaning _ = none
