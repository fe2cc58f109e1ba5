-- ===== src/Sessions/Tests.antt =====
-- The sessions on examples.
use tms.Prelude.{none, some, [], ◌∷◌, ◌≡◌, refl}
use tms.StdMap.{empty, entry}
use tms.Sessions.{SessionInfo, Sessions, add_session, get_session, del_session}

abbrev session : SessionInfo
session = record {
  remote_ufrag = 1 ∷ [];
  remote_pwd = 2 ∷ [];
  local_ufrag = 3 ∷ [];
  local_pwd = 4 ∷ [];
  app = 5 ∷ [];
  stream = 6 ∷ [];
}

abbrev two : Sessions
two = entry (1 ∷ []) session (entry (2 ∷ []) session empty)

two_again : get_session (2 ∷ []) (add_session (2 ∷ []) session two) ≡ some session
unfolding get_session add_session
two_again = refl

two_gone : get_session (2 ∷ []) (del_session (2 ∷ []) two) ≡ none
unfolding get_session del_session
two_gone = refl
