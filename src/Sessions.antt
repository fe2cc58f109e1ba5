-- ===== src/Sessions.antt =====
-- `WebrtcSessionMgr` (src/webrtc_session_mgr.h, src/webrtc_session_mgr.cpp): the sessions by the
-- fragment of their remote user names. The order of the `unordered_map` is not observed.
mod Tests
use tms.Prelude.{ℕ, Option, List}
use tms.StdMap.{StdMap, find, assign, erase}

pub record SessionInfo : Type 0 where
  pub remote_ufrag : List ℕ
  pub remote_pwd : List ℕ
  pub local_ufrag : List ℕ
  pub local_pwd : List ℕ
  pub app : List ℕ
  pub stream : List ℕ

abbrev pub Sessions : Type 0
Sessions = StdMap SessionInfo

unfoldable pub add_session : List ℕ → SessionInfo → Sessions → Sessions
unfolding assign
add_session ufrag session_info m = assign ufrag session_info m

unfoldable pub get_session : List ℕ → Sessions → Option SessionInfo
unfolding find
get_session ufrag m = find ufrag m

unfoldable pub del_session : List ℕ → Sessions → Sessions
unfolding erase
del_session ufrag m = erase ufrag m
