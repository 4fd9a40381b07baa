-- ===== src/RelayServer/Tests.antt =====
-- A relay server at work, and the theorems about it: backend/app/services/relay_server.py.
use midscale.Prelude.{
  ℕ, ◌+◌, ◌≤◌, String, true, Option, none, some, List, [], ◌∷◌, ◌≡◌, ◌≢◌, refl, arith, eq_iff, ◌==◌,
  if◌then◌else◌,
}
use midscale.Prelude.Dict.{Key, get, put}
use midscale.Frames.{payload_of, encode}
use midscale.RelayServer.{
  Conn, Server, register_connection, remove_expired_tokens, validate_session,
}
use midscale.RelayServer.Protocol.{
  Codec, handle_connect, connection_lost, handle_message, answer_connect, dispatch, send_message,
}
use midscale.RelayServer.Registry.{IsWatched}
use midscale.RelayServer.Watch.{here, next, message, clean_lem}
use midscale.RelayServer.Access.{connect_needs_token, lost_unregisters}

-- The body 1 asks for session "s1", the body 2 has a `null` in its place.
abbrev request : Key → List (String × Key)
request sid = ("token", some "t") ∷ ("device_id", some "dev") ∷ ("session_id", sid) ∷ []

abbrev loads : List ℕ → Option (List (String × Key))
loads (b ∷ []) = some (request (if b == 1 then some "s1" else none))
loads _ = none

abbrev json : Codec
json = record {
  loads = loads;
  is_object = λ body. true;
  dumps = λ fields. [];
  decode = λ bytes. none;
}

abbrev socket : ℕ → Key → Conn
socket c d = record {
  ident = c;
  session_token = none;
  device_id = d;
  has_transport = true;
  written = [];
}

abbrev fresh : Server
fresh = record {
  connections = [];
  heartbeats = [];
  valid_tokens = (some "t", "s1") ∷ [];
  conns = socket 7 none ∷ [];
}

abbrev stranger : Server
stranger = record fresh { valid_tokens = [] }

-- The device of connection 7 has come back as connection 8.
abbrev back : Server
back = record {
  connections = (some "dev", 8) ∷ [];
  heartbeats = (some "dev", 50) ∷ [];
  valid_tokens = (some "t", "s1") ∷ [];
  conns = socket 7 (some "dev") ∷ socket 8 (some "dev") ∷ [];
}

fresh-IsWatched : IsWatched fresh
fresh-IsWatched = record { watched = λ d e. unfold get in refl }

abbrev joined : Server
joined = handle_message json 7 100 (payload_of 4 (1 ∷ [])) fresh

joined-clean : get (some "dev") (remove_expired_tokens 200 joined).connections ≡ some 7
unfolding handle_message dispatch handle_connect answer_connect send_message register_connection
    payload_of encode remove_expired_tokens get put validate_session
joined-clean = refl

clean_lem_example :
    (ts : ℕ) × (get (some "dev") (remove_expired_tokens 200 joined).heartbeats ≡ some ts)
    × (200 ≤ ts + 120)
clean_lem_example =
    clean_lem json fresh joined 200 7 (some "dev") fresh-IsWatched
      (next here (message 7 100 (payload_of 4 (1 ∷ [])))) joined-clean

unknown : get (some "t") stranger.valid_tokens ≢ some "s1"
unfolding get
unknown e = cc

connect_needs_token_example :
    get (some "dev") (handle_connect json 7 100 (1 ∷ []) stranger).connections
    ≡ get (some "dev") stranger.connections
connect_needs_token_example =
    connect_needs_token json 7 100 (1 ∷ []) stranger (request (some "s1")) refl "s1" (some "dev")
      refl unknown

named : ◌≢◌ {A = String} "dev" ""
named = ground (arith, eq_iff "dev" "")

lost_unregisters_example : get (some "dev") (connection_lost json 7 back).connections ≡ none
lost_unregisters_example = lost_unregisters json 7 back "dev" refl named

other_session : ◌≢◌ {A = Key} (some "s1") (some "dev")
other_session e = ground (arith, eq_iff "s1" "dev")
