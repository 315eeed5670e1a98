-- ===== src/Labrpc/Network.antt =====
-- The network of labrpc/labrpc.go: its switches, its ends and its servers. Names are numbers. A server
-- is an address, as the code compares pointers; where the code has nil there is `none`.
use sjytker_my_mit.Base.{
  ℕ, Bool, true, false, not, ◌||◌, Option, none, some, List, [], ◌∷◌, ◌==◌, if◌then◌else◌, ◌>>=◌,
  find, put,
}

pub record ClientEnd : Type 0 where
  pub endname : ℕ

-- `done` is whether that channel is closed. The other channel is left out: each request on it is taken
-- by take_req.
pub record Network : Type 0 where
  pub reliable : Bool
  pub long_delays : Bool
  pub long_reordering : Bool
  pub ends : List (ℕ × ClientEnd)
  pub enabled : List (ℕ × Bool)
  pub servers : List (ℕ × Option ℕ)
  pub connections : List (ℕ × Option ℕ)
  pub done : Bool
  pub count : ℕ
  pub bytes : ℕ

unfoldable pub make_network : Network
make_network = record {
  reliable = true;
  long_delays = false;
  long_reordering = false;
  ends = [];
  enabled = [];
  servers = [];
  connections = [];
  done = false;
  count = 0;
  bytes = 0;
}

-- To close a channel twice panics.
unfoldable pub cleanup : Network → Option Network
cleanup rn = if rn.done then none else some (record rn { done = true })

unfoldable pub set_reliable : Bool → Network → Network
set_reliable yes' rn = record rn { reliable = yes' }

unfoldable pub set_long_reordering : Bool → Network → Network
set_long_reordering yes' rn = record rn { long_reordering = yes' }

unfoldable pub set_long_delays : Bool → Network → Network
set_long_delays yes' rn = record rn { long_delays = yes' }

-- rn.servers[servername], rn.connections[endname] and rn.enabled[endname]; a key that is not there
-- reads as nil or false.
abbrev pub or_nil : Option (Option ℕ) → Option ℕ
or_nil none = none
or_nil (some p) = p

abbrev pub server_at : ℕ → Network → Option ℕ
server_at servername rn = or_nil (find servername rn.servers)

abbrev pub is_enabled : ℕ → Network → Bool
is_enabled endname rn = elim (find endname rn.enabled) [ none ↦ false | some b ↦ b ]

-- What readEndnameInfo returns.
pub record EndnameInfo : Type 0 where
  pub enabled : Bool
  pub servername : Option ℕ
  pub server : Option ℕ
  pub reliable : Bool
  pub long_reordering : Bool

unfoldable pub read_endname_info : ℕ → Network → EndnameInfo
unfolding find
read_endname_info endname rn = record {
  enabled = is_enabled endname rn;
  servername = or_nil (find endname rn.connections);
  server = elim (or_nil (find endname rn.connections)) [ none ↦ none | some n ↦ server_at n rn ];
  reliable = rn.reliable;
  long_reordering = rn.long_reordering;
}

-- Are these pointers the same?
abbrev pub same_server : Option ℕ → ℕ → Bool
same_server none server = false
same_server (some p) server = p == server

unfoldable pub is_server_dead : (endname servername server : ℕ) → Network → Bool
unfolding find
is_server_dead endname servername server rn =
    not (is_enabled endname rn) || not (same_server (server_at servername rn) server)

-- MakeEnd; an end of that name ends the process.
unfoldable pub make_end : ℕ → Network → Option (Network × ClientEnd)
unfolding find put
make_end endname rn = elim (find endname rn.ends) [
  | some e ↦ none
  | none ↦
      let e : ClientEnd = record { endname = endname } in
      some (
        record rn {
          ends = put endname e rn.ends;
          enabled = put endname false rn.enabled;
          connections = put endname none rn.connections;
        },
        e,
      )
]

unfoldable pub add_server : (servername server : ℕ) → Network → Network
unfolding put
add_server servername server rn = record rn { servers = put servername (some server) rn.servers }

unfoldable pub delete_server : ℕ → Network → Network
unfolding put
delete_server servername rn = record rn { servers = put servername none rn.servers }

unfoldable pub connect : (endname servername : ℕ) → Network → Network
unfolding put
connect endname servername rn = record rn {
  connections = put endname (some servername) rn.connections;
}

unfoldable pub enable : ℕ → Bool → Network → Network
unfolding put
enable endname enabled rn = record rn { enabled = put endname enabled rn.enabled }

-- GetCount, from the counts of the servers; a server that is nil panics.
unfoldable pub get_count : (ℕ → ℕ) → ℕ → Network → Option ℕ
unfolding find
get_count counts servername rn = do server ← server_at servername rn; some (counts server)

-- A change that the user of the network makes.
pub data Change : Type 0 where
  reliables reorders slows : Bool → Change
  makes deletes : ℕ → Change
  adds connects : ℕ → ℕ → Change
  enables : ℕ → Bool → Change

unfoldable pub change : Change → Network → Option Network
unfolding set_reliable set_long_reordering set_long_delays make_end add_server delete_server connect
    enable
change (reliables b) rn = some (set_reliable b rn)
change (reorders b) rn = some (set_long_reordering b rn)
change (slows b) rn = some (set_long_delays b rn)
change (makes endname) rn = do (rn', e) ← make_end endname rn; some rn'
change (deletes servername) rn = some (delete_server servername rn)
change (adds servername server) rn = some (add_server servername server rn)
change (connects endname servername) rn = some (connect endname servername rn)
change (enables endname b) rn = some (enable endname b rn)

-- Changes one after the other.
unfoldable pub changes : List Change → Network → Option Network
unfolding change
changes [] rn = some rn
changes (c ∷ cs) rn = do rn' ← change c rn; changes cs rn'
