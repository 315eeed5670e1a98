-- ===== src/Labrpc/System.antt =====
-- All requests of a network at once, with changes of the network in between.
use sjytker_my_mit.Base.{ℕ, ◌≡◌, Bool, true, some, List, [], ◌∷◌, ◌==◌, if◌then◌else◌}
use Prim.Native.String.{String}
use sjytker_my_mit.Raft.Persist.{Gob}
use sjytker_my_mit.Labrpc.Network.{ClientEnd, Network, is_server_dead, Change, change}
use sjytker_my_mit.Labrpc.Server.{ReqMsg, ReplyMsg, no_reply, Server, dispatch}
use sjytker_my_mit.Labrpc.Request.{
  Info, fails, executes, End, answers, delays, begin_req, call_begin, take_req, send_reply, end_req,
}

-- Where a request is. `abandoned`: its caller was told that there is no reply, and the handler goes on.
pub data Trip (B : Type 0) : Type 0 where
  idle : Trip B
  sent : ReqMsg B → Trip B
  running abandoned : ReqMsg B → Info → Trip B
  returned : ReqMsg B → Info → ReplyMsg B → Trip B
  delayed answered : ReqMsg B → ReplyMsg B → Trip B

-- A call of a handler that has returned: for which request, on which server and state, and with what.
-- The code keeps no such list; it is there to speak of what happened.
pub record Run (V B S : Type 0) : Type 0 where
  pub id : ℕ
  pub req : ReqMsg B
  pub server : Server V S
  pub before : S
  pub rep : ReplyMsg B

pub record System (V B S : Type 0) : Type 0 where
  pub net : Network
  pub heap : ℕ → Server V S
  pub state : S
  pub trips : ℕ → Trip B
  pub runs : List (Run V B S)

abbrev pub update {ℓ} : {A : Type ℓ} → (ℕ → A) → ℕ → A → ℕ → A
update f i a j = if i == j then a else f j

-- The request behind the end of processReq.
abbrev pub ended : {B : Type 0} → ReqMsg B → End B → Trip B
ended req (answers rep) = answered req rep
ended req (delays rep) = delayed req rep

module _ {V B S : Type 0} (gob : Gob V B) (zero_value : V) where
  -- The state after the handler of request `i` has returned.
  abbrev pub ran :
      System V B S → ℕ → ReqMsg B → Info → Server V S → S → ReplyMsg B → Trip B → System V B S
  ran s i req info rs state rep trip = record s {
    heap = update s.heap info.server rs;
    state = state;
    trips = update s.trips i trip;
    runs =
        record { id = i; req = req; server = s.heap info.server; before = s.state; rep = rep }
        ∷ s.runs;
  }

  pub data Step (s s' : System V B S) : Type 0 where
    -- Call sends a request
    send :
        (i : ℕ) (e : ClientEnd) (svc_meth : String) (args : V) (req : ReqMsg B)
        → s.trips i ≡ idle
        → call_begin gob e svc_meth args s.net ≡ some req
        → s' ≡ record s { net = take_req gob req s.net; trips = update s.trips i (sent req) }
        → Step s s'
    -- processReq begins
    start :
        (i : ℕ) (req : ReqMsg B) (lost : Bool) (info : Info)
        → s.trips i ≡ sent req
        → begin_req lost req.endname s.net ≡ executes info
        → s' ≡ record s { trips = update s.trips i (running req info) }
        → Step s s'
    fail :
        (i : ℕ) (req : ReqMsg B) (lost : Bool)
        → s.trips i ≡ sent req
        → begin_req lost req.endname s.net ≡ fails
        → s' ≡ record s { trips = update s.trips i (answered req no_reply) }
        → Step s s'
    -- the handler returns
    handle :
        (i : ℕ) (req : ReqMsg B) (info : Info) (rs : Server V S) (state : S) (rep : ReplyMsg B)
        → s.trips i ≡ running req info
        → dispatch gob zero_value req (s.heap info.server) s.state ≡ some (rs, state, rep)
        → s' ≡ ran s i req info rs state rep (returned req info rep)
        → Step s s'
    -- the wait ends without it
    give_up :
        (i : ℕ) (req : ReqMsg B) (info : Info)
        → s.trips i ≡ running req info
        → is_server_dead req.endname info.servername info.server s.net ≡ true
        → s' ≡ record s { trips = update s.trips i (abandoned req info) }
        → Step s s'
    -- a handler returns that nobody waits for
    drain :
        (i : ℕ) (req : ReqMsg B) (info : Info) (rs : Server V S) (state : S) (rep : ReplyMsg B)
        → s.trips i ≡ abandoned req info
        → dispatch gob zero_value req (s.heap info.server) s.state ≡ some (rs, state, rep)
        → s' ≡ ran s i req info rs state rep (answered req no_reply)
        → Step s s'
    -- processReq ends
    finish :
        (i : ℕ) (req : ReqMsg B) (info : Info) (rep : ReplyMsg B) (lost late : Bool)
        → s.trips i ≡ returned req info rep
        → s' ≡ record s {
          net = (end_req gob lost late req.endname info (some rep) s.net).0;
          trips =
              update s.trips i
                (ended req (end_req gob lost late req.endname info (some rep) s.net).1);
        }
        → Step s s'
    -- a delayed reply goes out
    deliver :
        (i : ℕ) (req : ReqMsg B) (rep : ReplyMsg B)
        → s.trips i ≡ delayed req rep
        → s'
          ≡ record s { net = send_reply gob rep s.net; trips = update s.trips i (answered req rep) }
        → Step s s'
    configure :
        (c : Change) (rn : Network)
        → change c s.net ≡ some rn
        → s' ≡ record s { net = rn }
        → Step s s'

  pub record IsInitial (s : System V B S) : Type 0 where
    pub idles : (i : ℕ) → s.trips i ≡ idle
    pub no_runs : s.runs ≡ []

  pub data Reach : System V B S → Type 0 where
    begin : {s : System V B S} → IsInitial s → Reach s
    next : {s s' : System V B S} → Reach s → Step s s' → Reach s'
