-- ===== src/Labrpc/Examples.antt =====
-- A server that adds what it is sent to a total, and one call of it.
use Prim.Native.String.{String, ◌++◌ as ◌++S◌}
use sjytker_my_mit.Base.{ℕ, ◌+◌, ◌≤◌, ◌≡◌, refl, true, false, some, [], ◌∷◌, arith, length}
use sjytker_my_mit.Raft.Persist.{Gob}
use sjytker_my_mit.Labrpc.Network.{
  Network, make_network, is_server_dead, add_server, enable, adds, enables, changes, delete_server,
}
use sjytker_my_mit.Labrpc.Server.{
  ReqMsg, ReplyMsg, no_reply, Method, Service, make_service, make_server, add_service, split_meth,
  find_text, dispatch,
}
use sjytker_my_mit.Labrpc.Request.{
  Info, executes, answers, begin_req, call_begin, take_req, end_req, call_end,
}
use sjytker_my_mit.Labrpc.Deleted.{delete_server-fails}
use sjytker_my_mit.Labrpc.Alone.{ready, call_alone}
use sjytker_my_mit.Labrpc.System.{
  idle, sent, running, returned, answered, System, ran, update, Step, send, start, handle, finish,
  Reach, begin, next,
}
use sjytker_my_mit.Labrpc.Calls.{runs_of, Once, call_outcome}

abbrev gob : Gob ℕ ℕ
gob = record {
  encode = λ a. a;
  decode = λ a. some a;
  size = λ a. 1;
  decode-encode = λ a. refl;
  size-encode = λ a. omega arith;
}

abbrev method : String → ℕ → Method ℕ ℕ
method name ins = record {
  name = name;
  pkg_path = "";
  num_in = ins;
  reply_is_ptr = true;
  num_out = 0;
  func = λ a s. (s + a, s + a);
}

-- Add is a handler; Len, with two arguments in place of three, is none.
abbrev counter : Service ℕ ℕ
counter = record { name = "Counter"; methods = ("Add", method "Add" 3) ∷ [] }

handlers_only : make_service "Counter" (method "Add" 3 ∷ method "Len" 2 ∷ []) ≡ counter
unfolding make_service
handlers_only = refl

two_dots : split_meth "a.Raft.Vote" ≡ some ("a.Raft", "Vote")
unfolding split_meth
two_dots = refl

abbrev info : Info
info = record { servername = 2; server = 10; reliable = true; long_reordering = false }

-- Server 10 is deleted, and server 11 takes its name.
abbrev replaced : Network
replaced = enable 1 true (add_server 2 11 (delete_server 2 (ready make_network 1 2 10)))

abbrev seven : ReplyMsg ℕ
seven = record { ok = true; reply = some 7 }

delete_server-fails_example :
    end_req gob false false 1 info (some seven) replaced ≡ (replaced, answers no_reply)
unfolding changes
delete_server-fails_example =
    delete_server-fails gob false false 1 info (some seven) (adds 2 11 ∷ enables 1 true ∷ [])
      (ready make_network 1 2 10) replaced (omega arith, tt) refl

call_alone_example :
    (req : ReqMsg ℕ) × (info : Info) × (rep : ReplyMsg ℕ) × (end : Network) × (call_begin gob
        (record { endname = 1 })
        (counter.name ++S "." ++S "Add")
        7
        (ready make_network 1 2 10)
      ≡ some req)
    × (begin_req true req.endname (take_req gob req (ready make_network 1 2 10)) ≡ executes info)
    × (info.server ≡ 10)
    × (dispatch gob 0 req (add_service counter make_server) 30
        ≡ some (record (add_service counter make_server) { count = 0 + 1 }, 37, rep))
    × (end_req gob true true req.endname info
          (some rep)
          (take_req gob req (ready make_network 1 2 10))
        ≡ (end, answers rep))
    × (call_end gob rep ≡ some (true, some 37))
    × (end.count ≡ 0 + 1)
unfolding make_network make_server split_meth find_text
call_alone_example =
    call_alone gob 0 make_network 1 2 10 counter make_server "Add" (method "Add" 3) 7 30 true true
      true refl refl refl refl refl

-- A request that is sent, handled and answered.
abbrev request : ReqMsg ℕ
request = record { endname = 1; svc_meth = "Counter.Add"; args = 7 }

abbrev connected : System ℕ ℕ ℕ
connected = record {
  net = ready make_network 1 2 10;
  heap = λ p. add_service counter make_server;
  state = 30;
  trips = λ i. idle;
  runs = [];
}

abbrev with_request : System ℕ ℕ ℕ
with_request = record connected {
  net = take_req gob request connected.net;
  trips = update connected.trips 0 (sent request);
}

abbrev in_handler : System ℕ ℕ ℕ
in_handler = record with_request { trips = update with_request.trips 0 (running request info) }

abbrev total : ReplyMsg ℕ
total = record { ok = true; reply = some 37 }

abbrev handled : System ℕ ℕ ℕ
handled =
    ran gob 0 in_handler 0 request info (record (add_service counter make_server) { count = 1 }) 37
      total (returned request info total)

abbrev done : System ℕ ℕ ℕ
done = record handled {
  net = (end_req gob false false 1 info (some total) handled.net).0;
  trips = update handled.trips 0 (answered request total);
}

sends : Step gob 0 connected with_request
unfolding call_begin ready make_network
sends = send 0 (record { endname = 1 }) "Counter.Add" 7 request refl refl refl

starts : Step gob 0 with_request in_handler
unfolding begin_req ready make_network take_req
starts = start 0 request false info refl refl refl

handles : Step gob 0 in_handler handled
unfolding dispatch make_server add_service
handles = handle 0 request info _ 37 total refl refl refl

finishes : Step gob 0 handled done
unfolding end_req ready make_network take_req is_server_dead
finishes = finish 0 request info total false false refl refl

done-Reach : Reach gob 0 done
done-Reach =
    next
      (next (next (next (begin (record { idles = λ i. refl; no_runs = refl })) sends) starts)
        handles)
      finishes

call_outcome_example :
    (length (runs_of 0 done.runs) ≤ 1)
    × ((req : ReqMsg ℕ) (rep : ReplyMsg ℕ)
        → done.trips 0 ≡ answered req rep
        → rep.ok ≡ true
        → Once gob 0 req rep (runs_of 0 done.runs))
call_outcome_example = call_outcome gob 0 done 0 done-Reach
