-- ===== src/Labrpc/Request.antt =====
-- A request on its way: ClientEnd.Call and Network.processReq of labrpc/labrpc.go, cut where they
-- wait. Random numbers come in as the outcome of their test; delays are left out.
use Prim.Native.String.{String}
use sjytker_my_mit.Base.{
  ℕ, ◌+◌, Bool, true, false, not, ◌&&◌, Option, none, some, if◌then◌else◌, ◌>>=◌,
}
use sjytker_my_mit.Raft.Persist.{Gob}
use sjytker_my_mit.Labrpc.Network.{ClientEnd, Network, read_endname_info, is_server_dead}
use sjytker_my_mit.Labrpc.Server.{ReqMsg, ReplyMsg, no_reply}

-- What processReq remembers of its first look at the network.
pub record Info : Type 0 where
  pub servername : ℕ
  pub server : ℕ
  pub reliable : Bool
  pub long_reordering : Bool

-- How processReq begins: with no reply, or by a call of the server's handler.
pub data Begin : Type 0 where
  fails : Begin
  executes : Info → Begin

-- How it ends: it answers, or it answers later.
pub data End (B : Type 0) : Type 0 where
  answers delays : ReplyMsg B → End B

-- The half of processReq up to the call of the handler. `lost` is whether the random number drops the
-- request of an unreliable network.
unfoldable pub begin_req : Bool → ℕ → Network → Begin
unfolding read_endname_info
begin_req lost endname rn =
    let info = read_endname_info endname rn in
    if not info.enabled then fails else elim info.servername [
      | none ↦ fails
      | some servername ↦ elim info.server [
        | none ↦ fails
        | some server ↦
            if not info.reliable && lost
            then fails
            else executes (record {
              servername = servername;
              server = server;
              reliable = info.reliable;
              long_reordering = info.long_reordering;
            })
      ]
    ]

module _ {V B : Type 0} (gob : Gob V B) where
  -- The first half of Call: the request, unless the network has been destroyed.
  unfoldable pub call_begin : ClientEnd → String → V → Network → Option (ReqMsg B)
  call_begin e svc_meth args rn =
      if rn.done
      then none
      else some (record { endname = e.endname; svc_meth = svc_meth; args = gob.encode args })

  -- The goroutine of MakeNetwork takes a request.
  unfoldable pub take_req : ReqMsg B → Network → Network
  take_req req rn = record rn { count = rn.count + 1; bytes = rn.bytes + gob.size req.args }

  -- A reply goes out: its bytes are counted.
  unfoldable pub send_reply : ReplyMsg B → Network → Network
  send_reply rep rn = record rn {
    bytes = rn.bytes + (elim rep.reply [ none ↦ 0 | some b ↦ gob.size b ]);
  }

  -- The half of processReq after the wait, with the reply of the handler or none, where the server died
  -- before. `lost` and `late` are whether the random numbers drop and delay the reply.
  unfoldable pub end_req :
      (lost late : Bool) → ℕ → Info → Option (ReplyMsg B) → Network → Network × End B
  unfolding is_server_dead send_reply
  end_req lost late endname info none rn = (rn, answers no_reply)
  end_req lost late endname info (some rep) rn =
      if is_server_dead endname info.servername info.server rn
      then (rn, answers no_reply)
      else if not info.reliable && lost
      then (rn, answers no_reply)
      else if info.long_reordering && late
      then (rn, delays rep)
      else (send_reply rep rn, answers rep)

  -- The second half of Call: whether there was a reply, and the reply. One that cannot be decoded ends
  -- the process.
  unfoldable pub call_end : ReplyMsg B → Option (Bool × Option V)
  call_end rep =
      if not rep.ok
      then some (false, none)
      else do bytes ← rep.reply; v ← gob.decode bytes; some (true, some v)
