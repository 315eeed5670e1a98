-- ===== src/Labrpc/Alone.antt =====
-- A call over a reliable network, from the arguments to the reply.
use Prim.Native.Char.{Char}
use text.Mathlib.TextLemmas.{nil-append, cons-append}
use Prim.Native.String.{String, ◌++◌ as ◌++S◌}
use sjytker_my_mit.Base.{
  ℕ, ◌+◌, ◌≡◌, refl, ap, ◌∙◌, Bool, true, false, Option, none, some, arith, same_text_iff,
  find-put_self,
}
use sjytker_my_mit.Raft.Persist.{Gob}
use sjytker_my_mit.Labrpc.Network.{Network, is_server_dead, add_server, connect, enable}
use sjytker_my_mit.Labrpc.Server.{
  ReqMsg, ReplyMsg, Method, Service, Server, find_text, find_text-put_text, split_meth, add_service,
  dispatch_method, dispatch,
}
use sjytker_my_mit.Labrpc.Request.{
  Info, executes, answers, begin_req, call_begin, take_req, send_reply, end_req, call_end,
}

dot-append : (s : String) → "." ++S s ≡ String.◌∷◌ "." s
dot-append s = cons-append "." "" s ∙ ap (λ t. String.◌∷◌ "." t) (nil-append s)

split_meth-dot :
    (method : String)
    → split_meth method ≡ none
    → split_meth (String.◌∷◌ "." method) ≡ some ("", method)
unfolding split_meth
split_meth-dot method h = rw h refl

split_meth-cons :
    (c : Char) (s service method : String)
    → split_meth s ≡ some (service, method)
    → split_meth (String.◌∷◌ c s) ≡ some (String.◌∷◌ c service, method)
unfolding split_meth
split_meth-cons c s service method h = rw h refl

-- A service's name and a method's without a dot are found again behind the dot between them.
split_meth-join :
    (service method : String)
    → split_meth method ≡ none
    → split_meth (service ++S "." ++S method) ≡ some (service, method)
split_meth-join String.[] method h =
    ap split_meth (nil-append ("." ++S method) ∙ dot-append method) ∙ split_meth-dot method h
split_meth-join (String.◌∷◌ c s) method h =
    ap split_meth (cons-append c s ("." ++S method))
    ∙ split_meth-cons c (s ++S "." ++S method) s method (split_meth-join s method h)

-- The network after an end has been connected and enabled to a server.
unfoldable pub ready : Network → (endname servername server : ℕ) → Network
unfolding add_server connect enable
ready rn endname servername server =
    enable endname true (connect endname servername (add_server servername server rn))

ready-alive :
    (rn : Network) (endname servername server : ℕ)
    → is_server_dead endname servername server (ready rn endname servername server) ≡ false
unfolding ready is_server_dead
ready-alive rn endname servername server = ground (
  arith,
  find-put_self endname true rn.enabled,
  find-put_self servername (some server) rn.servers,
)

end_req-ready :
    {V B : Type 0} (gob : Gob V B) (rn : Network) (endname servername server : ℕ) (lost late : Bool)
    (req : ReqMsg B)
    → (rep : ReplyMsg B)
    → end_req gob lost late endname
        (record {
          servername = servername;
          server = server;
          reliable = true;
          long_reordering = false;
        })
        (some rep)
        (take_req gob req (ready rn endname servername server))
      ≡ (send_reply gob rep (take_req gob req (ready rn endname servername server)), answers rep)
unfolding end_req take_req is_server_dead
end_req-ready gob rn endname servername server lost late req rep =
    let alive = ready-alive rn endname servername server in ground arith

module _ {V B S : Type 0} (gob : Gob V B) (zero_value : V) where
  dispatch-add_service :
      (svc : Service V S) (rs : Server V S) (method : String) (m : Method V S) (endname : ℕ)
      → (args : V) (s : S) → split_meth method ≡ none
      → find_text method svc.methods ≡ some m
      → dispatch gob zero_value
          (record {
            endname = endname;
            svc_meth = svc.name ++S "." ++S method;
            args = gob.encode args;
          })
          (add_service svc rs)
          s
        ≡ some (
          record (add_service svc rs) { count = rs.count + 1 },
          (m.func args s).0,
          record { ok = true; reply = some (gob.encode (m.func args s).1) },
        )
  unfolding dispatch add_service dispatch_method
  dispatch-add_service svc rs method m endname args s dotless has =
      rw
        (
          split_meth-join svc.name method dotless,
          find_text-put_text svc.name svc.name svc rs.services,
          (same_text_iff svc.name svc.name).1 refl,
          has,
        )
        (ap
          (λ (o : Option V).
            let v : V = elim o as (λ _. V) [ none ↦ zero_value | some a ↦ a ] in
            some (
              record (add_service svc rs) { count = rs.count + 1 },
              (m.func v s).0,
              record { ok = true; reply = some (gob.encode (m.func v s).1) },
            ))
          (gob.decode-encode args))

  -- A call over a reliable network that has not been destroyed and does not reorder replies, from an
  -- end that has been connected and enabled to a server that has been added and has the service: where
  -- the service has the method, whose name has no dot, the call gets through whatever the random numbers
  -- are. The handler runs once, on the arguments of the caller, the reply is what it gave, and the
  -- server and the network have counted one call more.
  pub call_alone :
      (rn : Network) (endname servername server : ℕ) (svc : Service V S) (rs : Server V S)
      → (method : String) (m : Method V S) (args : V) (s : S) (lost lost' late : Bool)
      → rn.reliable ≡ true
      → rn.long_reordering ≡ false
      → rn.done ≡ false
      → split_meth method ≡ none
      → find_text method svc.methods ≡ some m
      → (req : ReqMsg B) × (info : Info) × (rep : ReplyMsg B) × (end : Network) × (call_begin gob
            (record { endname = endname })
            (svc.name ++S "." ++S method)
            args
            (ready rn endname servername server)
          ≡ some req)
        × (begin_req lost req.endname (take_req gob req (ready rn endname servername server))
            ≡ executes info)
        × (info.server ≡ server)
        × (dispatch gob zero_value req (add_service svc rs) s
            ≡ some (record (add_service svc rs) { count = rs.count + 1 }, (m.func args s).0, rep))
        × (end_req gob lost' late req.endname info
              (some rep)
              (take_req gob req (ready rn endname servername server))
            ≡ (end, answers rep))
        × (call_end gob rep ≡ some (true, some (m.func args s).1))
        × (end.count ≡ rn.count + 1)
  unfolding call_begin begin_req take_req end_req call_end ready
  call_alone rn endname servername server svc rs method m args s lost lost' late rel ord open'
        dotless has =
      let req : ReqMsg B = record {
        endname = endname;
        svc_meth = svc.name ++S "." ++S method;
        args = gob.encode args;
      } in
      let info : Info = record {
        servername = servername;
        server = server;
        reliable = true;
        long_reordering = false;
      } in
      let rep : ReplyMsg B = record { ok = true; reply = some (gob.encode (m.func args s).1) } in
      let net = ready rn endname servername server in
      (
        req,
        info,
        rep,
        send_reply gob rep (take_req gob req net),
        rw open' refl,
        ground (
          arith,
          find-put_self endname true rn.enabled,
          find-put_self endname (some servername) rn.connections,
          find-put_self servername (some server) rn.servers,
        ),
        refl,
        dispatch-add_service svc rs method m endname args s dotless has,
        end_req-ready gob rn endname servername server lost' late req rep,
        rw (gob.decode-encode (m.func args s).1) refl,
        refl,
      )
