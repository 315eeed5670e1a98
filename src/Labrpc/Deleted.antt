-- ===== src/Labrpc/Deleted.antt =====
-- A server that has been deleted answers no more.
use sjytker_my_mit.Base.{
  ℕ, ◌≡◌, refl, subst, ◌≢◌, Bool, false, Option, none, some, List, [], ◌∷◌, arith, >>=-eq-some,
  some_eq, find-put,
}
use sjytker_my_mit.Labrpc.Network.{
  Network, same_server, server_at, is_server_dead, add_server, delete_server, Change, reliables,
  reorders, slows, makes, deletes, adds, connects, enables, change, changes,
}
use sjytker_my_mit.Labrpc.Server.{ReplyMsg, no_reply}
use sjytker_my_mit.Labrpc.Request.{Info, answers, end_req}
use sjytker_my_mit.Raft.Persist.{Gob}

-- No change adds this server.
abbrev pub AddsNot : ℕ → List Change → Type 0
AddsNot server [] = Unit
AddsNot server (adds n p ∷ cs) = (p ≢ server) × AddsNot server cs
AddsNot server (c ∷ cs) = AddsNot server cs

-- The server does not go by this name.
abbrev Gone : (servername server : ℕ) → Network → Type 0
Gone servername server rn = same_server (server_at servername rn) server ≡ false

adds-Gone :
    (servername server n p : ℕ) (rn : Network)
    → p ≢ server
    → Gone servername server rn
    → Gone servername server (add_server n p rn)
unfolding add_server
adds-Gone servername server n p rn ne h = ground (arith, find-put n servername (some p) rn.servers)

deletes-Gone :
    (servername server n : ℕ) (rn : Network)
    → Gone servername server rn
    → Gone servername server (delete_server n rn)
unfolding delete_server
deletes-Gone servername server n rn h =
    ground (arith, find-put {V = Option ℕ} n servername none rn.servers)

delete_server-Gone :
    (servername server : ℕ) (rn : Network) → Gone servername server (delete_server servername rn)
unfolding delete_server
delete_server-Gone servername server rn =
    ground (arith, find-put {V = Option ℕ} servername servername none rn.servers)

make_end-servers :
    (endname : ℕ) (rn rn' : Network)
    → change (makes endname) rn ≡ some rn'
    → rn'.servers ≡ rn.servers
unfolding change
make_end-servers endname rn rn' h = ground arith

changes-Gone :
    (servername server : ℕ) (cs : List Change) (rn rn' : Network)
    → AddsNot server cs
    → changes cs rn ≡ some rn'
    → Gone servername server rn
    → Gone servername server rn'
unfolding changes
changes-Gone servername server [] rn rn' a e h = subst (Gone servername server) (some_eq e) h
changes-Gone servername server (reliables b ∷ cs) rn rn' a e h =
    changes-Gone servername server cs _ rn' a e h
changes-Gone servername server (reorders b ∷ cs) rn rn' a e h =
    changes-Gone servername server cs _ rn' a e h
changes-Gone servername server (slows b ∷ cs) rn rn' a e h =
    changes-Gone servername server cs _ rn' a e h
changes-Gone servername server (makes endname ∷ cs) rn rn' a e h =
    let (mid, f, g) = >>=-eq-some (change (makes endname) rn) (changes cs) e in
    changes-Gone servername server cs mid rn' a g (rw (make_end-servers endname rn mid f) h)
changes-Gone servername server (deletes n ∷ cs) rn rn' a e h =
    changes-Gone servername server cs (delete_server n rn) rn' a e
      (deletes-Gone servername server n rn h)
changes-Gone servername server (adds n p ∷ cs) rn rn' (ne, a) e h =
    changes-Gone servername server cs (add_server n p rn) rn' a e
      (adds-Gone servername server n p rn ne h)
changes-Gone servername server (connects endname n ∷ cs) rn rn' a e h =
    changes-Gone servername server cs _ rn' a e h
changes-Gone servername server (enables endname b ∷ cs) rn rn' a e h =
    changes-Gone servername server cs _ rn' a e h

-- Once a server has been deleted, no call that it took before gets a reply that processReq has not yet
-- seen to: whatever is changed after that, with other servers under the same name too, but not this
-- very server added again, and whatever the handler gives and the random numbers are, the call fails.
pub delete_server-fails :
    {V B : Type 0} (gob : Gob V B) (lost late : Bool) (endname : ℕ)
    → (info : Info) (rep : Option (ReplyMsg B)) (cs : List Change) (rn rn' : Network)
    → AddsNot info.server cs
    → changes cs (delete_server info.servername rn) ≡ some rn'
    → end_req gob lost late endname info rep rn' ≡ (rn', answers no_reply)
unfolding end_req is_server_dead
delete_server-fails gob lost late endname info none cs rn rn' a e = refl
delete_server-fails gob lost late endname info (some rep) cs rn rn' a e =
    let gone =
      changes-Gone info.servername info.server cs (delete_server info.servername rn) rn' a e
        (delete_server-Gone info.servername info.server rn) in
    ground arith
