-- ===== src/Labrpc/Calls.antt =====
-- What a call's outcome says of its handler.
use sjytker_my_mit.Base.{
  ℕ, ◌≤◌, ◌≡◌, refl, sym, ap, subst, ◌⊎◌, inl, inr, Bool, true, not, ◌&&◌, some, List, [], ◌∷◌,
  arith, ◌==◌, if◌then◌else◌, ==_iff, Bool-cases, length,
}
use sjytker_my_mit.Raft.Persist.{Gob}
use sjytker_my_mit.Labrpc.Network.{Network, is_server_dead}
use sjytker_my_mit.Labrpc.Server.{ReqMsg, ReplyMsg, no_reply, Server, dispatch}
use sjytker_my_mit.Labrpc.Request.{Info, end_req}
use sjytker_my_mit.Labrpc.System.{
  Trip, idle, sent, running, abandoned, returned, delayed, answered, Run, System, update, ended,
  ran, Step, send, start, fail, handle, give_up, drain, finish, deliver, configure, Reach, begin,
  next,
}

-- The calls of a handler for one request.
abbrev pub runs_of : {V B S : Type 0} → ℕ → List (Run V B S) → List (Run V B S)
runs_of i [] = []
runs_of i (run ∷ runs) = let rest = runs_of i runs in if run.id == i then run ∷ rest else rest

module _ {V B S : Type 0} (gob : Gob V B) (zero_value : V) where
  -- The handler has returned once for the request, on it, with this reply.
  abbrev pub Once : ReqMsg B → ReplyMsg B → List (Run V B S) → Type 0
  Once req rep runs =
      (run : Run V B S) × (runs ≡ run ∷ [])
      × (run.req ≡ req)
      × (run.rep ≡ rep)
      × ((rs : Server V S) × (state : S) × (dispatch gob zero_value req run.server run.before
            ≡ some (rs, state, rep)))

  -- What the calls for a request are, by where the request is.
  abbrev Fits : Trip B → List (Run V B S) → Type 0
  Fits idle runs = runs ≡ []
  Fits (sent req) runs = runs ≡ []
  Fits (running req info) runs = runs ≡ []
  Fits (abandoned req info) runs = runs ≡ []
  Fits (returned req info rep) runs = Once req rep runs
  Fits (delayed req rep) runs = Once req rep runs
  Fits (answered req rep) runs = ((rep ≡ no_reply) × (length runs ≤ 1)) ⊎ Once req rep runs

  Once-length :
      (req : ReqMsg B) (rep : ReplyMsg B) (runs : List (Run V B S))
      → Once req rep runs
      → length runs ≤ 1
  Once-length req rep runs h = rw h.1 (omega arith)

  Fits-length : (t : Trip B) (runs : List (Run V B S)) → Fits t runs → length runs ≤ 1
  Fits-length idle runs h = rw h (omega arith)
  Fits-length (sent req) runs h = rw h (omega arith)
  Fits-length (running req info) runs h = rw h (omega arith)
  Fits-length (abandoned req info) runs h = rw h (omega arith)
  Fits-length (returned req info rep) runs h = Once-length req rep runs h
  Fits-length (delayed req rep) runs h = Once-length req rep runs h
  Fits-length (answered req rep) runs (inl h) = h.1
  Fits-length (answered req rep) runs (inr h) = Once-length req rep runs h

  abbrev AllFit : (ℕ → Trip B) → List (Run V B S) → Type 0
  AllFit trips runs = (i : ℕ) → Fits (trips i) (runs_of i runs)

  -- One request moves on, and no handler returns.
  moves-AllFit :
      (trips : ℕ → Trip B) (runs : List (Run V B S)) (i : ℕ) (t : Trip B)
      → AllFit trips runs
      → Fits t (runs_of i runs)
      → AllFit (update trips i t) runs
  moves-AllFit trips runs i t all new j = elim (Bool-cases (i == j)) [
    | inl e ↦ rw e (subst (λ k. Fits t (runs_of k runs)) ((==_iff i j).0 e) new)
    | inr e ↦ rw e (all j)
  ]

  -- A handler returns for a request, for which none had.
  ran-AllFit :
      (trips : ℕ → Trip B) (runs : List (Run V B S)) (run : Run V B S) (t : Trip B)
      → AllFit trips runs
      → Fits t (run ∷ runs_of run.id runs)
      → AllFit (update trips run.id t) (run ∷ runs)
  ran-AllFit trips runs run t all new j = elim (Bool-cases (run.id == j)) [
    | inl e ↦ rw e (subst (λ k. Fits t (run ∷ runs_of k runs)) ((==_iff run.id j).0 e) new)
    | inr e ↦ rw e (all j)
  ]

  ended-Fits :
      (req : ReqMsg B) (info : Info) (rep : ReplyMsg B) (lost late : Bool) (rn : Network)
      → (runs : List (Run V B S)) → Once req rep runs
      → Fits (ended req (end_req gob lost late req.endname info (some rep) rn).1) runs
  unfolding end_req
  ended-Fits req info rep lost late rn runs h =
      elim (Bool-cases (is_server_dead req.endname info.servername info.server rn)) [
        | inl d ↦ rw d (inl (refl, Once-length req rep runs h))
        | inr a ↦ elim (Bool-cases (not info.reliable && lost)) [
          | inl l ↦ rw (a, l) (inl (refl, Once-length req rep runs h))
          | inr k ↦ elim (Bool-cases (info.long_reordering && late)) [
            | inl x ↦ rw (a, k, x) h
            | inr x ↦ rw (a, k, x) (inr h)
          ]
        ]
      ]

  follow : (s s' : System V B S) → s' ≡ s → AllFit s.trips s.runs → AllFit s'.trips s'.runs
  follow s s' q h = subst (λ (x : System V B S). AllFit x.trips x.runs) (sym q) h

  -- A handler that is running for a request returns.
  returns-AllFit :
      (s : System V B S) (i : ℕ) (req : ReqMsg B) (info : Info) (rs : Server V S) (state : S)
      → (rep : ReplyMsg B) (t : Trip B) → AllFit s.trips s.runs
      → runs_of i s.runs ≡ []
      → dispatch gob zero_value req (s.heap info.server) s.state ≡ some (rs, state, rep)
      → ((runs : List (Run V B S)) → Once req rep runs → Fits t runs)
      → AllFit
          (ran gob zero_value s i req info rs state rep t).trips
          (ran gob zero_value s i req info rs state rep t).runs
  returns-AllFit s i req info rs state rep t all none_yet d fits =
      let run : Run V B S = record {
        id = i;
        req = req;
        server = s.heap info.server;
        before = s.state;
        rep = rep;
      } in
      ran-AllFit s.trips s.runs run t all (
        fits (run ∷ runs_of i s.runs) (run, ap (λ l. run ∷ l) none_yet, refl, refl, (rs, state, d)))

  Step-AllFit :
      (s s' : System V B S)
      → Step gob zero_value s s'
      → AllFit s.trips s.runs
      → AllFit s'.trips s'.runs
  Step-AllFit s s' (send i e m args req at c q) all = follow _ s' q (
      moves-AllFit s.trips s.runs i (sent req) all
        (subst (λ t. Fits t (runs_of i s.runs)) at (all i)))
  Step-AllFit s s' (start i req lost info at b q) all = follow _ s' q (
      moves-AllFit s.trips s.runs i (running req info) all
        (subst (λ t. Fits t (runs_of i s.runs)) at (all i)))
  Step-AllFit s s' (fail i req lost at b q) all =
      let old : runs_of i s.runs ≡ [] = subst (λ t. Fits t (runs_of i s.runs)) at (all i) in
      follow _ s' q (
        moves-AllFit s.trips s.runs i (answered req no_reply) all
          (inl (refl, (rw old (omega arith)))))
  Step-AllFit s s' (handle i req info rs state rep at d q) all = follow _ s' q (
      returns-AllFit s i req info rs state rep (returned req info rep) all
        (subst (λ t. Fits t (runs_of i s.runs)) at (all i)) d (λ runs h. h))
  Step-AllFit s s' (give_up i req info at b q) all = follow _ s' q (
      moves-AllFit s.trips s.runs i (abandoned req info) all
        (subst (λ t. Fits t (runs_of i s.runs)) at (all i)))
  Step-AllFit s s' (drain i req info rs state rep at d q) all = follow _ s' q (
      returns-AllFit s i req info rs state rep (answered req no_reply) all
        (subst (λ t. Fits t (runs_of i s.runs)) at (all i)) d
        (λ runs h. inl (refl, Once-length req rep runs h)))
  Step-AllFit s s' (finish i req info rep lost late at q) all = follow _ s' q (
      moves-AllFit s.trips s.runs i _ all (
        ended-Fits req info rep lost late s.net (runs_of i s.runs)
          (subst (λ t. Fits t (runs_of i s.runs)) at (all i))))
  Step-AllFit s s' (deliver i req rep at q) all = follow _ s' q (
      moves-AllFit s.trips s.runs i (answered req rep) all
        (inr (subst (λ t. Fits t (runs_of i s.runs)) at (all i))))
  Step-AllFit s s' (configure c rn e q) all = follow _ s' q all

  Reach-AllFit : {s : System V B S} → Reach gob zero_value s → AllFit s.trips s.runs
  Reach-AllFit {s} (begin h) i = rw (h.idles i, h.no_runs) refl
  Reach-AllFit {s} (next {s = before} r st) i = Step-AllFit before s st (Reach-AllFit r) i

  -- In every reachable state of a network, with any requests under way, any losses and delays and any
  -- changes of the network: the handler has returned for a request once at most, and where a call has
  -- got a reply that is ok, the handler has returned for it exactly once, on that request, and the reply
  -- is what the handler gave.
  pub call_outcome :
      (s : System V B S) (i : ℕ)
      → Reach gob zero_value s
      → (length (runs_of i s.runs) ≤ 1)
        × ((req : ReqMsg B) (rep : ReplyMsg B)
            → s.trips i ≡ answered req rep
            → rep.ok ≡ true
            → Once req rep (runs_of i s.runs))
  call_outcome s i r = (
    Fits-length (s.trips i) (runs_of i s.runs) (Reach-AllFit r i),
    λ req rep at ok. elim (subst (λ t. Fits t (runs_of i s.runs)) at (Reach-AllFit r i)) [
      | inl h ↦ cc (h.0)
      | inr h ↦ h
    ],
  )
