-- ===== src/Raft/Complete/Accepted.antt =====
-- Entries that a peer has accepted stay in its log as long as its term is theirs.
use sjytker_my_mit.Base.{
  ℕ, zero, suc, ◌≡◌, refl, sym, ap, ◌∙◌, subst, inl, some, List, [], ◌∷◌, arith, some_eq, get_elem?,
  take, get_elem?-lt,
}
use sjytker_my_mit.Raft.State.{LogEntry, Persister}
use sjytker_my_mit.Raft.Persist.{Gob, PersistData, make_persister}
use sjytker_my_mit.Raft.Cluster.{Cluster, In, IsInitial, Reach, begin, next}
use sjytker_my_mit.Raft.Cluster.Safety.{Reach-Inv}
use sjytker_my_mit.Raft.Cluster.Matched.{Leaders, Matched, take-append}
use sjytker_my_mit.Raft.Cluster.Writes.{make-blank}
use sjytker_my_mit.Raft.Cluster.Matching.{dummy}
use sjytker_my_mit.Raft.Cluster.NetInv.{NetInv, blank-Matched}
use sjytker_my_mit.Raft.Cluster.Agreement.{Step-After, begin-NetInv, first_logs}
use sjytker_my_mit.Raft.Complete.{Ack, Past, ReachPast, begin_past, next_past, Notes-Permits}
use sjytker_my_mit.Raft.Complete.Terms.{UpTo}
use sjytker_my_mit.Raft.Complete.Preserve.{PastInv, disk_term-current}
use sjytker_my_mit.Raft.Complete.Keep.{keeps}

module _ {C B : Type 0} (gob : Gob (PersistData C) B) (n : ℕ) where
  first_log : (t : ℕ) (l : List (LogEntry C)) → first_logs gob n t ≡ some l → l ≡ dummy ∷ []
  first_log t l e = ground arith

  pub begin-PastInv :
      (s : Cluster C B)
      → IsInitial gob n s
      → PastInv gob s (record { sent = []; acks = [] }) (first_logs gob n)
  unfolding make_persister
  begin-PastInv s h = record {
    upto = λ t l e. subst (UpTo t) (sym (first_log t l e)) (only t);
    matched = λ t l e.
        subst (Matched (first_logs gob n)) (sym (first_log t l e))
          (blank-Matched gob n (first_logs gob n) [] refl);
    peers = λ i.
        let (st, ps, off, log) = make-blank gob n i make_persister refl (h.fresh i) in
        let empty = ap (λ (p : Persister B). p.raft_state) ps in
        record { on_disk = inl (empty, log); terms = subst (UpTo _) (sym log) (only _) };
    asked = λ args m. absurd m;
    acked = λ a m. absurd m;
  }
    where
      only : (t : ℕ) → UpTo {C = C} t (dummy ∷ [])
      only t zero e q = omega (arith, ap (λ (x : LogEntry C). x.term) (some_eq q))
      only t (suc k) e q = cc

  pub ReachPast-Reach : {s : Cluster C B} {past : Past C} → ReachPast gob n s past → Reach gob n s
  ReachPast-Reach (begin_past h e) = begin h
  ReachPast-Reach (next_past r st d) = next (ReachPast-Reach r) st

  ReachPast-PastInv :
      (s : Cluster C B) (past : Past C)
      → ReachPast gob n s past
      → (logs : Leaders C) × NetInv gob n s past.sent logs × PastInv gob s past logs
  ReachPast-PastInv s past (begin_past h e) = (
    first_logs gob n,
    subst (λ (p : Past C). NetInv gob n s p.sent (first_logs gob n)) (sym e)
        (begin-NetInv gob n s h),
    subst (λ p. PastInv gob s p (first_logs gob n)) (sym e) (begin-PastInv s h),
  )
  ReachPast-PastInv s past (next_past {s = t} {past = before} r st d) =
      let (logs, net, inv) = ReachPast-PastInv t before r in
      let reach = ReachPast-Reach r in
      let (logs', net', ev) =
        Step-After gob n t s before.sent past.sent logs reach (next reach st) net st
          (Notes-Permits gob n st before past d) in
      (
        logs',
        net',
        keeps gob n t s before past logs logs' reach (next reach st) inv net net' st d ev,
      )

  -- In every reachable state of a cluster that takes no snapshots and whose network delivers to
  -- AppendEntries only what some leader has sent, late, again or never: where a peer has accepted a
  -- log from the leader of a term, or has written to it as that leader, and its term is still that
  -- one, its log is up to every entry of that term what it was then, across crashes and restarts.
  pub accepted_stays :
      (s : Cluster C B) (past : Past C) (a : Ack C) (k : ℕ) (e : LogEntry C)
      → ReachPast gob n s past
      → In a past.acks
      → get_elem? a.log k ≡ some e
      → e.term ≡ a.term
      → (s.peer a.peer).current_term ≡ a.term
      → take (suc k) (s.peer a.peer).log ≡ take (suc k) a.log
  accepted_stays s past a k e r m at term cur =
      let (logs, net, inv) = ReachPast-PastInv s past r in
      let ((rest, led), low, keep) = inv.acked a m in
      let high =
        disk_term-current gob n a.peer (s.peer a.peer)
          ((Reach-Inv gob n s (ReachPast-Reach r)).peers a.peer) in
      let (x, here, same) = keep k (e, at, term) (λ v l lt le led. absurd (omega arith)) in
      let (lead, p, q) = (net.peers a.peer).good.2 k x here in
      q
      ∙ ap (take (suc k)) (some_eq (sym p ∙ ap logs same ∙ led))
      ∙ take-append (suc k) a.log rest (get_elem?-lt a.log k at)
