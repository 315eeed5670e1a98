-- ===== src/Raft/Complete/Logs.antt =====
-- What a peer has accepted stays in its log when a step writes to it.
use sjytker_my_mit.Base.{
  ℕ, zero, suc, ◌-◌, ◌≤◌, ◌<◌, ◌≡◌, refl, sym, ap, ◌∙◌, subst, inr, none, some, List, [], ◌∷◌, ◌++◌,
  arith, dec_lt, some_eq, length, get_elem?, get_elem?-some, get_elem?-lt, get_elem?-append_left,
}
use sjytker_my_mit.Raft.State.{LogEntry, Raft}
use sjytker_my_mit.Raft.Persist.{Gob, PersistData, persist_data}
use sjytker_my_mit.Raft.Cluster.Matched.{Leaders, Matched}
use sjytker_my_mit.Raft.Cluster.Grow.{Evolves}
use sjytker_my_mit.Raft.Complete.{Ack}
use sjytker_my_mit.Raft.Complete.Terms.{
  Has, OfTerm, UpTo, Has-append, Has-before, UpTo-append, UpTo-le, Has-take, Evolves-back,
}
use sjytker_my_mit.Raft.Complete.Invariant.{Kept, disk_term, OnDiskLog, Keeps, LogTerms}

module _ {C B : Type 0} (gob : Gob (PersistData C) B) where
  -- The state stands on the disk.
  abbrev pub OnDiskNow : Raft C B → Type 0
  OnDiskNow rf = rf.persister.raft_state ≡ some (gob.encode (persist_data rf))

  -- What a step makes of a peer's log: it stays; it becomes what the leader of the new term sent, which
  -- is not behind the log where that ends in that term; or a leader adds an entry to it.
  pub data Change (logs : Leaders C) (rf rf' : Raft C B) : Type 0 where
    stays :
        rf'.log ≡ rf.log
        → disk_term gob rf.persister.raft_state ≤ disk_term gob rf'.persister.raft_state
        → OnDiskLog gob rf'
        → Change logs rf rf'
    takes :
        (log more : List (LogEntry C))
        → logs rf'.current_term ≡ some (log ++ more)
        → OfTerm rf'.current_term more
        → rf'.log ≡ log
        → OnDiskNow rf'
        → rf.current_term ≤ rf'.current_term
        → ((m : ℕ) (e : LogEntry C)
            → length rf.log ≡ suc m
            → get_elem? rf.log m ≡ some e
            → e.term ≡ rf'.current_term
            → m < length log)
        → Change logs rf rf'
    adds :
        (x : LogEntry C)
        → rf'.log ≡ rf.log ++ x ∷ []
        → x.term ≡ rf'.current_term
        → rf'.current_term ≡ rf.current_term
        → OnDiskNow rf'
        → Change logs rf rf'

  pub disk_term-encode : (d : PersistData C) → disk_term gob (some (gob.encode d)) ≡ d.0
  disk_term-encode d =
      ap (λ o. elim o as (λ _. ℕ) [ none ↦ 0 | some x ↦ x.0 ]) (gob.decode-encode d)

  pub disk_term-now :
      (rf : Raft C B) → OnDiskNow rf → disk_term gob rf.persister.raft_state ≡ rf.current_term
  disk_term-now rf h = ap (disk_term gob) h ∙ disk_term-encode (persist_data rf)

  OfTerm-one : (x : LogEntry C) → OfTerm x.term (x ∷ [])
  OfTerm-one x zero e h = ap (λ (y : LogEntry C). y.term) (sym (some_eq h))
  OfTerm-one x (suc k) e h = cc

  pub LogTerms-Change :
      (logs : Leaders C) (rf rf' : Raft C B)
      → ((t : ℕ) (l : List (LogEntry C)) → logs t ≡ some l → UpTo t l)
      → disk_term gob rf.persister.raft_state ≤ rf.current_term
      → LogTerms gob rf
      → Change logs rf rf'
      → LogTerms gob rf'
  LogTerms-Change logs rf rf' upto le h (stays same mono disk) = record {
    on_disk = disk;
    terms =
        subst (UpTo (disk_term gob rf'.persister.raft_state)) (sym same)
          (UpTo-le rf.log _ _ mono h.terms);
  }
  LogTerms-Change logs rf rf' upto le h (takes log more at all same now fwd over) = record {
    on_disk = inr (persist_data rf', now, refl);
    terms = λ k e q.
        let here : get_elem? log k ≡ some e = subst (λ l. get_elem? l k ≡ some e) same q in
        let bound =
          upto rf'.current_term (log ++ more) at k e
            (get_elem?-append_left log more k (get_elem?-lt log k here) ∙ here) in
        omega (arith, disk_term-now rf' now);
  }
  LogTerms-Change logs rf rf' upto le h (adds x same term cur now) = record {
    on_disk = inr (persist_data rf', now, refl);
    terms = subst (UpTo (disk_term gob rf'.persister.raft_state)) (sym same) (
        UpTo-append rf.log (x ∷ []) _
          (UpTo-le rf.log _ _ (omega (arith, disk_term-now rf' now)) h.terms)
          (λ k e q. OfTerm-one x k e q ∙ term ∙ sym (disk_term-now rf' now)));
  }

  -- Two requests of one leader: the later one has what the earlier one had.
  at_same_term :
      (logs : Leaders C) (rf : Raft C B) (log more : List (LogEntry C)) (t : ℕ)
      (rest acked : List (LogEntry C)) (k : ℕ)
      → ((u : ℕ) (l : List (LogEntry C)) → logs u ≡ some l → UpTo u l)
      → Matched logs rf.log
      → UpTo t rf.log
      → logs t ≡ some (acked ++ rest)
      → logs t ≡ some (log ++ more)
      → ((m : ℕ) (e : LogEntry C)
          → length rf.log ≡ suc m
          → get_elem? rf.log m ≡ some e
          → e.term ≡ t
          → m < length log)
      → Has acked t k
      → Has rf.log t k
      → Has log t k
  at_same_term logs rf log more t rest acked k upto matched bound led at over has (x, here, same) =
      let lt = get_elem?-lt rf.log k here in
      let m = length rf.log - 1 in
      let (e, last) = get_elem?-some rf.log m (omega arith) in
      let (lead, p, q) = matched m e last in
      let (y, there, term) = Has-take lead rf.log t k m (omega arith) (sym q) (x, here, same) in
      let top : e.term ≡ t = omega (arith, bound m e last, upto e.term lead p k y there) in
      let long = over m e (omega arith) last top in
      let (z, found, z_term) =
        subst (λ l. Has l t k) (some_eq (sym led ∙ at)) (Has-append acked rest t k has) in
      (z, sym (get_elem?-append_left log more k (omega arith)) ∙ found, z_term)

  module _ {N : ℕ → Type 0} {logs logs' : Leaders C} (ev : Evolves N logs logs') where
    -- What later leaders keep, they kept before, where they were there.
    pub Kept-back : (t u v k : ℕ) → u ≤ v → Kept logs' t v k → Kept logs t u k
    Kept-back t u v k le h w l lt le' at =
        let (more, e, all) = ev.0 w l at in
        Evolves-back ev t w k l (l ++ more) at e (omega arith) (h w (l ++ more) lt (omega arith) e)

    pub Keeps-Change :
        (a : Ack C) (rf rf' : Raft C B) (rest : List (LogEntry C))
        → ((t : ℕ) (l : List (LogEntry C)) → logs t ≡ some l → UpTo t l)
        → Matched logs rf.log
        → disk_term gob rf.persister.raft_state ≤ rf.current_term
        → LogTerms gob rf
        → logs a.term ≡ some (a.log ++ rest)
        → a.term ≤ disk_term gob rf.persister.raft_state
        → Keeps gob logs a rf
        → Change logs rf rf'
        → Keeps gob logs' a rf'
    Keeps-Change a rf rf' rest upto m le h led low keeps (stays same mono disk) k has kept =
        subst (λ l. Has l a.term k) (sym same) (keeps k has (Kept-back a.term _ _ k mono kept))
    Keeps-Change a rf rf' rest upto m le h led low keeps (adds x same term cur now) k has kept =
        subst (λ l. Has l a.term k) (sym same)
          (Has-append rf.log (x ∷ []) a.term k
            (keeps k has (Kept-back a.term _ _ k (omega (arith, disk_term-now rf' now)) kept)))
    Keeps-Change a rf rf' rest upto m le h led low keeps (takes log more at all same now fwd over) k
          has kept =
        subst (λ l. Has l a.term k) (sym same)
          (elim (dec_lt a.term rf'.current_term) [
            | yes lt ↦
                let (more', e, all') = ev.0 rf'.current_term (log ++ more) at in
                Has-before log more a.term rf'.current_term k all (omega arith) (
                  Evolves-back ev a.term rf'.current_term k (log ++ more) ((log ++ more) ++ more')
                    at e (omega arith)
                    (kept rf'.current_term ((log ++ more) ++ more') lt
                      (omega (arith, disk_term-now rf' now)) e))
            | no ge ↦
                let t : a.term ≡ rf'.current_term = omega arith in
                at_same_term logs rf log more a.term rest a.log k upto m
                  (UpTo-le rf.log _ a.term (omega arith) h.terms) led
                  (subst (λ u. logs u ≡ some (log ++ more)) (sym t) at)
                  (λ j e l g q. over j e l g (q ∙ t)) has
                  (keeps k has (λ v l lt le' b. absurd (omega arith)))
          ])
