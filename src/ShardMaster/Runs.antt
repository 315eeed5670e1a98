-- ===== src/ShardMaster/Runs.antt =====
-- A shard master from its start on.
use sjytker_my_mit.Base.{
  ℕ, ◌<◌, ◌≡◌, refl, sym, ap, ◌∙◌, subst, inl, inr, some, List, [], ◌∷◌, ◌++◌, arith, leb-false,
  >>=-eq-some, length, get_elem?, replicate, length-append, get_elem?-some, get_elem?-append_left,
  pos,
}
use sjytker_my_mit.Raft.State.{ApplyMsg, Persister}
use sjytker_my_mit.Raft.Persist.{Gob, PersistData}
use sjytker_my_mit.Raft.Role.{make}
use sjytker_my_mit.ShardMaster.Config.{n_shards, Config, Op}
use sjytker_my_mit.ShardMaster.Adjust.{Orders}
use sjytker_my_mit.ShardMaster.Server.{
  ShardMaster, apply_msg, apply_msgs, start_server, get_config_copy,
}
use sjytker_my_mit.ShardMaster.History.{IsHistory, Extends, Numbered-get, apply_msg-Extends}

-- The second list begins with the first.
abbrev pub Prefix : List Config → List Config → Type 0
Prefix cs cs' = (more : List Config) × (cs' ≡ cs ++ more)

append_assoc : (xs ys zs : List Config) → (xs ++ ys) ++ zs ≡ xs ++ (ys ++ zs)
append_assoc [] ys zs = refl
append_assoc (x ∷ xs) ys zs = ap (λ l. x ∷ l) (append_assoc xs ys zs)

append_nil : (xs : List Config) → xs ≡ xs ++ []
append_nil [] = refl
append_nil (x ∷ xs) = ap (λ l. x ∷ l) (append_nil xs)

Extends-Prefix : (a b c : List Config) → Extends a b → Prefix b c → Prefix a c
Extends-Prefix a b c (inl e) (more, p) = (more, p ∙ ap (λ l. l ++ more) e)
Extends-Prefix a b c (inr (x, e, n)) (more, p) =
    (x ∷ more, p ∙ ap (λ l. l ++ more) e ∙ append_assoc a (x ∷ []) more)

module _ {B : Type 0} where
  apply_msgs-Prefix :
      (msgs : List (Orders × ApplyMsg Op)) (sm sm' : ShardMaster B)
      → IsHistory sm.configs
      → apply_msgs msgs sm ≡ some sm'
      → IsHistory sm'.configs × Prefix sm.configs sm'.configs
  unfolding apply_msgs
  apply_msgs-Prefix [] sm sm' h e =
      let same : sm'.configs ≡ sm.configs = ground arith in
      (subst IsHistory (sym same) h, ([], same ∙ append_nil sm.configs))
  apply_msgs-Prefix ((orders, msg) ∷ msgs) sm sm' h e =
      let (mid, f, k) = >>=-eq-some (apply_msg orders msg sm) _ e in
      let (h', x) = apply_msg-Extends orders msg sm mid h f in
      let (h'', p) = apply_msgs-Prefix msgs mid sm' h' k in
      (h'', Extends-Prefix sm.configs mid.configs sm'.configs x p)

module _ {B : Type 0} (gob : Gob (PersistData Op) B) where
  start_server-IsHistory :
      (servers me : ℕ) (persister : Persister B) (sm : ShardMaster B)
      → start_server gob servers me persister ≡ some sm
      → IsHistory sm.configs
  unfolding start_server
  start_server-IsHistory servers me persister sm e =
      let (rf, f, k) = >>=-eq-some (make gob servers me persister) _ e in
      let c : Config = record { num = 0; shards = replicate n_shards 0; groups = [] } in
      let same : c ∷ [] ≡ sm.configs = ground arith in
      subst IsHistory same (omega arith, (refl, tt))

  -- A shard master that has started and then applied any two runs of messages, in any orders of its
  -- loops over maps, answers a query for a number that existed between the two as it did then.
  pub query-stays :
      (servers me : ℕ) (persister : Persister B) (before after : List (Orders × ApplyMsg Op))
      (start mid end : ShardMaster B) (num : ℕ)
      → start_server gob servers me persister ≡ some start
      → apply_msgs before start ≡ some mid
      → apply_msgs after mid ≡ some end
      → num < length mid.configs
      → (c : Config) × (get_config_copy (pos num) mid ≡ some c)
        × (get_config_copy (pos num) end ≡ some c)
        × (c.num ≡ num)
  unfolding get_config_copy
  query-stays servers me persister before after start mid end num s b a lt =
      let h0 = start_server-IsHistory servers me persister start s in
      let (h1, p1) = apply_msgs-Prefix before start mid h0 b in
      let (h2, (more, e)) = apply_msgs-Prefix after mid end h1 a in
      let (c, f) = get_elem?-some mid.configs num lt in
      let lt' : num < length end.configs =
        omega (arith, ap length e, length-append mid.configs more) in
      let g : get_elem? end.configs num ≡ some c =
        ap (λ l. get_elem? l num) e ∙ get_elem?-append_left mid.configs more num lt ∙ f in
      (
        c,
        rw (leb-false (length mid.configs) num lt) f,
        rw (leb-false (length end.configs) num lt') g,
        omega (arith, Numbered-get 0 num mid.configs h1.1 f),
      )
