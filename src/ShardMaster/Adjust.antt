-- ===== src/ShardMaster/Adjust.antt =====
-- adjustConfig of shardmaster/server.go: the shards that change their group when groups come or go.
-- Go iterates over a map in an order that it chooses anew each time: `Orders` gives those orders.
use sjytker_my_mit.Base.{
  ℕ, ◌+◌, ◌-◌, ◌/◌, ◌%◌, Bool, true, false, not, ◌||◌, none, some, List, [], ◌∷◌, ltb, ◌==◌,
  if◌then◌else◌, length, get_elem?, set, replicate, put, ℤ, pos, eqb_ℤ, ◌+ℤ◌, ◌-ℤ◌,
}
use sjytker_my_mit.ShardMaster.Config.{n_shards, Config, keys, has}

-- The order of each loop over a map, in the order of the code; the inner loops of the first case run
-- once for each gid.
pub record Orders : Type 0 where
  pub keeping : List ℕ → List ℕ
  pub leaving : ℕ → List ℕ → List ℕ
  pub coming : List ℕ → List ℕ
  pub leaving_too : ℕ → List ℕ → List ℕ
  pub cleaning : List ℕ → List ℕ
  pub filling : List ℕ → List ℕ

abbrev pub at : ℕ → List ℕ → ℕ
at i xs = elim (get_elem? xs i) [ none ↦ 0 | some x ↦ x ]

-- for i := 0; i < NShards; i ++
abbrev pub shard_indices : List ℕ
shard_indices = 0 ∷ 1 ∷ 2 ∷ 3 ∷ 4 ∷ 5 ∷ 6 ∷ 7 ∷ 8 ∷ 9 ∷ []

unfoldable pub last_cnt : ℕ → List ℕ → ℕ
last_cnt gid [] = 0
last_cnt gid (g ∷ gs) = last_cnt gid gs + (if g == gid then 1 else 0)

-- lastConfig.Shards, config.Shards and the r of one loop. The code also counts lastCnt[oldGid] down,
-- at keys that it does not read again.
pub record Moving : Type 0 where
  pub last : List ℕ
  pub shards : List ℕ
  pub r : ℤ

unfoldable pub take_shard : (gid old_gid i : ℕ) → Moving → Moving
unfolding ◌-ℤ◌
take_shard gid old_gid i s =
    if at i s.last == old_gid
    then record { last = set s.last i 0; shards = set s.shards i gid; r = s.r -ℤ pos 1 }
    else s

-- The loop over the shards; the answer is whether it left the labelled loop around it.
unfoldable pub take_shards : (gid old_gid : ℕ) → List ℕ → Moving → Bool × Moving
unfolding take_shard
take_shards gid old_gid [] s = (false, s)
take_shards gid old_gid (i ∷ is) s =
    let s' = take_shard gid old_gid i s in
    elim (eqb_ℤ s'.r (pos 0)) [ true ↦ (true, s') | false ↦ take_shards gid old_gid is s' ]

-- The loops MOVEGID1 and MOVEGID2.
unfoldable pub move_gid {ℓ} : {V : Type ℓ} → ℕ → List (ℕ × V) → List ℕ → Moving → Moving
unfolding take_shards has
move_gid gid groups [] s = s
move_gid gid groups (old_gid ∷ olds) s = elim (has old_gid groups) [
  | true ↦ move_gid gid groups olds s
  | false ↦
      let (stop, s') = take_shards gid old_gid shard_indices s in
      elim stop [ true ↦ s' | false ↦ move_gid gid groups olds s' ]
]

-- lastConfig.Shards, config.Shards and left.
pub record Adjusting : Type 0 where
  pub last : List ℕ
  pub shards : List ℕ
  pub left : ℕ

unfoldable pub give {ℓ} : {V : Type ℓ} → ℕ → List (ℕ × V) → List ℕ → ℤ → ℕ → Adjusting → Adjusting
unfolding move_gid
give gid groups olds r left s =
    let m = move_gid gid groups olds (record { last = s.last; shards = s.shards; r = r }) in
    record { last = m.last; shards = m.shards; left = left }

-- One round of "move x3 to x2".
unfoldable pub grow {ℓ} :
    {V : Type ℓ} → (ℕ → List ℕ) → ℕ → List ℕ → List (ℕ × V) → ℕ → Adjusting → Adjusting
unfolding give last_cnt ◌-ℤ◌ ◌+ℤ◌
grow olds avg before groups gid s =
    let r = pos avg -ℤ pos (last_cnt gid before) in
    let r' = if ltb 0 s.left then r +ℤ pos 1 else r in
    let left' = if ltb 0 s.left then s.left - 1 else s.left in
    if (last_cnt gid before == 0) || eqb_ℤ r (pos 0)
    then s
    else if eqb_ℤ r' (pos 0)
    then record s { left = left' }
    else give gid groups (olds gid) r' left' s

-- One round of "move x3 to x1".
unfoldable pub endow {ℓ} :
    {V : Type ℓ} → (ℕ → List ℕ) → ℕ → List ℕ → List (ℕ × V) → ℕ → Adjusting → Adjusting
unfolding give last_cnt
endow olds avg before groups gid s =
    if last_cnt gid before == 0
    then (if ltb 0 s.left
        then give gid groups (olds gid) (pos (avg + 1)) (s.left - 1) s
        else give gid groups (olds gid) (pos avg) s.left s)
    else s

-- The rounds of a loop over group ids.
unfoldable pub rounds {ℓ} : {S : Type ℓ} → (ℕ → S → S) → List ℕ → S → S
rounds round [] s = s
rounds round (gid ∷ gids) s = rounds round gids (round gid s)

-- The case curLen < lastLen.
unfoldable pub adjust_leave : Orders → Config → Config → List ℕ
unfolding rounds grow endow
adjust_leave orders last config =
    let cur_len = length config.groups in
    let avg = n_shards / cur_len in
    let s =
      rounds (grow (λ gid. orders.leaving gid (keys last.groups)) avg last.shards config.groups)
        (orders.keeping (keys config.groups))
        (record { last = last.shards; shards = config.shards; left = n_shards % cur_len }) in
    (rounds (endow (λ gid. orders.leaving_too gid (keys last.groups)) avg last.shards config.groups)
      (orders.coming (keys config.groups)) s).shards

-- config.Shards, left and finish (its keys that are true).
pub record Cleaning : Type 0 where
  pub shards : List ℕ
  pub left : ℕ
  pub finish : List (ℕ × Bool)

-- The loop over the shards that gives those of `from` to `to`, until r is 0; the answer is whether
-- it got there.
unfoldable pub reassign : (from to : ℕ) → List ℕ → ℤ → List ℕ → Bool × List ℕ
unfolding ◌-ℤ◌
reassign from to [] r shards = (false, shards)
reassign from to (i ∷ is) r shards =
    let hit = at i shards == from in
    let shards' = if hit then set shards i to else shards in
    let r' = if hit then r -ℤ pos 1 else r in
    elim (eqb_ℤ r' (pos 0)) [ true ↦ (true, shards') | false ↦ reassign from to is r' shards' ]

-- config.Shards where a group that is gone has none.
unfoldable pub clear : ℕ → List ℕ → List ℕ
clear gid [] = []
clear gid (g ∷ gs) = (if g == gid then 0 else g) ∷ clear gid gs

abbrev pub finished : ℕ → Cleaning → Cleaning
finished gid s = record s { finish = put gid true s.finish }

abbrev pub after_cleaning : ℕ → ℕ → Bool × List ℕ → Cleaning → Cleaning
after_cleaning gid left (true, shards) s =
    finished gid (record { shards = shards; left = left; finish = s.finish })
after_cleaning gid left (false, shards) s = record {
  shards = shards;
  left = left;
  finish = s.finish;
}

-- One round of "clean up rest".
unfoldable pub clean {ℓ} : {V : Type ℓ} → ℕ → List ℕ → List (ℕ × V) → ℕ → Cleaning → Cleaning
unfolding has last_cnt ◌-ℤ◌ clear reassign
clean avg before groups gid s =
    let r = pos (if has gid groups then last_cnt gid before else 0) -ℤ pos avg in
    let r' = if ltb 0 s.left then r -ℤ pos 1 else r in
    let left' = if ltb 0 s.left then s.left - 1 else s.left in
    if not (has gid groups)
    then record s { shards = clear gid s.shards }
    else if eqb_ℤ r (pos 0)
    then finished gid s
    else if eqb_ℤ r' (pos 0)
    then finished gid (record s { left = left' })
    else after_cleaning gid left' (reassign gid 0 shard_indices r' s.shards) s

-- One round of "reassign shard to new group".
unfoldable pub fill : ℕ → ℕ → Cleaning → Cleaning
unfolding has reassign
fill avg gid s =
    if has gid s.finish
    then s
    else if ltb 0 s.left
    then after_cleaning gid (s.left - 1) (reassign 0 gid shard_indices (pos (avg + 1)) s.shards) s
    else after_cleaning gid s.left (reassign 0 gid shard_indices (pos avg) s.shards) s

-- The case curLen >= lastLen.
unfoldable pub adjust_join : Orders → Config → Config → List ℕ
unfolding rounds clean fill
adjust_join orders last config =
    let cur_len = length config.groups in
    let avg = n_shards / cur_len in
    let s =
      rounds (clean avg last.shards config.groups) (orders.cleaning (keys last.groups))
        (record { shards = config.shards; left = n_shards % cur_len; finish = [] }) in
    (rounds (fill avg) (orders.filling (keys config.groups)) s).shards

-- adjustConfig; `last` is the newest configuration of the server.
unfoldable pub adjust_config : Orders → Config → Config → Config
unfolding adjust_leave adjust_join
adjust_config orders last config = elim config.groups [
  | [] ↦ record config { shards = replicate n_shards 0 }
  | (gid, servers) ∷ [] ↦ record config { shards = replicate n_shards gid }
  | _ ↦
      if ltb (length config.groups) (length last.groups)
      then record config { shards = adjust_leave orders last config }
      else record config { shards = adjust_join orders last config }
]
