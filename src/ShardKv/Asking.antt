-- ===== src/ShardKv/Asking.antt =====
-- Whom the clerk of the sharded store asks, and that it ends.
use Prim.Native.String.{String}
use sjytker_my_mit.Base.{
  ℕ, zero, suc, ◌+◌, ◌<◌, ◌≡◌, refl, sym, ap, ◌∙◌, subst, ◌⊎◌, inl, inr, Bool, true, Option, none,
  some, List, [], ◌∷◌, arith, same_text, Bool-cases, Option-cases, >>=-eq-some, some_eq, get_elem?,
  find,
}
use sjytker_my_mit.ShardMaster.Config.{Config}
use sjytker_my_mit.ShardKv.State.{GetArgs}
use mathlib.Core.List.{Memᴰ}
use sjytker_my_mit.ShardKv.Clerk.{
  key2shard, Clerk, Reply, or_rest, pass, round, rounds, got_value, get_args, get,
}

-- The configuration of a round: the one at the start, and then what came after the round before.
abbrev pub config_of : (newest : ℕ → Config) → Config → ℕ → ℕ → Config
config_of newest config r zero = config
config_of newest config r (suc k) = newest (r + k)

config_of-suc :
    (newest : ℕ → Config) (config : Config) (r k : ℕ)
    → config_of newest (newest r) (r + 1) k ≡ config_of newest config r (suc k)
config_of-suc newest config r zero = ap newest (omega arith)
config_of-suc newest config r (suc k) = ap newest (omega arith)

module _ (done : String → Bool) where
  -- A pass that ends with a value has it from a server of the list that is done.
  abbrev Answered : (String → Reply) → List String → String → Type 0
  Answered call servers value =
      (server : String) × (err : String) × Memᴰ server servers
      × (call server ≡ some (err, value))
      × (done err ≡ true)

  or_rest-cases :
      (reply : Reply) (rest : Option String) {value : String}
      → or_rest done reply rest ≡ some value
      → ((err : String) × (reply ≡ some (err, value)) × (done err ≡ true)) ⊎ (rest ≡ some value)
  or_rest-cases none rest e = inr e
  or_rest-cases (some (err, v)) rest {value} e = elim (Bool-cases (done err)) [
    | inl t ↦ inl (err, ap (λ x. some (err, x)) (some_eq (sym (rw t refl) ∙ e)), t)
    | inr f ↦ elim (Bool-cases (same_text err "ErrWrongGroup")) [
      | inl g ↦ absurd (ground arith)
      | inr g ↦ inr (sym (rw (f, g) refl) ∙ e)
    ]
  ]

  pass-Answered :
      (call : String → Reply) (servers : List String) {value : String}
      → pass done call servers ≡ some value
      → Answered call servers value
  unfolding pass
  pass-Answered call [] e = absurd cc
  pass-Answered call (server ∷ servers) {value} e =
      elim (or_rest-cases (call server) (pass done call servers) e) [
        | inl (err, c, d) ↦ (server, err, Memᴰ.head refl, c, d)
        | inr rest ↦
            let (s, err, m, c, d) = pass-Answered call servers rest in (s, err, Memᴰ.tail m, c, d)
      ]

  -- What a round with a value has asked: a server of the group that the configuration gives the shard.
  abbrev pub AskedOwner : (shard : ℕ) → Config → (ℕ → String → Reply) → String → Type 0
  AskedOwner shard config call value =
      (gid : ℕ) × (servers : List String) × (server : String) × (err : String) × (get_elem?
          config.shards shard
        ≡ some gid)
      × (find gid config.groups ≡ some servers)
      × Memᴰ server servers
      × (call gid server ≡ some (err, value))
      × (done err ≡ true)

  round-AskedOwner :
      (shard : ℕ) (ck : Clerk) (call : ℕ → String → Reply) {value : String}
      → round done shard ck call ≡ some (some value)
      → AskedOwner shard ck.config call value
  unfolding round
  round-AskedOwner shard ck call {value} e =
      let (gid, owner, f) = >>=-eq-some (get_elem? ck.config.shards shard) _ e in
      elim (Option-cases (find gid ck.config.groups)) [
        | inl n ↦ absurd (ground arith)
        | inr (servers, g) ↦
            let (server, err, m, c, d) = pass-Answered (call gid) servers (ground arith) in
            (gid, servers, server, err, owner, g, m, c, d)
      ]

  rounds-AskedOwner :
      (shard : ℕ) (call : ℕ → ℕ → String → Reply) (newest : ℕ → Config) (r fuel : ℕ)
      → (ck : Clerk) {ck' : Clerk} {value : String}
      → rounds done shard call newest r fuel ck ≡ some (some value, ck')
      → (k : ℕ) × (k < fuel)
        × AskedOwner shard (config_of newest ck.config r k) (call (r + k)) value
        × (ck'.config ≡ config_of newest ck.config r k)
  unfolding rounds
  rounds-AskedOwner shard call newest r zero ck e = absurd (ground arith)
  rounds-AskedOwner shard call newest r (suc fuel) ck {ck'} {value} e =
      let (result, f, g) = >>=-eq-some (round done shard ck (call r)) _ e in
      elim (Option-cases result) [
        | inr (v, h) ↦
            let same : v ≡ value = ground arith in
            (
              0,
              omega arith,
              subst (λ m. AskedOwner shard ck.config (call m) value) (omega arith)
                  (round-AskedOwner shard ck (call r) (f ∙ ap some (h ∙ ap some same))),
              ground arith,
            )
        | inl n ↦
            let (k, lt, asked, at) =
              rounds-AskedOwner shard call newest (r + 1) fuel (record ck { config = newest r })
                {ck' = ck'} {value = value} (ground arith) in
            let next = config_of-suc newest ck.config r k in
            (
              suc k,
              omega arith,
              subst (λ c. AskedOwner shard c (call (r + suc k)) value) next
                  (subst
                    (λ m. AskedOwner shard (config_of newest (newest r) (r + 1) k) (call m) value)
                    (omega arith) asked),
              at ∙ next,
            )
      ]

-- Where Get returns a value, a server gave it in some round, with OK or ErrNoKey, to a request with
-- the number of a group and the key's shard: the group that the configuration of that round gives the
-- shard, and a server of that group. The request has the same message id in every round.
pub get-owner :
    (key : String) (msg_id : ℕ)
    → (call : ℕ → GetArgs → String → Reply)
    → (newest : ℕ → Config) (fuel : ℕ) (ck ck' : Clerk) (value : String)
    → get key msg_id call newest fuel ck ≡ some (some value, ck')
    → (r : ℕ) × (r < fuel)
      × AskedOwner got_value
          (key2shard key)
          (config_of newest ck.config 0 r)
          (λ gid. call r (get_args key msg_id ck gid))
          value
      × (ck'.config ≡ config_of newest ck.config 0 r)
unfolding get
get-owner key msg_id call newest fuel ck ck' value e =
    let asks = λ (r gid : ℕ). call r (get_args key msg_id ck gid) in
    let (r, lt, asked, at) =
      rounds-AskedOwner got_value (key2shard key) asks newest 0 fuel ck {ck' = ck'} {value = value}
        e in
    (
      r,
      lt,
      subst
          (λ m.
            AskedOwner got_value (key2shard key) (config_of newest ck.config 0 r) (asks m) value)
          (omega arith) asked,
      at,
    )
