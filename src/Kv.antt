-- ===== src/Kv.antt =====
-- The replicated key-value server: kvraft/server.go and common.go. The ids of clients, messages and requests are numbers
-- drawn at random.
pub mod Once
pub mod Recovery
pub mod Clerk
pub mod Leading
pub mod Linear
mod LeadingExamples
mod Examples
use Prim.Native.String.{String, ◌++◌ as ◌++S◌}
use sjytker_my_mit.Base.{
  ℕ, zero, suc, ◌+◌, ◌-◌, ◌*◌, ◌/◌, ◌%◌, ◌≤◌, ◌<◌, ◌≡◌, refl, sym, ap, ◌∙◌, subst, ◌≢◌, ◌↔◌, ◌⊎◌,
  inl, inr, Bool, true, false, not, ◌&&◌, ◌||◌, Option, none, some, List, [], ◌∷◌, ◌++◌, map, arith,
  dec_lt, ℕ_discrete, ltb, leb, same_text, ◌==◌, if◌then◌else◌, ltb→lt, lt→ltb, leb→le, le→leb,
  ltb-false, leb-false, ==_iff, ==_refl, ==_false, tests, Bool-cases, Option-cases, ◌>>=◌,
  >>=-eq-some, length, get_elem?, set, take, drop, replicate, length-append, length-take,
  length-drop, length-replicate, length-set, get_elem?-some, get_elem?-none, get_elem?-lt,
  get_elem?-drop, get_elem?-take, get_elem?-append_left, get_elem?-append_right, get_elem?-set_self,
  get_elem?-set_ne, find, put, delete, find-put, find-delete, ℤ, pos, negsuc, pos_part, neg_part,
  sub_ℕ, ◌≤ℤ◌, leb_ℤ, eqb_ℤ, minus_one, eqb_ℤ→eq, eqb_ℤ-refl, +ℤ_parts, -ℤ_parts, eq_of_parts,
  int_laws, ◌+ℤ◌, ◌-ℤ◌,
}
use sjytker_my_mit.Raft.State.{Command, ApplyMsg, Persister, Raft}
use sjytker_my_mit.Raft.Persist.{Gob, PersistData, raft_state_size}
use sjytker_my_mit.Raft.Role.{get_state, start, make}
use sjytker_my_mit.Raft.Snapshot.{compact}

pub record Op : Type 0 where
  pub method : String
  pub key : String
  pub value : String
  pub client_id : ℕ
  pub msg_id : ℕ
  pub request_id : ℕ

pub record NotifyMsg : Type 0 where
  pub err : String
  pub value : String

-- map[string]string
abbrev pub Store : Type 0
Store = String → Option String

-- data[key], where a missing key reads as the empty text
abbrev pub read : Store → String → String
read store key = elim (store key) [ none ↦ "" | some v ↦ v ]

abbrev pub write : String → String → Store → Store
write key v store other = if same_text key other then some v else store other

-- The channel of a request: its caller waits on it, has received from it, or has left it at the
-- timeout and has yet to remove it.
pub data Chan : Type 0 where
  waiting : Chan
  received : NotifyMsg → Chan
  left : Chan

pub record KvServer (B : Type 0) : Type 0 where
  pub me : ℕ
  pub rf : Raft Op B
  pub store : Store
  pub max_raft_state : ℤ
  pub last_applied : List (ℕ × ℕ)
  pub notify_data : List (ℕ × Chan)

-- What a snapshot encodes: data (the field `store` here), then lastApplied.
abbrev pub KvData : Type 0
KvData = Store × List (ℕ × ℕ)

pub record PutAppendArgs : Type 0 where
  pub key : String
  pub value : String
  pub op : String
  pub msg_id : ℕ
  pub client_id : ℕ

pub record GetArgs : Type 0 where
  pub key : String
  pub msg_id : ℕ
  pub client_id : ℕ

-- How far a request has come; other steps of the server come between two stages. `asking` is the test
-- of Get, `starting` the call of Start, `started` the lock under which the channel is made, `waits`
-- the wait for raft, and `answered` the end.
pub data Stage : Type 0 where
  asking starting started waits : Stage
  answered : NotifyMsg → Stage

unfoldable pub get_op : ℕ → GetArgs → Op
get_op request_id args = record {
  method = "Get";
  key = args.key;
  value = "";
  client_id = args.client_id;
  msg_id = args.msg_id;
  request_id = request_id;
}

unfoldable pub put_append_op : ℕ → PutAppendArgs → Op
put_append_op request_id args = record {
  method = args.op;
  key = args.key;
  value = args.value;
  client_id = args.client_id;
  msg_id = args.msg_id;
  request_id = request_id;
}

module _ {B : Type 0} where
  unfoldable pub check_applied : ℕ → ℕ → KvServer B → Bool
  check_applied msg_id client_id kv = elim (find client_id kv.last_applied) [
    | none ↦ false
    | some old_msg_id ↦ msg_id == old_msg_id
  ]

  -- The part of WaitApplyCh that changes the data.
  unfoldable pub execute : Op → KvServer B → KvServer B
  unfolding check_applied
  execute op kv =
      let repeat = check_applied op.msg_id op.client_id kv in
      if not repeat && same_text op.method "Put"
      then record kv {
        store = write op.key op.value kv.store;
        last_applied = put op.client_id op.msg_id kv.last_applied;
      }
      else if not repeat && same_text op.method "Append"
      then record kv {
        store = write op.key (read kv.store op.key ++S op.value) kv.store;
        last_applied = put op.client_id op.msg_id kv.last_applied;
      }
      else kv

  -- The send on the channel of the request, if there is one. It has no buffer: where the caller does
  -- not wait any more, it never returns, which is `none`.
  unfoldable pub notify : Op → KvServer B → Option (KvServer B)
  notify op kv = elim (find op.request_id kv.notify_data) [
    | none ↦ some kv
    | some waiting ↦ some (record kv {
      notify_data =
          put op.request_id (received (record { err = "OK"; value = read kv.store op.key }))
            kv.notify_data;
    })
    | some _ ↦ none
  ]

  unfoldable pub remove_ch : ℕ → KvServer B → KvServer B
  remove_ch id kv = record kv { notify_data = delete id kv.notify_data }

  -- The end of waitForRaft: the reply of the channel, or a timeout while it is still open.
  unfoldable pub finish_wait : ℕ → KvServer B → KvServer B × NotifyMsg
  unfolding remove_ch
  finish_wait id kv = elim (find id kv.notify_data) [
    | some (received msg) ↦ (remove_ch id kv, msg)
    | _ ↦ (remove_ch id kv, record { err = "ErrTimeOut"; value = "" })
  ]

  -- The timeout of waitForRaft, before removeCh gets the lock.
  unfoldable pub time_out : ℕ → KvServer B → KvServer B
  time_out id kv = record kv { notify_data = put id left kv.notify_data }

module _ {B : Type 0} (gob : Gob (PersistData Op) B) (kv_gob : Gob KvData B) where
  -- The next stage of a request with its Op. Each stage has one look at the shared state, under its
  -- own lock.
  unfoldable pub advance : Op → Stage → KvServer B → Option (KvServer B × Stage)
  advance op asking kv = some (
    kv,
    if (get_state kv.rf).1
        then starting
        else answered (record { err = "ErrWrongLeader"; value = "" }),
  )
  advance op starting kv = do
    (rf, (index, term, leads)) ← start gob (Command.op op) kv.rf
    some (
      record kv { rf = rf },
      if leads then started else answered (record { err = "ErrWrongLeader"; value = "" }),
    )
  advance op started kv =
      some (record kv { notify_data = put op.request_id waiting kv.notify_data }, waits)
  advance op stage kv = some (kv, stage)

  -- Get up to the wait, from `asking` on.
  unfoldable pub get : ℕ → GetArgs → Stage → KvServer B → Option (KvServer B × Stage)
  unfolding advance get_op
  get request_id args stage kv = advance (get_op request_id args) stage kv

  -- PutAppend up to the wait, from `starting` on: it does not ask for the state first.
  unfoldable pub put_append : ℕ → PutAppendArgs → Stage → KvServer B → Option (KvServer B × Stage)
  unfolding advance put_append_op
  put_append request_id args stage kv = advance (put_append_op request_id args) stage kv

  -- `none` is a panic of SaveStateAndSnapshot.
  unfoldable pub save_snapshot : ℕ → KvServer B → Option (KvServer B)
  save_snapshot index kv =
      let size = raft_state_size gob.size kv.rf.persister in
      if eqb_ℤ kv.max_raft_state minus_one || leb_ℤ (pos (size + 1)) kv.max_raft_state
      then some kv
      else (do
        rf ← compact gob index (kv_gob.encode (kv.store, kv.last_applied)) kv.rf
        some (record kv { rf = rf }))

  -- `none` is `os.Exit(1)`.
  unfoldable pub read_snapshot : Option B → KvServer B → Option (KvServer B)
  read_snapshot none kv = some kv
  read_snapshot (some bytes) kv = do
    (store, last_applied) ← kv_gob.decode bytes
    some (record kv { store = store; last_applied = last_applied })

  -- WaitApplyCh for one message. What is no Op fails the type assertion.
  unfoldable pub apply_msg : ApplyMsg Op → KvServer B → Option (KvServer B)
  unfolding execute notify read_snapshot save_snapshot
  apply_msg msg kv =
      if msg.command_valid
      then elim msg.command [
        | Command.op op ↦ do kv' ← save_snapshot msg.command_index (execute op kv); notify op kv'
        | _ ↦ none
      ]
      else read_snapshot kv.rf.persister.snapshot kv

  -- StartKVServer
  unfoldable pub start_kv_server : (servers me : ℕ) → Persister B → ℤ → Option (KvServer B)
  unfolding read_snapshot make
  start_kv_server servers me persister max_raft_state = do
    rf ← make gob servers me persister
    read_snapshot persister.snapshot (record {
      me = me;
      rf = rf;
      store = λ key. none;
      max_raft_state = max_raft_state;
      last_applied = [];
      notify_data = [];
    })

  -- The messages of applyCh, one after the other.
  unfoldable pub apply_msgs : List (ApplyMsg Op) → KvServer B → Option (KvServer B)
  unfolding apply_msg
  apply_msgs [] kv = some kv
  apply_msgs (msg ∷ msgs) kv = do kv' ← apply_msg msg kv; apply_msgs msgs kv'
