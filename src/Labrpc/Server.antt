-- ===== src/Labrpc/Server.antt =====
-- Servers and their services: the half of labrpc/labrpc.go that calls a handler. Values that can be
-- encoded are of one type, and the receivers of all methods share one state.
use Prim.Native.Char.{code}
use Prim.Native.String.{String}
use sjytker_my_mit.Base.{
  ℕ, ◌+◌, ◌≡◌, refl, Bool, true, false, not, ◌||◌, Option, none, some, List, [], ◌∷◌, arith,
  same_text, same_text_iff, ◌==◌, if◌then◌else◌, ◌>>=◌,
}
use sjytker_my_mit.Raft.Persist.{Gob}

pub record ReqMsg (B : Type 0) : Type 0 where
  pub endname : ℕ
  pub svc_meth : String
  pub args : B

pub record ReplyMsg (B : Type 0) : Type 0 where
  pub ok : Bool
  pub reply : Option B

-- replyMsg{false, nil}
abbrev pub no_reply : {B : Type 0} → ReplyMsg B
no_reply = record { ok = false; reply = none }

-- A method, as reflection shows it. Called, it gets its arguments and the state of its receiver, and
-- leaves that state and the reply.
pub record Method (V S : Type 0) : Type 0 where
  pub name : String
  pub pkg_path : String
  pub num_in : ℕ
  pub reply_is_ptr : Bool
  pub num_out : ℕ
  pub func : V → S → S × V

pub record Service (V S : Type 0) : Type 0 where
  pub name : String
  pub methods : List (String × Method V S)

pub record Server (V S : Type 0) : Type 0 where
  pub services : List (String × Service V S)
  pub count : ℕ

-- Maps with texts as keys: m[k] with its test, and m[k] = v.
module _ {ℓ} {A : Type ℓ} where
  unfoldable pub find_text : String → List (String × A) → Option A
  find_text k [] = none
  find_text k ((j, v) ∷ m) = if same_text j k then some v else find_text k m

  unfoldable pub put_text : String → A → List (String × A) → List (String × A)
  put_text k v [] = (k, v) ∷ []
  put_text k v ((j, w) ∷ m) = if same_text j k then (k, v) ∷ m else (j, w) ∷ put_text k v m

  pub find_text-put_text :
      (k j : String) (v : A) (m : List (String × A))
      → find_text j (put_text k v m) ≡ (if same_text k j then some v else find_text j m)
  unfolding find_text put_text
  find_text-put_text k j v [] = refl
  find_text-put_text k j v ((i, w) ∷ m) =
      ground
        (arith, same_text_iff k j, same_text_iff i k, same_text_iff i j, find_text-put_text k j v m)

-- A service and a method, split at the last dot; without a dot there is none, and the slice panics.
unfoldable pub split_meth : String → Option (String × String)
split_meth String.[] = none
split_meth (String.◌∷◌ c s) = elim (split_meth s) [
  | some (service, method) ↦ some (String.◌∷◌ c service, method)
  | none ↦ if code c == b'.' then some ("", s) else none
]

-- What Decode leaves behind, where its error is not looked at: the zero value for bytes that are no
-- encoding.
abbrev pub decoded : {V B : Type 0} → Gob V B → V → B → V
decoded gob zero_value bytes = elim (gob.decode bytes) [ none ↦ zero_value | some v ↦ v ]

module _ {V S : Type 0} where
  -- The test of MakeService for a method that is a handler.
  unfoldable pub is_handler : Method V S → Bool
  is_handler method = not (
      not (same_text method.pkg_path "")
      || not (method.num_in == 3)
      || not method.reply_is_ptr
      || not (method.num_out == 0))

  -- The loop of MakeService over the methods of the receiver.
  unfoldable pub handlers :
      List (Method V S) → List (String × Method V S) → List (String × Method V S)
  unfolding is_handler put_text
  handlers [] methods = methods
  handlers (m ∷ ms) methods =
      handlers ms (if is_handler m then put_text m.name m methods else methods)

  unfoldable pub make_service : String → List (Method V S) → Service V S
  unfolding handlers
  make_service name methods = record { name = name; methods = handlers methods [] }

  unfoldable pub make_server : Server V S
  make_server = record { services = []; count = 0 }

  unfoldable pub add_service : Service V S → Server V S → Server V S
  unfolding put_text
  add_service svc rs = record rs { services = put_text svc.name svc rs.services }

  module _ {B : Type 0} (gob : Gob V B) (zero_value : V) where
    -- Service.dispatch; a method that is not there ends the process.
    unfoldable pub dispatch_method : Service V S → String → ReqMsg B → S → Option (S × ReplyMsg B)
    unfolding find_text
    dispatch_method svc methname req s = do
      method ← find_text methname svc.methods
      let (s', replyv) = method.func (decoded gob zero_value req.args) s
      some (s', record { ok = true; reply = some (gob.encode replyv) })

    -- Server.dispatch; a service that is not there ends the process.
    unfoldable pub dispatch : ReqMsg B → Server V S → S → Option (Server V S × S × ReplyMsg B)
    unfolding split_meth dispatch_method find_text
    dispatch req rs s = do
      (service_name, method_name) ← split_meth req.svc_meth
      service ← find_text service_name rs.services
      (s', reply) ← dispatch_method service method_name req s
      some (record rs { count = rs.count + 1 }, s', reply)
