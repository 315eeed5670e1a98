-- ===== src/Kv/Once.antt =====
-- Retries of a client's request, and the plain store that the server implements.
use Prim.Native.String.{◌++◌ as ◌++S◌}
use sjytker_my_mit.Base.{
  ℕ, ◌≡◌, refl, sym, ap, ◌∙◌, subst, ◌≢◌, inl, inr, Bool, true, false, not, ◌&&◌, ◌||◌, Option,
  none, some, List, [], ◌∷◌, ◌++◌, arith, same_text, ◌==◌, if◌then◌else◌, Bool-cases, find,
  find-put,
}
use sjytker_my_mit.Kv.{Op, Store, read, write, KvServer, check_applied, execute}

-- The operations applied one after the other.
unfoldable pub execute_all : {B : Type 0} → List Op → KvServer B → KvServer B
unfolding execute
execute_all [] kv = kv
execute_all (op ∷ ops) kv = execute_all ops (execute op kv)

abbrev pub changes : Op → Bool
changes op = same_text op.method "Put" || same_text op.method "Append"

-- One operation on a map that knows of no clients: Put overwrites, Append extends, all else reads.
abbrev pub effect : Op → Store → Store
effect op store =
    if same_text op.method "Put"
    then write op.key op.value store
    else if same_text op.method "Append"
    then write op.key (read store op.key ++S op.value) store
    else store

unfoldable pub run : List Op → Store → Store
run [] store = store
run (op ∷ ops) store = run ops (effect op store)

-- Is this the message id of its client's last change?
abbrev pub is_retry : Option ℕ → ℕ → Bool
is_retry none id = false
is_retry (some old) id = id == old

-- The operations that are no retries: those that change the data, without each that has the message
-- id of its client's last change. `last` gives that id at the start.
unfoldable pub fresh : (ℕ → Option ℕ) → List Op → List Op
fresh last [] = []
fresh last (op ∷ ops) = elim (changes op && not (is_retry (last op.client_id) op.msg_id)) [
  | true ↦ op ∷ fresh (λ c. if op.client_id == c then some op.msg_id else last c) ops
  | false ↦ fresh last ops
]

-- No operation of this client changes the data.
abbrev pub Elsewhere : ℕ → List Op → Type 0
Elsewhere c [] = Unit
Elsewhere c (op ∷ ops) = (op.client_id ≢ c) × Elsewhere c ops

fresh-keep :
    (last : ℕ → Option ℕ) (op : Op) (ops : List Op)
    → (changes op && not (is_retry (last op.client_id) op.msg_id)) ≡ true
    → fresh last (op ∷ ops)
      ≡ op ∷ fresh (λ c. if op.client_id == c then some op.msg_id else last c) ops
unfolding fresh
fresh-keep last op ops h = ground arith

fresh-drop :
    (last : ℕ → Option ℕ) (op : Op) (ops : List Op)
    → (changes op && not (is_retry (last op.client_id) op.msg_id)) ≡ false
    → fresh last (op ∷ ops) ≡ fresh last ops
unfolding fresh
fresh-drop last op ops h = ground arith

module _ {B : Type 0} where
  execute_all-append :
      (ops more : List Op) (kv : KvServer B)
      → execute_all (ops ++ more) kv ≡ execute_all more (execute_all ops kv)
  unfolding execute_all
  execute_all-append [] more kv = refl
  execute_all-append (op ∷ ops) more kv = execute_all-append ops more (execute op kv)

  execute-Elsewhere :
      (c : ℕ) (op : Op) (kv : KvServer B)
      → op.client_id ≢ c
      → find c (execute op kv).last_applied ≡ find c kv.last_applied
  unfolding execute
  execute-Elsewhere c op kv h = ground (arith, find-put op.client_id c op.msg_id kv.last_applied)

  execute_all-Elsewhere :
      (c : ℕ) (ops : List Op) (kv : KvServer B)
      → Elsewhere c ops
      → find c (execute_all ops kv).last_applied ≡ find c kv.last_applied
  unfolding execute_all
  execute_all-Elsewhere c [] kv h = refl
  execute_all-Elsewhere c (op ∷ ops) kv (h, hs) =
      execute_all-Elsewhere c ops (execute op kv) hs ∙ execute-Elsewhere c op kv h

  execute-records :
      (op : Op) (kv : KvServer B)
      → changes op ≡ true
      → find op.client_id (execute op kv).last_applied ≡ some op.msg_id
  unfolding execute check_applied
  execute-records op kv h =
      ground (arith, find-put op.client_id op.client_id op.msg_id kv.last_applied)

  execute-again :
      (op : Op) (kv : KvServer B)
      → find op.client_id kv.last_applied ≡ some op.msg_id
      → execute op kv ≡ kv
  unfolding execute check_applied
  execute-again op kv h = ground arith

  -- A Put or Append that is applied again, with any operations of other clients between, changes
  -- nothing the second time.
  pub execute_all-retry :
      (op retry : Op) (ops : List Op) (kv : KvServer B)
      → changes op ≡ true
      → retry.client_id ≡ op.client_id
      → retry.msg_id ≡ op.msg_id
      → Elsewhere op.client_id ops
      → execute_all (op ∷ ops ++ retry ∷ []) kv ≡ execute_all (op ∷ ops) kv
  unfolding execute_all
  execute_all-retry op retry ops kv h c i e =
      execute_all-append ops (retry ∷ []) (execute op kv)
      ∙ execute-again retry (execute_all ops (execute op kv)) (
          rw (c, i)
            (execute_all-Elsewhere op.client_id ops (execute op kv) e ∙ execute-records op kv h))

  find-execute :
      (op : Op) (kv : KvServer B) (c : ℕ)
      → (changes op && not (is_retry (find op.client_id kv.last_applied) op.msg_id)) ≡ true
      → find c (execute op kv).last_applied
        ≡ (if op.client_id == c then some op.msg_id else find c kv.last_applied)
  unfolding execute check_applied
  find-execute op kv c h = ground (arith, find-put op.client_id c op.msg_id kv.last_applied)

  execute-effect :
      (op : Op) (kv : KvServer B)
      → (changes op && not (is_retry (find op.client_id kv.last_applied) op.msg_id)) ≡ true
      → (execute op kv).store ≡ effect op kv.store
  unfolding execute check_applied
  execute-effect op kv h = ground arith

  execute-stale :
      (op : Op) (kv : KvServer B)
      → (changes op && not (is_retry (find op.client_id kv.last_applied) op.msg_id)) ≡ false
      → execute op kv ≡ kv
  unfolding execute check_applied
  execute-stale op kv h = ground arith

  -- The data after any operations is that of the plain map after those that are no retries, where
  -- `last` is the message id that the server has of each client at the start.
  pub execute_all-run :
      (ops : List Op) (kv : KvServer B) (last : ℕ → Option ℕ)
      → ((c : ℕ) → find c kv.last_applied ≡ last c)
      → (execute_all ops kv).store ≡ run (fresh last ops) kv.store
  unfolding execute_all run fresh
  execute_all-run [] kv last h = refl
  execute_all-run (op ∷ ops) kv last h =
      elim (Bool-cases (changes op && not (is_retry (last op.client_id) op.msg_id))) [
        | inl t ↦
            let t' =
              subst (λ o. (changes op && not (is_retry o op.msg_id)) ≡ true) (sym (h op.client_id))
                t in
            execute_all-run ops (execute op kv) _ (λ c.
              find-execute op kv c t'
              ∙ ap (λ o. if op.client_id == c then some op.msg_id else o) (h c))
            ∙ ap (run (fresh _ ops)) (execute-effect op kv t')
            ∙ ap (λ l. run l kv.store) (sym (fresh-keep last op ops t))
        | inr f ↦
            let f' =
              subst (λ o. (changes op && not (is_retry o op.msg_id)) ≡ false) (sym (h op.client_id))
                f in
            ap (λ k. (execute_all ops k).store) (execute-stale op kv f')
            ∙ execute_all-run ops kv last h
            ∙ ap (λ l. run l kv.store) (sym (fresh-drop last op ops f))
      ]
