-- ===== src/Mr/Worker/Buckets.antt =====
-- What doMapTask writes: each pair goes to the file of its bucket.
use Prim.Native.String.{String}
use native.Mathlib.Nat.{mod-lt}
use sjytker_my_mit.Base.{
  ℕ, zero, suc, ◌+◌, ◌%◌, ◌<◌, ◌≡◌, refl, sym, ap, ◌∙◌, subst, ◌≢◌, inl, inr, some, List, [], ◌∷◌,
  ◌++◌, arith, ℕ_discrete, ◌==◌, if◌then◌else◌, ==_iff, ==_refl, ==_false, Bool-cases, some_eq,
  length, get_elem?, set, replicate, length-replicate, length-set, get_elem?-some, get_elem?-lt,
  get_elem?-replicate, append-nil, append_assoc, get_elem?-set_self, get_elem?-set_ne, ℤ, pos,
  eqb_ℤ, eqb_ℤ→eq, eqb_ℤ-refl,
}
use sjytker_my_mit.Mr.Master.{Task}
use sjytker_my_mit.Mr.Worker.{
  KeyValue, Disk, create_inter, save_partitions, ihash, partition, do_map_task,
}

module _ (sum32 : String → ℕ) where
  -- The pairs of a bucket, in their order.
  unfoldable pub in_bucket : ℕ → ℕ → List KeyValue → List KeyValue
  in_bucket n b [] = []
  in_bucket n b (kv ∷ kvs) =
      let rest = in_bucket n b kvs in if ihash sum32 kv.key % n == b then kv ∷ rest else rest

  -- What one round of the loop adds to a bucket.
  partition-step :
      (n : ℕ) (kv : KeyValue) (kvs : List KeyValue) (parts r : List (List KeyValue)) (b : ℕ)
      → (q p : List KeyValue) → get_elem? parts (ihash sum32 kv.key % n) ≡ some q
      → get_elem? parts b ≡ some p
      → ((b : ℕ) (p : List KeyValue)
          → get_elem? (set parts (ihash sum32 kv.key % n) (q ++ kv ∷ [])) b ≡ some p
          → get_elem? r b ≡ some (p ++ in_bucket n b kvs))
      → get_elem? r b ≡ some (p ++ in_bucket n b (kv ∷ kvs))
  unfolding in_bucket
  partition-step n kv kvs parts r b q p e g h = elim (ℕ_discrete (ihash sum32 kv.key % n) b) [
    | yes s ↦
        let same = some_eq (sym (subst (λ i. get_elem? parts i ≡ some q) s e) ∙ g) in
        h b (q ++ kv ∷ []) (
          subst
            (λ i.
              get_elem? (set parts (ihash sum32 kv.key % n) (q ++ kv ∷ [])) i ≡ some (q ++ kv ∷ []))
            s (get_elem?-set_self parts _ _ (get_elem?-lt parts _ e)))
        ∙ ap some (append_assoc q (kv ∷ []) (in_bucket n b kvs))
        ∙ rw ((==_iff _ b).1 s) (ap (λ l. some (l ++ kv ∷ in_bucket n b kvs)) same)
    | no s ↦
        h b p (get_elem?-set_ne parts _ b _ s ∙ g) ∙ rw (==_false (ihash sum32 kv.key % n) b s) refl
  ]

  partition-from :
      (n : ℕ) (kvs : List KeyValue) (parts : List (List KeyValue))
      → 0 < n
      → length parts ≡ n
      → (r : List (List KeyValue)) × (partition sum32 n kvs parts ≡ some r)
        × (length r ≡ n)
        × ((b : ℕ) (p : List KeyValue)
            → get_elem? parts b ≡ some p
            → get_elem? r b ≡ some (p ++ in_bucket n b kvs))
  unfolding partition in_bucket
  partition-from n [] parts pos_n len =
      (parts, refl, len, λ b p h. h ∙ ap some (sym (append-nil p)))
  partition-from n (kv ∷ kvs) parts pos_n len =
      let k = ihash sum32 kv.key % n in
      let (q, e) = get_elem?-some parts k (omega (arith, len, mod-lt (ihash sum32 kv.key) pos_n)) in
      let (r, f, l, h) =
        partition-from n kvs (set parts k (q ++ kv ∷ [])) pos_n (length-set parts k _ ∙ len) in
      (
        r,
        rw (==_false n 0 (omega arith), e) f,
        l,
        λ b p g. partition-step n kv kvs parts r b q p e g h,
      )

  -- Where there is a bucket, the loop over the pairs does not panic, and ends with one list for each
  -- bucket, which has the pairs of that bucket in the order in which Map gave them.
  pub partition-buckets :
      (n : ℕ) (kvs : List KeyValue)
      → 0 < n
      → (r : List (List KeyValue)) × (partition sum32 n kvs (replicate n []) ≡ some r)
        × (length r ≡ n)
        × ((b : ℕ) → b < n → get_elem? r b ≡ some (in_bucket n b kvs))
  partition-buckets n kvs pos_n =
      let (r, e, l, h) = partition-from n kvs (replicate n []) pos_n (length-replicate n []) in
      (r, e, l, λ b lt. h b [] (get_elem?-replicate n b [] lt))

save_partitions-before :
    (imap : ℤ) (i m : ℕ) (pars : List (List KeyValue)) (disk : Disk)
    → m < i
    → (save_partitions imap i pars disk).inters imap (pos m) ≡ disk.inters imap (pos m)
unfolding save_partitions create_inter
save_partitions-before imap i m [] disk h = refl
save_partitions-before imap i m (par ∷ pars) disk h =
    save_partitions-before imap (i + 1) m pars (create_inter imap (pos i) par disk) (omega arith)
    ∙ ground arith

save_partitions-at :
    (imap : ℤ) (i k : ℕ) (pars : List (List KeyValue)) (disk : Disk) {p : List KeyValue}
    → get_elem? pars k ≡ some p
    → (save_partitions imap i pars disk).inters imap (pos (i + k)) ≡ some p
unfolding save_partitions create_inter
save_partitions-at imap i k [] disk h = ground arith
save_partitions-at imap i zero (par ∷ pars) disk h =
    ap
      (λ m.
        (save_partitions imap (i + 1) pars (create_inter imap (pos i) par disk)).inters imap
          (pos m))
      (omega arith)
    ∙ save_partitions-before imap (i + 1) i pars (create_inter imap (pos i) par disk) (omega arith)
    ∙ (rw (eqb_ℤ-refl imap, ==_refl i) h)
save_partitions-at imap i (suc k) (par ∷ pars) disk h =
    ap
      (λ m.
        (save_partitions imap (i + 1) pars (create_inter imap (pos i) par disk)).inters imap
          (pos m))
      (omega arith)
    ∙ save_partitions-at imap (i + 1) k pars (create_inter imap (pos i) par disk) h

-- The files of the other map tasks, the inputs and the outputs stay.
save_partitions-else :
    (imap : ℤ) (i : ℕ) (pars : List (List KeyValue)) (disk : Disk)
    → ((j r : ℤ) → j ≢ imap → (save_partitions imap i pars disk).inters j r ≡ disk.inters j r)
      × ((save_partitions imap i pars disk).inputs ≡ disk.inputs)
      × ((save_partitions imap i pars disk).outs ≡ disk.outs)
unfolding save_partitions create_inter
save_partitions-else imap i [] disk = (λ j r ne. refl, refl, refl)
save_partitions-else imap i (par ∷ pars) disk =
    let (a, b, c) = save_partitions-else imap (i + 1) pars (create_inter imap (pos i) par disk) in
    (
      λ j r ne. a j r ne ∙ (elim (Bool-cases (eqb_ℤ j imap)) [
        | inl t ↦ absurd (ne (eqb_ℤ→eq j imap t))
        | inr f ↦ rw f refl
      ]),
      b,
      c,
    )

-- What a map task leaves behind, where its input is there and there is a reduce task: the file of
-- each reduce task has the pairs of that bucket in the order in which Map gave them, and the files of
-- other map tasks, the inputs and the outputs are as before.
pub do_map_task-buckets :
    (sum32 : String → ℕ)
    → (mapf : String → String → List KeyValue) → (task : Task) (disk : Disk) (content : String)
    → disk.inputs task.file_name ≡ some content
    → 0 < task.n_reduce
    → (disk' : Disk) × (do_map_task sum32 mapf task disk ≡ some disk')
      × ((r : ℕ)
          → r < task.n_reduce
          → disk'.inters task.imap (pos r)
            ≡ some (in_bucket sum32 task.n_reduce r (mapf task.file_name content)))
      × ((j r : ℤ) → j ≢ task.imap → disk'.inters j r ≡ disk.inters j r)
      × (disk'.inputs ≡ disk.inputs)
      × (disk'.outs ≡ disk.outs)
unfolding do_map_task
do_map_task-buckets sum32 mapf task disk content h pos_n =
    let (parts, e, l, at) =
      partition-buckets sum32 task.n_reduce (mapf task.file_name content) pos_n in
    let (a, b, c) = save_partitions-else task.imap 0 parts disk in
    (
      save_partitions task.imap 0 parts disk,
      rw (h, e) refl,
      λ r lt.
          ap (λ k. (save_partitions task.imap 0 parts disk).inters task.imap (pos k)) (omega arith)
          ∙ save_partitions-at task.imap 0 r parts disk (at r lt),
      a,
      b,
      c,
    )
