-- ===== src/Kernel/Queues/Dequeue.antt =====
-- kernel/queues/queues.go: which process Dequeue takes out of a queue.
use tp_ssoo_1c.Prelude.{
  ℕ, ◌+◌, ◌≡◌, refl, ap, sym, ◌∙◌, List, [], ◌∷◌, some, ◌==◌, if◌then◌else◌, count, arith, subst,
}
use tp_ssoo_1c.Prelude.Int.{pos}
use tp_ssoo_1c.Kernel.Pcb.{State}
use tp_ssoo_1c.Kernel.State.{Kernel}
use tp_ssoo_1c.Kernel.Queues.{
  SortBy, SortSlice, size, estimated_burst, no_sort, Below, IsSorted, get_queue, set_queue,
  sort_key, sort_queue, dequeue, head_of, tail_of,
}

module _ (sorter : SortSlice) where
  Below-zero : (q : List ℕ) (k : Kernel) → Below (pos 0) (sort_key no_sort k) q
  Below-zero [] k = tt
  Below-zero (x ∷ q) k = (omega arith, Below-zero q k)

  IsSorted-no_sort : (q : List ℕ) (k : Kernel) → IsSorted (sort_key no_sort k) q
  IsSorted-no_sort [] k = tt
  IsSorted-no_sort (x ∷ q) k = (Below-zero q k, IsSorted-no_sort q k)

  sort_queue-IsSorted :
      (by : SortBy) (k : Kernel) (q : List ℕ) → IsSorted (sort_key by k) (sort_queue sorter by k q)
  unfolding sort_queue
  sort_queue-IsSorted by k [] = tt
  sort_queue-IsSorted by k (x ∷ []) = (tt, tt)
  sort_queue-IsSorted size k (x ∷ y ∷ q) = sorter.sort_sorted (sort_key size k) (x ∷ y ∷ q)
  sort_queue-IsSorted estimated_burst k (x ∷ y ∷ q) =
      sorter.sort_sorted (sort_key estimated_burst k) (x ∷ y ∷ q)
  sort_queue-IsSorted no_sort k (x ∷ y ∷ q) = IsSorted-no_sort (x ∷ y ∷ q) k

  pub count-sort_queue :
      (by : SortBy) (k : Kernel) (q : List ℕ) (x : ℕ)
      → count x (sort_queue sorter by k q) ≡ count x q
  unfolding sort_queue
  count-sort_queue by k [] z = refl
  count-sort_queue by k (x ∷ []) z = refl
  count-sort_queue size k (x ∷ y ∷ q) z = sorter.sort_count (sort_key size k) (x ∷ y ∷ q) z
  count-sort_queue estimated_burst k (x ∷ y ∷ q) z =
      sorter.sort_count (sort_key estimated_burst k) (x ∷ y ∷ q) z
  count-sort_queue no_sort k (x ∷ y ∷ q) z = refl

  -- What `Dequeue` gives for a queue: nothing from an empty one, else a process with the least key,
  -- and the rest of the queue.
  pub record Dequeued (s : State) (by : SortBy) (k : Kernel) (pid : ℕ) : Type 0 where
    pub least : Below (sort_key by k pid) (sort_key by k) (get_queue s (dequeue sorter s by k).1)
    pub counts :
        (x : ℕ)
        → count x (get_queue s k)
          ≡ (if pid == x then 1 else 0) + count x (get_queue s (dequeue sorter s by k).1)

  get_queue-set_queue : (s : State) (q : List ℕ) (k : Kernel) → get_queue s (set_queue s q k) ≡ q
  get_queue-set_queue s q k = ground arith

  pub head_tail : (q : List ℕ) (pid : ℕ) → head_of q ≡ some pid → q ≡ pid ∷ tail_of q
  head_tail q pid e = ground arith

  dequeue_split :
      (s : State) (by : SortBy) (k : Kernel) (pid : ℕ)
      → (dequeue sorter s by k).0 ≡ some pid
      → sort_queue sorter by k (get_queue s k) ≡ pid ∷ get_queue s (dequeue sorter s by k).1
  unfolding dequeue
  dequeue_split s by k pid e =
      let q = sort_queue sorter by k (get_queue s k) in
      head_tail q pid e ∙ ap (λ r. pid ∷ r) (sym (get_queue-set_queue s (tail_of q) k))

  -- Where `Dequeue` returns a process, no process that it leaves in the queue has a smaller
  -- key, and the queue held exactly that process and those that are left, whatever order the
  -- sort gives to equal keys.
  pub dequeue-Dequeued :
      (s : State) (by : SortBy) (k : Kernel) (pid : ℕ)
      → (dequeue sorter s by k).0 ≡ some pid
      → Dequeued s by k pid
  unfolding count
  dequeue-Dequeued s by k pid e =
      let split = dequeue_split s by k pid e in
      record {
        least =
            (subst (IsSorted (sort_key by k)) split (sort_queue-IsSorted by k (get_queue s k))).0;
        counts = λ x. sym (count-sort_queue by k (get_queue s k) x) ∙ ap (count x) split;
      }
