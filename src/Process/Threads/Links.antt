-- ===== src/Process/Threads/Links.antt =====
-- The list of the threads of a process.
use hyu_ele.Prelude.{ℕ, ◌≡◌, ◌≢◌, sym, ◌∙◌, arith, true, false, List, [], ◌∷◌, ◌++◌}
use hyu_ele.Prelude.Maps.{has, ne_of_has, has-append}
use hyu_ele.Mlfq.{Ptr, null, Nodes, NodeState, insert_after, remove}
use hyu_ele.Mlfq.Chain.{first}
use hyu_ele.Mlfq.Links.{IsList, at, insert_after-IsList}
use hyu_ele.Mlfq.Links.Remove.{remove-IsList}
use hyu_ele.Mlfq.Fields.{IsList-same}
use hyu_ele.Sched.State.{Double, Procs}
use hyu_ele.Process.Threads.{link_thread, unlink_thread}

module _ (F : Double) where
  -- The links of the threads, as those of nodes.
  abbrev pub view : Procs F → Nodes
  view ps x = record {
    prev = (ps x).prev_thread;
    next = (ps x).next_thread;
    self = null;
    state = NodeState.unused;
    level = 0;
    exec_time = 0;
  }

  abbrev pub ThreadList : Procs F → List Ptr → Type 0
  ThreadList ps xs = IsList (view ps) xs

  link_thread-view :
      (me np : Ptr) (ps : Procs F) (x : ℕ)
      → me ≢ np
      → (ps me).next_thread ≢ np
      → ((view (link_thread F me np ps) x).prev ≡ (insert_after me np (view ps) x).prev)
        × ((view (link_thread F me np ps) x).next ≡ (insert_after me np (view ps) x).next)
  unfolding link_thread insert_after
  link_thread-view me np ps x n o = ground arith

  unlink_thread-view :
      (w : Ptr) (ps : Procs F) (x : ℕ)
      → x ≢ w
      → ((view (unlink_thread F w ps) x).prev ≡ (remove w (view ps) x).prev)
        × ((view (unlink_thread F w ps) x).next ≡ (remove w (view ps) x).next)
  unfolding unlink_thread remove
  unlink_thread-view w ps x n = ground arith

  -- A member of a list is not its outsider.
  next_ne :
      (f : Nodes) (xs : List Ptr) (me np : Ptr) (ys : List Ptr)
      → IsList f (xs ++ (me ∷ ys))
      → np ≢ null
      → has np (xs ++ (me ∷ ys)) ≡ false
      → (f me).next ≢ np
  next_ne f xs me np ys is nn out e =
      let a = at f xs me ys is in
      not_first ys (ground (arith, has-append np xs (me ∷ ys))) (sym a.next_eq ∙ e)
    where
      not_first : (zs : List Ptr) → has np zs ≡ false → first zs null ≢ np
      not_first [] h q = nn (sym q)
      not_first (z ∷ zs) h q = ground arith

  -- The list after `np` was linked behind `me`.
  pub link_thread-list :
      (ps : Procs F) (xs : List Ptr) (me np : Ptr) (ys : List Ptr)
      → ThreadList ps (xs ++ (me ∷ ys))
      → np ≢ null
      → has np (xs ++ (me ∷ ys)) ≡ false
      → ThreadList (link_thread F me np ps) (xs ++ (me ∷ np ∷ ys))
  link_thread-list ps xs me np ys is nn out =
      let ne : me ≢ np = λ e. ground (arith, has-append np xs (me ∷ ys)) in
      let same =
        λ (x : ℕ). link_thread-view me np ps x ne (next_ne (view ps) xs me np ys is nn out) in
      IsList-same (insert_after me np (view ps)) (view (link_thread F me np ps))
        (xs ++ (me ∷ np ∷ ys)) (λ x _. let (p, n) = same x in ground arith)
        (insert_after-IsList (view ps) xs me ys np nn out is)

  pub unlink_thread-list :
      (ps : Procs F) (xs : List Ptr) (w : Ptr) (ys : List Ptr)
      → ThreadList ps (xs ++ (w ∷ ys))
      → has w (xs ++ ys) ≡ false
      → ThreadList (unlink_thread F w ps) (xs ++ ys)
  unlink_thread-list ps xs w ys is out =
      IsList-same (remove w (view ps)) (view (unlink_thread F w ps)) (xs ++ ys)
        (λ x h.
          let (p, n) = unlink_thread-view w ps x (ne_of_has x w (xs ++ ys) h out) in ground arith)
        (remove-IsList (view ps) xs w ys is)

  -- The list does not depend on other fields.
  pub ThreadList-same :
      (ps qs : Procs F) (xs : List Ptr)
      → ((x : Ptr)
          → has x xs ≡ true
          → ((qs x).prev_thread ≡ (ps x).prev_thread) × ((qs x).next_thread ≡ (ps x).next_thread))
      → ThreadList ps xs
      → ThreadList qs xs
  ThreadList-same ps qs xs same is =
      IsList-same (view ps) (view qs) xs (λ x h. let (p, n) = same x h in ground arith) is
