-- ===== src/Mlfq.antt =====
-- The multi-level feedback queue of xv6-public/proc.c (lines 33 to 165): one doubly linked list of
-- slab nodes in which four header nodes separate the three levels.
-- A pointer is a number and 0 is null; `mlfqnodeslabs[i]` stands at address `i + 1`.
pub mod Boost
pub mod Chain
pub mod Fields
pub mod Levels
pub mod Links
mod Tests
use hyu_ele.Prelude.{
  ℕ, zero, suc, ◌+◌, ◌-◌, ◌≡◌, Bool, true, false, List, [], ◌∷◌, ◌&&◌, not, ◌==◌, ltb,
  if◌then◌else◌,
}
use hyu_ele.Prelude.Maps.{update}

abbrev pub Ptr : Type 0
Ptr = ℕ

abbrev pub null : Ptr
null = 0

-- 0, 1 and -1 in the source.
pub data NodeState : Type 0 where
  unused used header : NodeState

pub record MlfqNode : Type 0 where
  pub prev : Ptr
  pub next : Ptr
  pub self : Ptr
  pub state : NodeState
  pub level : ℕ
  pub exec_time : ℕ

abbrev pub Nodes : Type 0
Nodes = Ptr → MlfqNode

abbrev pub nproc : ℕ
nproc = 64

-- The address of `mlfqnodeslabs[NPROC + i]`.
abbrev pub header_at : ℕ → Ptr
header_at i = nproc + i + 1

-- The address just behind the slab.
abbrev pub slab_end : Ptr
slab_end = nproc + 4 + 1

abbrev pub is_unused : NodeState → Bool
is_unused unused = true
is_unused _ = false

abbrev pub is_used : NodeState → Bool
is_used used = true
is_used _ = false

abbrev pub set_prev : Ptr → Ptr → Nodes → Nodes
set_prev p v f = update f p (record (f p) { prev = v })

abbrev pub set_next : Ptr → Ptr → Nodes → Nodes
set_next p v f = update f p (record (f p) { next = v })

unfoldable pub insert_after : Ptr → Ptr → Nodes → Nodes
insert_after target mover f =
    let f1 = set_prev mover target f in
    let f2 = if (f1 target).next == null then f1 else set_prev (f1 target).next mover f1 in
    let f3 = set_next mover (f2 target).next f2 in set_next target mover f3

unfoldable pub insert_before : Ptr → Ptr → Nodes → Nodes
insert_before target mover f =
    let f1 = set_next mover target f in
    let f2 = if (f1 target).prev == null then f1 else set_next (f1 target).prev mover f1 in
    let f3 = set_prev mover (f2 target).prev f2 in set_prev target mover f3

unfoldable pub remove : Ptr → Nodes → Nodes
remove m f =
    let f1 = if (f m).prev == null then f else set_next (f m).prev (f m).next f in
    let f2 = if (f1 m).next == null then f1 else set_prev (f1 m).next (f1 m).prev f1 in
    let f3 = set_next m null f2 in set_prev m null f3

unfoldable pub delete : Ptr → Nodes → Nodes
delete m f =
    let g = remove m f in
    update g m (record (g m) { self = null; state = unused; level = 0; exec_time = 0 })

-- The slab, `headers[]`, and the field `mnode` of each process.
pub record Queue : Type 0 where
  pub nodes : Nodes
  pub headers : ℕ → Ptr
  pub mnode : Ptr → Ptr

unfoldable pub lower_level : Ptr → Queue → Queue
lower_level m q =
    if (q.nodes m).level == 2
    then q
    else (let g = insert_before (q.headers ((q.nodes m).level + 2)) m (remove m q.nodes) in
        record q { nodes = update g m (record (g m) { level = (g m).level + 1 }) })

-- `for(m = mlfqnodeslabs; m < &mlfqnodeslabs[NPROC+4]; m++) if(!m->state) break;` with the rounds
-- left as the first argument.
unfoldable pub find_unused : ℕ → Ptr → Nodes → Ptr
find_unused zero m f = m
find_unused (suc k) m f =
    let rest = find_unused k (suc m) f in if is_unused (f m).state then m else rest

unfoldable pub alloc_mlfq_node : Ptr → Queue → Ptr × Queue
alloc_mlfq_node p q =
    let m = find_unused (nproc + 4) 1 q.nodes in
    (
      m,
      record q {
        nodes =
            update q.nodes m (record {
              prev = null;
              next = null;
              self = p;
              state = used;
              level = 0;
              exec_time = 0;
            });
        mnode = update q.mnode p m;
      },
    )

-- The loop over the list at the end of `priorityboost`; the first argument bounds its rounds.
unfoldable pub boost_walk : ℕ → Ptr → Nodes → Nodes
boost_walk zero m f = f
boost_walk (suc k) m f =
    let g =
      if is_used (f m).state && not ((f m).level == 1)
      then update f m (record (f m) { level = 0; exec_time = 0 })
      else f in
    let rest = boost_walk k (g m).next g in if m == null then f else rest

-- `remove(headers[i]); insertBefore(headers[i+1], headers[i]);`
unfoldable pub boost_header : ℕ → Queue → Queue
boost_header i q = record q {
  nodes = insert_before (q.headers (i + 1)) (q.headers i) (remove (q.headers i) q.nodes);
}

-- The list holds each of the `NPROC + 4` nodes at most once, so that many rounds reach its end.
unfoldable pub priority_boost : Queue → Queue
unfolding boost_header boost_walk
priority_boost q =
    if q.headers 0 == null
    then q
    else (let q' = boost_header 1 (boost_header 2 q) in
        record q' { nodes = boost_walk slab_end (q'.headers 0) q'.nodes })

-- `headers[i]->state = -1`.
unfoldable pub mark_headers : Nodes → Nodes
mark_headers f =
    let mark =
      λ (i : ℕ) (g : Nodes). update g (header_at i) (record (g (header_at i)) { state = header }) in
    mark 3 (mark 2 (mark 1 (mark 0 f)))

-- `headers[i]->next` and `headers[i]->prev` for the four headers.
unfoldable pub link_headers : Nodes → Nodes
link_headers f =
    let link = λ (i : ℕ) (g : Nodes).
      let g' = if i == 3 then g else set_next (header_at i) (header_at (i + 1)) g in
      if i == 0 then g' else set_prev (header_at i) (header_at (i - 1)) g' in
    link 3 (link 2 (link 1 (link 0 f)))

-- The part of `initmlfq` that sets up the list: `headers[i] = &mlfqnodeslabs[NPROC + i]`.
unfoldable pub init_headers : Queue → Queue
init_headers q =
    if q.headers 0 == null
    then record q {
      nodes = link_headers (mark_headers q.nodes);
      headers = λ i. if ltb i 4 then header_at i else q.headers i;
    }
    else q

-- `insertafter(headers[0], allocmlfqnode(p));` of `run_MLFQ` and `thread_create`.
unfoldable pub enqueue : Ptr → Queue → Queue
enqueue p q =
    let (m, q') = alloc_mlfq_node p q in
    record q' { nodes = insert_after (q'.headers 0) m q'.nodes }

-- `remove(p->mnode); insertBefore(headers[p->mnode->level +1], p->mnode);` of `scheduler`.
unfoldable pub requeue : Ptr → Queue → Queue
requeue m q =
    let f = remove m q.nodes in record q { nodes = insert_before (q.headers ((f m).level + 1)) m f }
