-- ===== src/Mlfq/Tests.antt =====
-- Queues of one and two processes, and the theorems at them.
use hyu_ele.Prelude.{◌≡◌, refl, List, [], ◌∷◌, arith}
use hyu_ele.Mlfq.{
  Ptr, null, unused, MlfqNode, Queue, insert_after, init_headers, link_headers, mark_headers,
  find_unused, alloc_mlfq_node, enqueue, lower_level, requeue, priority_boost,
}
use hyu_ele.Mlfq.Links.{IsList}
use hyu_ele.Mlfq.Levels.{levels, OnLevel, Holds}
use hyu_ele.Mlfq.Levels.Demote.{from0, lower_level-Holds}
use hyu_ele.Mlfq.Levels.Requeue.{in0, requeue-Holds}
use hyu_ele.Mlfq.Levels.Enqueue.{slot, enqueue-Holds}
use hyu_ele.Mlfq.Levels.Init.{init_headers-Holds}
use hyu_ele.Mlfq.Boost.{gathering, priority_boost_lem}

abbrev bare_node : MlfqNode
bare_node = record {
  prev = null;
  next = null;
  self = null;
  state = unused;
  level = 0;
  exec_time = 0;
}

abbrev blank : Queue
blank = record { nodes = λ _. bare_node; headers = λ _. null; mnode = λ _. null }

-- After `initmlfq`; then the process 9 is put in.
start : Queue
start = init_headers blank

one : Queue
one = enqueue 9 start

start-Holds : Holds start (levels [] [] [])
unfolding start
start-Holds = init_headers-Holds blank refl (λ i lt. (refl, refl))

one-Holds : Holds one (levels (slot start ∷ []) [] [])
unfolding one start init_headers link_headers mark_headers
one-Holds =
    (enqueue-Holds start (levels [] [] []) 9 1 start-Holds (omega arith) (omega arith) refl).0

slots : (slot start ≡ 1) × (slot one ≡ 2)
unfolding one start init_headers link_headers mark_headers find_unused insert_after alloc_mlfq_node
    enqueue
slots = (refl, refl)

-- The node of the process 9.
abbrev n9 : Ptr
n9 = slot start

lowered-Holds : Holds (lower_level n9 one) (levels [] (n9 ∷ []) [])
lowered-Holds = lower_level-Holds one n9 (from0 [] [] [] []) one-Holds

lower_level-Holds_example : Holds (lower_level n9 one) (levels [] (n9 ∷ []) [])
lower_level-Holds_example = lower_level-Holds one n9 (from0 [] [] [] []) one-Holds

requeue-Holds_example : Holds (requeue n9 one) (levels (n9 ∷ []) [] [])
requeue-Holds_example = requeue-Holds one n9 (in0 [] [] [] []) one-Holds

-- The four headers, and the node 1 put in and taken out.
abbrev headers_only : List Ptr
headers_only = 65 ∷ 66 ∷ 67 ∷ 68 ∷ []

start-IsList : IsList start.nodes headers_only
unfolding start init_headers
start-IsList = start-Holds.list

priority_boost_lem_example :
    IsList (priority_boost one).nodes (gathering one.headers (n9 ∷ []) [] [])
    × OnLevel (priority_boost one).nodes 0 (n9 ∷ [])
    × OnLevel (priority_boost one).nodes 1 []
    × OnLevel (priority_boost one).nodes 0 []
priority_boost_lem_example = priority_boost_lem one (n9 ∷ []) [] [] one-Holds (omega arith)

enqueue-Holds_example :
    Holds (enqueue 9 start) (levels (slot start ∷ []) [] [])
    × ((enqueue 9 start).mnode 9 ≡ slot start)
    × (((enqueue 9 start).nodes (slot start)).self ≡ 9)
unfolding start init_headers link_headers mark_headers
enqueue-Holds_example =
    enqueue-Holds start (levels [] [] []) 9 1 start-Holds (omega arith) (omega arith) refl
