-- ===== src/Mlfq/Levels/Init.antt =====
-- The queue as `initmlfq` sets it up.
use hyu_ele.Prelude.{zero, suc, ℕ, ◌<◌, ◌≡◌, refl, ◌∙◌, [], ◌∷◌, arith}
use hyu_ele.Mlfq.{
  Ptr, null, Nodes, Queue, header, init_headers, mark_headers, link_headers, header_at,
}
use hyu_ele.Mlfq.Chain.{Chain}
use hyu_ele.Mlfq.Levels.{levels, Holds}

below_four : (P : ℕ → Type 0) → P 0 → P 1 → P 2 → P 3 → (i : ℕ) → i < 4 → P i
below_four P a b c d zero lt = a
below_four P a b c d (suc zero) lt = b
below_four P a b c d (suc (suc zero)) lt = c
below_four P a b c d (suc (suc (suc zero))) lt = d
below_four P a b c d (suc (suc (suc (suc i)))) lt = absurd (omega arith)

-- The links of the four headers, in a slab where they had none.
link_headers_lem :
    (f : Nodes)
    → ((f (header_at 0)).prev ≡ null)
    → ((f (header_at 3)).next ≡ null)
    → Chain (link_headers f) null (header_at 0 ∷ header_at 1 ∷ header_at 2 ∷ header_at 3 ∷ []) null
unfolding link_headers
link_headers_lem f p n = (
  record { forth = λ h. absurd (h refl); back = λ _. p },
  (
    record { forth = λ _. refl; back = λ _. refl },
    (
      record { forth = λ _. refl; back = λ _. refl },
      (
        record { forth = λ _. refl; back = λ _. refl },
        record { forth = λ _. n; back = λ h. absurd (h refl) },
      ),
    ),
  ),
)

link_headers-state : (f : Nodes) (x : Ptr) → (link_headers f x).state ≡ (f x).state
unfolding link_headers
link_headers-state f x = ground arith

mark_headers-links :
    (f : Nodes) (x : Ptr)
    → ((mark_headers f x).next ≡ (f x).next) × ((mark_headers f x).prev ≡ (f x).prev)
unfolding mark_headers
mark_headers-links f x = ground arith

mark_headers-state : (f : Nodes) (i : ℕ) → i < 4 → (mark_headers f (header_at i)).state ≡ header
unfolding mark_headers
mark_headers-state f = below_four _ refl refl refl refl

-- On a slab whose header nodes have no links, `initmlfq` makes a queue of three empty levels.
pub init_headers-Holds :
    (q : Queue)
    → q.headers 0 ≡ null
    → ((i : ℕ)
        → i < 4
        → ((q.nodes (header_at i)).next ≡ null) × ((q.nodes (header_at i)).prev ≡ null))
    → Holds (init_headers q) (levels [] [] [])
unfolding init_headers
init_headers-Holds q none bare =
    let f = mark_headers q.nodes in
    let ls = mark_headers-links q.nodes in
    rw none (record {
      list = record {
        chain =
            link_headers_lem f ((ls (header_at 0)).1 ∙ (bare 0 (omega arith)).1)
              ((ls (header_at 3)).0 ∙ (bare 3 (omega arith)).0);
        no_repeat = refl;
      };
      on0 = tt;
      on1 = tt;
      on2 = tt;
      marked =
          below_four _ (at_header 0 (omega arith)) (at_header 1 (omega arith))
            (at_header 2 (omega arith)) (at_header 3 (omega arith));
    })
  where
    at_header : (i : ℕ) → i < 4 → (link_headers (mark_headers q.nodes) (header_at i)).state ≡ header
    at_header i lt =
        link_headers-state (mark_headers q.nodes) (header_at i) ∙ mark_headers-state q.nodes i lt
