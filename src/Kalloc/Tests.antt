-- ===== src/Kalloc/Tests.antt =====
-- A free list of one page, and the theorem at it.
use hyu_ele.Prelude.{ℕ, ◌+◌, ◌*◌, ◌≡◌, refl, arith, [], ◌∷◌, none, some, ◌==◌, if◌then◌else◌}
use hyu_ele.Kalloc.{Kmem, kernbase, kfree, kalloc, free_from, freerange}
use hyu_ele.Kalloc.Pages.{FreeList, Page, kfree-kalloc}

abbrev page : ℕ → ℕ
page i = kernbase + 4096 * i

abbrev nothing : Kmem
nothing = record { next = λ _. 0; freelist = 0 }

abbrev one_page : Kmem
one_page = record { next = λ v. if v == page 300 then 0 else 0; freelist = page 300 }

-- Two pages fit between the two addresses.
frees_two :
    elim (freerange 1 (page 300 + 5) (page 303) nothing) [
      | none ↦ []
      | some k ↦ k.freelist ∷ k.next (page 302) ∷ k.next (page 301) ∷ []
    ]
    ≡ (page 302 ∷ page 301 ∷ 0 ∷ [])
unfolding freerange free_from kfree
frees_two = refl

one_page-FreeList : FreeList one_page (page 300 ∷ [])
one_page-FreeList = record { links = (refl, (λ e. omega arith), refl); no_repeat = refl }

page-Page : Page (page 256) (page 301)
page-Page = record { aligned = refl; behind = omega arith; below = omega arith }

kfree-kalloc_example :
    ((t : Kmem) × (kfree (page 256) (page 301) one_page ≡ some t)
      × FreeList t (page 301 ∷ page 300 ∷ [])
      × ((kalloc t).0 ≡ page 301)
      × FreeList (kalloc t).1 (page 300 ∷ []))
    × ((page 300 ∷ []) ≡ [] → kalloc one_page ≡ (0, one_page))
kfree-kalloc_example =
    kfree-kalloc (page 256) (page 301) one_page (page 300 ∷ []) (omega arith) page-Page
      one_page-FreeList refl
