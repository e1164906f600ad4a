-- ===== src/BlackBox/AgentRegistry/Index.antt =====
-- One index of the registry: what it holds stays live and under its own key.
use v_net.Base.{inr, inl, Option-cases, ℕ, ◌≡◌, Option, none, some, List, Eq, nat_eq, arith}
use v_net.Base.Map.{find, insert, erase, find-insert, find-erase}
use v_net.BlackBox.AgentRegistry.{AgentEntry, Heap}

-- A field of the object at an address, if it is live.
abbrev pub key_at {κ} : {K : Type κ} → (AgentEntry → K) → Heap → ℕ → Option K
key_at key heap p = elim (find p heap) [ none ↦ none | some entry ↦ some (key entry) ]

pub key_at_live {κ} :
    {K : Type κ} (key : AgentEntry → K) (heap : Heap) (p : ℕ) {k : K}
    → key_at key heap p ≡ some k
    → (x : AgentEntry) × (find p heap ≡ some x) × (key x ≡ k)
key_at_live key heap p h = elim (Option-cases (find p heap)) [
  | inl e ↦ absurd (ground arith)
  | inr (x, e) ↦ (x, e, ground arith)
]

module _ {κ} {K : Type κ} ⦃e : Eq K⦄ (key : AgentEntry → K) where
  abbrev pub Indexes : List (K × ℕ) → Heap → Type κ
  Indexes index heap = (k : K) (p : ℕ) → find k index ≡ some p → key_at key heap p ≡ some k

  pub erase-Indexes :
      (index : List (K × ℕ)) (heap : Heap) (p : ℕ) (entry : AgentEntry)
      → find p heap ≡ some entry
      → Indexes index heap
      → Indexes (erase (key entry) index) (erase p heap)
  erase-Indexes index heap p entry live h k q held =
      ground (
        arith,
        find-erase (key entry) k index,
        find-erase p q heap,
        h k q,
        e.same_iff (key entry) k,
      )

  pub insert-Indexes :
      (index : List (K × ℕ)) (heap : Heap) (p : ℕ) (entry : AgentEntry)
      → find p heap ≡ none
      → Indexes index heap
      → Indexes (insert (key entry) p index) (insert p entry heap)
  insert-Indexes index heap p entry free h k q held = ground (
    arith,
    find-insert (key entry) k p index,
    find-insert p q entry heap,
    h k q,
    e.same_iff (key entry) k,
  )
