-- ===== src/BlackBox/AgentRegistry/Destroy.antt =====
-- The destructor of the registry: each live entry is freed, and freed once.
use v_net.Base.Map.{find, erase, find-erase, IsMap}
use v_net.BlackBox.AgentRegistry.{
  ◌∷◌, ℕ, List, Text, AgentEntry, AgentRegistry, Heap, delete_all, destroy,
}
use v_net.BlackBox.AgentRegistry.Index.{key_at_live, Indexes}
use v_net.BlackBox.AgentRegistry.Sound.{IsSound}
use v_net.Base.{refl, inr, inl, Option-cases, [], nat_eq, none, some, text_eq, arith, ◌≡◌}

-- The list leads to every live entry, and to live ones only, each under its name.
record Covers (index : List (Text × ℕ)) (heap : Heap) : Type 0 where
  live : Indexes (λ x. x.name) index heap
  all : (p : ℕ) (x : AgentEntry) → find p heap ≡ some x → find x.name index ≡ some p
  once : IsMap index

Covers-tail :
    (name : Text) (p : ℕ) (rest : List (Text × ℕ)) (heap : Heap)
    → Covers ((name, p) ∷ rest) heap
    → Covers rest (erase p heap)
unfolding find
Covers-tail name p rest heap c = record {
  live = λ k q h. ground (
    arith,
    c.live k q,
    c.live name p,
    find-erase p q heap,
    text_eq.same_iff name k,
    text_eq.same_iff name name,
    c.once.0,
  );
  all = λ q x h.
      ground (arith, c.all q x, find-erase p q heap, text_eq.same_iff name x.name, c.all p x);
  once = c.once.1;
}

delete_all-Covers :
    (index : List (Text × ℕ)) (heap : Heap)
    → Covers index heap
    → (h : Heap) × (delete_all index heap ≡ some h) × ((p : ℕ) → find p h ≡ none)
unfolding delete_all find
delete_all-Covers [] heap c = (
  heap,
  refl,
  λ p. elim (Option-cases (find p heap)) [
    | inl e ↦ e
    | inr (x, e) ↦ let lost : none ≡ some p = c.all p x e in cc
  ],
)
delete_all-Covers ((name, p) ∷ rest) heap c =
    let (x, e, _) =
      key_at_live (λ y. y.name) heap p
        (c.live name p (ground (arith, text_eq.same_iff name name))) in
    let (h, done, none_left) =
      delete_all-Covers rest (erase p heap) (Covers-tail name p rest heap c) in
    (h, rw e done, none_left)

-- The destructor of a sound registry deletes only live entries, each once, and leaves none alive.
pub destroy-IsSound :
    (r : AgentRegistry)
    → IsSound r
    → (q : AgentRegistry) × (destroy r ≡ some q) × ((p : ℕ) → find p q.heap ≡ none)
unfolding destroy
destroy-IsSound r s =
    let covers : Covers r.by_name r.heap = record {
      live = s.name_live;
      all = s.named;
      once = s.names_once;
    } in
    let (h, done, none_left) = delete_all-Covers r.by_name r.heap covers in
    (record { heap = h; by_ipv4 = []; by_fd = []; by_name = [] }, rw done, none_left)
