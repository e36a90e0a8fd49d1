-- ===== src/Causal/Children.antt =====
-- crates/wayjournal-core/src/causal.rs: the map of children is the parent links turned round.
use mathlib.Core.List.{append-nil, append_assoc}
use wayjournal_build_attesta.Prelude.{
  ◌≡◌, refl, Bool, false, Option, none, some, List, [], ◌∷◌, ◌++◌, arith, mem, Distinct, nat_ord,
  ◌==◌, if◌then◌else◌, compare, ap, sym, ◌∙◌,
}
use wayjournal_build_attesta.Ids.{RecordId}
use wayjournal_build_attesta.Collections.Map
use wayjournal_build_attesta.Collections.Map.{Map, map_values, get-insert}
use wayjournal_build_attesta.Collections.Sort.{
  sort_by, mem-sort_by, Distinct-sort_by, strictly_sorted-Distinct,
}
use wayjournal_build_attesta.Causal.{CausalNode, children_of, push_child, collect_children}
use wayjournal_build_attesta.Causal.Index.{ids, node_of, AllSorted}

abbrev Children : Type 0
Children = Map RecordId (List RecordId)

children_of-insert :
    (p q : RecordId) (kids : List RecordId) (m : Children)
    → children_of q (Map.insert p kids m) ≡ (if p == q then kids else children_of q m)
unfolding children_of
children_of-insert p q kids m = ground (arith, get-insert p q kids m)

-- A child is pushed once to each of its parents, which are distinct.
children_of-push_child :
    (q child : RecordId) (ps : List RecordId) (m : Children)
    → Distinct ps
    → children_of q (push_child child ps m)
      ≡ children_of q m ++ (if mem q ps then child ∷ [] else [])
unfolding push_child
children_of-push_child q child [] m d = sym (append-nil (children_of q m))
children_of-push_child q child (p ∷ ps) m d =
    children_of-push_child q child ps (Map.insert p (children_of p m ++ child ∷ []) m) d.1
    ∙ ground (
      arith,
      children_of-insert p q (children_of p m ++ child ∷ []) m,
      append-nil (children_of q m ++ child ∷ []),
    )

children_of-map_values :
    (q : RecordId) (m : Children)
    → children_of q (map_values (sort_by compare) m) ≡ sort_by compare (children_of q m)
unfolding children_of map_values Map.get sort_by
children_of-map_values q [] = refl
children_of-map_values q ((p, kids) ∷ m) = ground (arith, children_of-map_values q m)

module _ {ℓ} {T : Type ℓ} ⦃c : CausalNode T⦄ where
  -- the nodes that name `p` as a parent
  abbrev kids : RecordId → List T → List RecordId
  kids p [] = []
  kids p (node ∷ nodes) =
      (if mem p (c.parents node) then c.record_id node ∷ [] else []) ++ kids p nodes

  children_of-collect_children :
      (p : RecordId) (nodes : List T) (m : Children)
      → AllSorted nodes
      → children_of p (collect_children nodes m) ≡ children_of p m ++ kids p nodes
  unfolding collect_children
  children_of-collect_children p [] m h = sym (append-nil (children_of p m))
  children_of-collect_children p (node ∷ nodes) m h =
      children_of-collect_children p nodes (push_child (c.record_id node) (c.parents node) m) h.1
      ∙ ap (λ l. l ++ kids p nodes)
          (children_of-push_child p (c.record_id node) (c.parents node) m
            (strictly_sorted-Distinct (c.parents node) h.0))
      ∙ append_assoc (children_of p m) _ (kids p nodes)

  -- whether a node of the list has the id and names the parent
  abbrev pub names_parent : RecordId → Option T → Bool
  names_parent p none = false
  names_parent p (some node) = mem p (c.parents node)

  not-mem-kids :
      (p id : RecordId) (nodes : List T)
      → mem id (ids nodes) ≡ false
      → mem id (kids p nodes) ≡ false
  not-mem-kids p id [] h = refl
  not-mem-kids p id (node ∷ nodes) h = ground (arith, not-mem-kids p id nodes)

  mem-kids :
      (p id : RecordId) (nodes : List T)
      → Distinct (ids nodes)
      → mem id (kids p nodes) ≡ names_parent p (node_of id nodes)
  mem-kids p id [] d = refl
  mem-kids p id (node ∷ nodes) d = ground (arith, mem-kids p id nodes, not-mem-kids p id nodes)

  Distinct-kids : (p : RecordId) (nodes : List T) → Distinct (ids nodes) → Distinct (kids p nodes)
  Distinct-kids p [] d = tt
  Distinct-kids p (node ∷ nodes) d =
      ground (arith, Distinct-kids p nodes, not-mem-kids p (c.record_id node) nodes)

  -- The sorted children of an id are distinct, and are the nodes that name it as a parent.
  module _ (nodes : List T) (sorted : AllSorted nodes) (distinct : Distinct (ids nodes)) where
    abbrev pub sorted_children : Children
    sorted_children = map_values (sort_by compare) (collect_children nodes [])

    children_of-sorted_children :
        (p : RecordId) → children_of p sorted_children ≡ sort_by compare (kids p nodes)
    unfolding children_of Map.get
    children_of-sorted_children p =
        children_of-map_values p (collect_children nodes [])
        ∙ ap (sort_by compare) (children_of-collect_children p nodes [] sorted)

    pub mem-children_of :
        (p id : RecordId)
        → mem id (children_of p sorted_children) ≡ names_parent p (node_of id nodes)
    mem-children_of p id =
        rw children_of-sorted_children
          (mem-sort_by id (kids p nodes) ∙ mem-kids p id nodes distinct)

    pub Distinct-children_of : (p : RecordId) → Distinct (children_of p sorted_children)
    Distinct-children_of p =
        rw children_of-sorted_children
          (Distinct-sort_by (kids p nodes) (Distinct-kids p nodes distinct))
