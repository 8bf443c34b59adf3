-- ===== src/Concurrency/LockedList/Examples.antt =====
-- lock_coupling.c on a list of two nodes.
use operating_systems_theory.Common.{
  arith, [], false, if◌then◌else◌, none, refl, some, true, ◌+◌, ◌∷◌, ◌≡◌,
}
use operating_systems_theory.Concurrency.LockedList.Heap.{
  Heap, Ptr, node, null, write, list_delete, list_insert, list_print, list_free,
}
use operating_systems_theory.Concurrency.LockedList.Chain.{
  Chain, end, link, Returns, SameOutside, has,
}
use operating_systems_theory.Concurrency.LockedList.Delete.{list_delete-erase, erase, count_found}
use operating_systems_theory.Concurrency.LockedList.Insert.{list_insert-Inserted, Inserted}
use operating_systems_theory.Concurrency.LockedList.Walk.{
  list_print-values, SameCells, list_free-none, values,
}

abbrev two_nodes : Heap
two_nodes = record {
  cell = write (write (λ _. none) 16 (some (node false 0 32))) 32 (some (node false 5 null));
  misuses = 0;
}

two_nodes-Chain : Chain two_nodes.cell false 16 ((16, 0) ∷ (32, 5) ∷ [])
two_nodes-Chain = link (omega arith) refl refl (link (omega arith) refl refl end)

list_delete-erase_example :
    Returns
      (λ _ g.
        Chain g.cell false 16 ((16, 0) ∷ erase ((32, 5) ∷ []) 5)
        × SameOutside ((16, 0) ∷ (32, 5) ∷ []) two_nodes.cell g.cell
        × ((a : Ptr)
            → has a ((32, 5) ∷ []) ≡ true
            → has a (erase ((32, 5) ∷ []) 5) ≡ false
            → g.cell a ≡ none)
        × (g.misuses ≡ two_nodes.misuses + count_found ((32, 5) ∷ []) 5))
      (list_delete 2 16 5 two_nodes)
list_delete-erase_example = list_delete-erase 5 2 two_nodes two_nodes-Chain (omega arith)

list_insert-Inserted_example :
    Returns (Inserted two_nodes 16 (16, 0) (48, 7) ((32, 5) ∷ [])) (list_insert 16 48 7 two_nodes)
list_insert-Inserted_example = list_insert-Inserted two_nodes 7 (omega arith) two_nodes-Chain refl

list_print-values_test :
    Returns (λ l g. (l ≡ values ((32, 5) ∷ [])) × SameCells two_nodes g) (list_print 2 16 two_nodes)
list_print-values_test = list_print-values 2 two_nodes two_nodes-Chain (omega arith)

list_free-none_test :
    Returns
      (λ _ g.
        ((a : Ptr) → g.cell a ≡ (if has a ((16, 0) ∷ (32, 5) ∷ []) then none else two_nodes.cell a))
        × (g.misuses ≡ two_nodes.misuses))
      (list_free 3 16 two_nodes)
list_free-none_test = list_free-none 3 two_nodes two_nodes-Chain (omega arith)
