-- ===== src/Core/Tests.antt =====
-- Runs of the containers of core/ at concrete inputs.
use mg_raffle.Base.{◌≡◌, refl, true, false, [], ◌∷◌, arith}
use mg_raffle.Base.Pointers.{Ptr, null, put}
use mg_raffle.Core.MgList.{Links, remove_list_node}
use mg_raffle.Core.MgList.Ring.{IsRing, remove_list_node-IsRing}
use mg_raffle.Base.{inl, ◌==◌, if◌then◌else◌}
use mg_raffle.Base.Int.{ℤ, pos, ◌-ℤ◌}
use mg_raffle.Base.Run.{done, fault}
use mg_raffle.Core.RbTree.{RbTree, black, search_rb_node, left_rotate}
use mg_raffle.Core.RbTree.Fixup.{insert_rb_node}
use mg_raffle.Core.RbTree.Search.{
  Shape, leaf, node, nodes, Holds, IsSearchTree, IsCompare, find_key, search_rb_node_lem,
  insert_rb_node_lem,
}
use mg_raffle.Core.RbTree.Rotate.{Rotated, left_rotate-Rotated}
use mg_raffle.Core.Pool.{Pool, create_pool, palloc}
use mg_raffle.Core.Pool.Pages.{FirstPage, palloc-FirstPage}
use mg_raffle.Core.Log.{Log, log_fatal, log_check, log_doit}
use mg_raffle.Core.Log.Levels.{fatal, log_by}

-- The sentinel 1 with the nodes 2 and 3.
abbrev links : Links
links = record {
  prev = put 1 3 (put 2 1 (put 3 2 (λ p. 0)));
  next = put 1 2 (put 2 3 (put 3 1 (λ p. 0)));
}

links-IsRing : IsRing links 1 (2 ∷ 3 ∷ [])
links-IsRing = ground arith

remove_list_node-IsRing_example :
    IsRing (remove_list_node 2 false links) 1 (3 ∷ []) × IsRing (remove_list_node 2 true links) 2 []
remove_list_node-IsRing_example = remove_list_node-IsRing 2 1 false links [] (3 ∷ []) links-IsRing

-- The tree of 10 with the children 5 and 20, at the addresses 1, 2 and 3; a node 4 for 7.
abbrev keys : Ptr → ℤ
keys = put 1 (pos 10) (put 2 (pos 5) (put 3 (pos 20) (put 4 (pos 7) (λ p. pos 0))))

abbrev tree : RbTree
tree = record {
  type = λ p. black;
  parent = put 1 null (put 2 1 (put 3 1 (λ p. null)));
  lchild = put 1 2 (λ p. null);
  rchild = put 1 3 (λ p. null);
  count = 3;
  root = 1;
}

abbrev shape : Shape
shape = node 1 (node 2 leaf leaf) (node 3 leaf leaf)

compare_keys : Ptr → Ptr → ℤ
compare_keys l r = keys r -ℤ keys l

compare_keys-IsCompare : IsCompare keys compare_keys
unfolding compare_keys ◌-ℤ◌
compare_keys-IsCompare = record { positive = λ l r. ground arith; negative = λ l r. ground arith }

tree-Holds : Holds tree 1 shape
tree-Holds = ground arith

shape-IsSearchTree : IsSearchTree keys shape
shape-IsSearchTree = ground arith

search_rb_node_lem_example : search_rb_node compare_keys 4 3 false tree ≡ done 3 tree
search_rb_node_lem_example =
    search_rb_node_lem keys compare_keys compare_keys-IsCompare 4 3 false shape tree (omega arith)
      tree-Holds shape-IsSearchTree

insert_rb_node_lem_example :
    insert_rb_node compare_keys 4 4 tree
    ≡ done tt (
        if find_key keys (keys 4) (nodes shape) == null
        then record tree { root = 4; type = put 4 black tree.type; count = 4 }
        else tree)
insert_rb_node_lem_example =
    insert_rb_node_lem keys compare_keys compare_keys-IsCompare 4 4 shape tree (λ e. omega arith)
      (omega arith) tree-Holds shape-IsSearchTree

left_rotate-Rotated_example :
    Rotated null 3 (node 3 (node 1 (node 2 leaf leaf) leaf) leaf) (left_rotate 1 tree)
left_rotate-Rotated_example =
    left_rotate-Rotated 1 3 null (node 2 leaf leaf) leaf leaf tree (ground arith) (inl (refl, refl))
      refl (ground arith)

abbrev links_of_nothing : Links
links_of_nothing = record { prev = λ p. null; next = λ p. null }

palloc-FirstPage_example :
    FirstPage 4096 100 (palloc 1 4096 100 (create_pool 64 1000 links_of_nothing))
palloc-FirstPage_example =
    palloc-FirstPage 0 64 1000 100 4096 links_of_nothing (λ e. omega arith) (λ e. omega arith)
      (omega arith) (omega arith)

-- The pool at 64 with one page at 4096 and one large block at 9000.
abbrev pool : Pool
pool = record {
  max = 1000;
  current = 96;
  large = 80;
  small = 96;
  links = record {
    prev = put 96 4096 (put 4096 96 (put 80 9000 (put 9000 80 (λ p. null))));
    next = put 96 4096 (put 4096 96 (put 80 9000 (put 9000 80 (λ p. null))));
  };
  blocks = 9000 ∷ 4096 ∷ [];
  head = λ p. p;
  last = put 4096 4244 (λ p. null);
  end = put 4096 8191 (λ p. null);
  failed = λ p. 0;
}

abbrev log : Log
log = record { filename = []; level = pos 3; opened = true; written = []; exited = false }

-- "%d"
log_conversion : log_by fatal (37 ∷ 100 ∷ []) log ≡ fault
unfolding log_fatal log_check log_doit
log_conversion = refl
