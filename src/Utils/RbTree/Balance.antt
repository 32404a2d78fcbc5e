-- ===== src/Utils/RbTree/Balance.antt =====
-- Where the counting and the rebalancing of utils/rbtree.h go wrong.
use mg_raffle.Base.{ℕ, suc, ◌≡◌, ◌≢◌, some, arith}
use mg_raffle.Base.Int.{ℤ, pos}
use mg_raffle.Base.Run.{done}
use mg_raffle.Base.Pointers.{Ptr, null, put}
use mg_raffle.Core.RbTree.{RbTree, black, red, load, store, rb_node_is_red}
use mg_raffle.Core.RbTree.Fixup.{present_red}
use mg_raffle.Utils.RbTree.{Tree, on_links, create_node}
use mg_raffle.Utils.RbTree.Insert.{insert, rebalance, rebalance_round}

-- The first insertion makes the node the black root, and answers 1, but does not count it.
pub insert_first :
    (rounds : ℕ) (fresh : Ptr) (v : ℤ) (s : Tree)
    → fresh ≢ null
    → (s.links).root ≡ null
    → insert rounds fresh v s
      ≡ done (some (pos 1)) (record s {
        links = record (s.links) {
          type = put fresh black (put fresh red (s.links).type);
          parent = put fresh null (s.links).parent;
          lchild = put fresh null (s.links).lchild;
          rchild = put fresh null (s.links).rchild;
          root = fresh;
        };
        val = put fresh v s.val;
      })
unfolding insert create_node on_links store
insert_first rounds fresh v s real empty = ground arith

-- A red node on the inner side of a red parent is taken for the nephew of its own parent: the round
-- makes the grandparent red and the parent black, rotates nothing, and goes on above.
pub rebalance-inner :
    (rounds : ℕ) (n p pp : Ptr) (s : RbTree)
    → n ≢ null
    → p ≢ null
    → pp ≢ null
    → pp ≢ p
    → s.parent n ≡ p
    → s.parent p ≡ pp
    → s.rchild p ≡ n
    → s.lchild pp ≡ p
    → s.type p ≡ red
    → rebalance (suc rounds) n s
      ≡ rebalance rounds pp (record s { type = put p black (put p black (put pp red s.type)) })
unfolding rebalance rebalance_round present_red rb_node_is_red load store
rebalance-inner rounds n p pp s nr pr ppr other en ep er el kind = ground arith
