-- ===== src/Core/MgList.antt =====
-- core/mg_list.h and core/mg_list.c: intrusive circular lists. Every link of a ring is allocated
-- by the caller, so the memory of links is total here.
pub mod Chain
pub mod Ring
use mg_raffle.Base.{Bool, ◌==◌, if◌then◌else◌}
use mg_raffle.Base.Pointers.{Ptr, put}

-- `struct mg_list`, for all addresses at once
pub record Links : Type 0 where
  pub prev : Ptr → Ptr
  pub next : Ptr → Ptr

-- `p->_next = q` and `p->_prev = q`
abbrev pub set_next : Ptr → Ptr → Links → Links
set_next p q m = record m { next = put p q m.next }

abbrev pub set_prev : Ptr → Ptr → Links → Links
set_prev p q m = record m { prev = put p q m.prev }

unfoldable pub init_list : Ptr → Links → Links
init_list l m = set_prev l l (set_next l l m)

unfoldable pub insert_list_front : Ptr → Ptr → Links → Links
insert_list_front e l m =
    let m1 = set_next e l m in
    let m2 = set_prev e (m1.prev l) m1 in let m3 = set_next (m2.prev l) e m2 in set_prev l e m3

unfoldable pub insert_list_end : Ptr → Ptr → Links → Links
insert_list_end e l m =
    let m1 = set_next e (m.next l) m in
    let m2 = set_prev e l m1 in let m3 = set_prev (m2.next l) e m2 in set_next l e m3

unfoldable pub remove_list_node : Ptr → Bool → Links → Links
unfolding init_list
remove_list_node e cleanup m =
    let m1 = set_next (m.prev e) (m.next e) m in
    let m2 = set_prev (m1.next e) (m1.prev e) m1 in if cleanup then init_list e m2 else m2

unfoldable pub list_head : Ptr → Links → Ptr
list_head l m = m.next l

unfoldable pub list_tail : Ptr → Links → Ptr
list_tail l m = m.prev l

-- `MG_LIST_EMPTY`
unfoldable pub list_empty : Ptr → Links → Bool
list_empty l m = l == m.prev l
