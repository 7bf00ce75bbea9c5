-- ===== src/Tests/Tree.antt =====
-- A map of three entries of hds_udp/common/HP_Map.h.
use mathlib.Core.List.{reverse}
use test_resend.Prelude.{
  ℕ, ◌+◌, ◌*◌, ◌^◌, ◌≤◌, ◌≡◌, refl, arith, ◌==◌, if◌then◌else◌, true, ◌&&◌, none, inr, some,
}
use test_resend.HpMap.{red, black, leaf, node, Root, find_node, select}
use test_resend.HpMap.Entries.{entries, lookup, insert_entry}
use test_resend.HpMap.Insert.{my_rb_insert}
use test_resend.HpMap.Insert.Descent.{absent}
use test_resend.HpMap.Refine.{IsValid, Inserted, my_rb_insert_refines}
use test_resend.HpMap.Erase.{find_and_del, locate, first}
use test_resend.HpMap.Erase.Removing.{remove_entry}
use test_resend.HpMap.Erase.Refine.{Erased, find_and_del_refines}
use test_resend.Wire.{ConnectionId}
use test_resend.RecvWaitQueue.{wait_key, find, insert, erase_id, waiting_insert}
use test_resend.RecvWaitQueue.Refine.{Answers, found, KeepsOther, queue_refines}
use test_resend.MethodProcessor.{registe_method}
use test_resend.MethodProcessor.Released.{Registered, registe_method_lem}
use test_resend.HpMap.Iterate.{rb_first, rb_last, rb_next, rb_prev, walk}
use test_resend.HpMap.Iterate.Order.{walk_lem}
use test_resend.HpMap.Search.{entry_at, depth, reads_refine}

abbrev three : Root ℕ
three = record {
  rb_node = node black (node red leaf 1 10 1 leaf) 2 20 3 (node red leaf 3 30 1 leaf);
  size = 3;
}

three-IsValid : IsValid three
three-IsValid = record {
  sorted = ((omega arith, (omega arith, tt)), ((omega arith, tt), (tt, tt)));
  balanced = (refl, tt, (refl, (refl, refl), tt, tt), (refl, (refl, refl), tt, tt));
  top = refl;
  weighted = (refl, (refl, tt, tt), (refl, tt, tt));
  counted = refl;
}

my_rb_insert_refines_example :
    Inserted
      (absent (lookup 4 (entries three.rb_node)))
      (insert_entry 4 40 (entries three.rb_node))
      (my_rb_insert 4 40 three)
my_rb_insert_refines_example = my_rb_insert_refines 4 40 three three-IsValid

reads_refine_example :
    (select 2 three ≡ (if 2 == 0 then none else entry_at 2 (entries three.rb_node)))
    × (find_node 3 three.rb_node ≡ lookup 3 (entries three.rb_node))
    × (2 ^ depth three.rb_node ≤ (three.size + 1) * (three.size + 1))
reads_refine_example = reads_refine 2 3 three three-IsValid

find_and_del_refines_example :
    Erased
      (lookup 2 (entries three.rb_node))
      (remove_entry 2 (entries three.rb_node))
      (find_and_del 2 three)
find_and_del_refines_example = find_and_del_refines 2 three three-IsValid

-- The root goes, and its successor takes its place.
abbrev two : Root ℕ
two = record { rb_node = node black (node red leaf 1 10 1 leaf) 3 30 2 leaf; size = 2 }

two_left : find_and_del 2 three ≡ some (some 20, two)
unfolding find_and_del locate first
two_left = refl

abbrev waiting_id : ConnectionId
waiting_id = record { id0 = 17; id1 = 34 }

-- It differs in its second word.
abbrev other_id : ConnectionId
other_id = record waiting_id { id1 = 9 }

queue_refines_example :
    (find waiting_id three ≡ lookup (wait_key waiting_id) (entries three.rb_node))
    × Answers
        (true && absent (lookup (wait_key waiting_id) (entries three.rb_node)))
        (waiting_insert true (wait_key waiting_id) 5 (entries three.rb_node))
        (insert true waiting_id 5 three)
    × Answers
        (found (lookup (wait_key waiting_id) (entries three.rb_node)))
        (remove_entry (wait_key waiting_id) (entries three.rb_node))
        (erase_id waiting_id three)
    × KeepsOther other_id three (insert true waiting_id 5 three)
    × KeepsOther other_id three (erase_id waiting_id three)
queue_refines_example =
    queue_refines true waiting_id other_id 5 three three-IsValid (omega arith, omega arith)
      (omega arith, omega arith) (inr (λ e. omega (arith, e)))

registe_method_lem_example : Registered 7 70 three (registe_method true 7 70 three)
registe_method_lem_example = registe_method_lem 7 70 three three-IsValid

walk_lem_example :
    (walk rb_next 3 (rb_first three.rb_node) ≡ entries three.rb_node)
    × (walk rb_prev 3 (rb_last three.rb_node) ≡ reverse (entries three.rb_node))
walk_lem_example = walk_lem three.rb_node
