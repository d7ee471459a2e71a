-- ===== src/Tests/Tables.antt =====
-- The theorems about the hash table and the stacks, at concrete inputs.
use ig_cachesim.Common.{ℕ, ◌≡◌, refl, ◌∙◌, true, none, some, List, [], ◌∷◌, arith, get_or, length}
use ig_cachesim.HashTable.{HashTable, reset, find, insert, remove}
use ig_cachesim.HashTable.Laws.{reset-IsValid, Inserts, insert-Inserts}
use ig_cachesim.HashTable.Removal.{Removes, remove-Removes, remove-absent}
use ig_cachesim.Stacks.{StackValue, StackStore, no_stacks, insert_stack}
use ig_cachesim.Stacks.Keys.{StackKey, RipKey, stack_key, rip_key}
use ig_cachesim.Stacks.Insertion.{IsSmall, no_stacks-IsStore, Adds, insert_stack-Adds}

abbrev key_a : RipKey
key_a = record { rip = 0x401000; stack_offset = 0 }

abbrev key_b : RipKey
key_b = record { rip = 0x401004; stack_offset = 7 }

abbrev empty : HashTable RipKey ℕ
empty = reset

abbrev table_a : HashTable RipKey ℕ
table_a = insert 5 empty key_a

empty_a : find empty key_a ≡ none
empty_a = (reset-IsValid {V = ℕ}).1 key_a

table_a-Inserts : Inserts 5 empty key_a table_a
table_a-Inserts =
    insert-Inserts 5 empty key_a (reset-IsValid {V = ℕ}).0 (unfold reset in omega arith)

find_a : find table_a key_a ≡ some 5
find_a = table_a-Inserts.own ∙ rw empty_a

find_b : find table_a key_b ≡ none
find_b = table_a-Inserts.others key_b refl ∙ (reset-IsValid {V = ℕ}).1 key_b

count_a : table_a.count ≡ 1
count_a = table_a-Inserts.count ∙ rw empty_a (unfold reset in refl)

insert-Inserts_example : Inserts 5 table_a key_b (insert 5 table_a key_b)
insert-Inserts_example =
    insert-Inserts 5 table_a key_b table_a-Inserts.valid (omega (arith, count_a))

remove-Removes_example :
    (r : HashTable RipKey ℕ) × (remove table_a key_a ≡ some (true, r)) × Removes table_a key_a r
remove-Removes_example = remove-Removes table_a key_a 5 table_a-Inserts.valid find_a

remove-absent_example : remove table_a key_b ≡ none
remove-absent_example = remove-absent table_a key_b table_a-Inserts.valid find_b

-- A digest for the tests.
abbrev pub digest : List ℕ → StackKey
digest fs = record { qword0 = length fs; qword1 = get_or fs 0 0 }

abbrev pub stack : List ℕ
stack = 0x401000 ∷ 0x402000 ∷ 0x403000 ∷ []

no_stacks-small : IsSmall digest no_stacks stack
unfolding reset
no_stacks-small = record { few = omega arith; frames = omega arith; stacks = omega arith }

insert_stack-Adds_example : Adds digest no_stacks stack (insert_stack digest stack no_stacks)
insert_stack-Adds_example =
    insert_stack-Adds digest no_stacks stack (no_stacks-IsStore digest) no_stacks-small
      ((reset-IsValid {V = StackValue}).1 (digest stack))

abbrev pub one_stack : StackStore
one_stack = (insert_stack digest stack no_stacks).1

pub one_stack-Adds : Adds digest no_stacks stack (insert_stack digest stack no_stacks)
one_stack-Adds =
    insert_stack-Adds digest no_stacks stack (no_stacks-IsStore digest) no_stacks-small
      ((reset-IsValid {V = StackValue}).1 (digest stack))
