-- ===== src/KernelList/Examples.antt =====
-- The theorems about lib/kernel/list.c at lists of pairs, sorted by the first number.
use utcs.Prelude.{refl, ℕ, ◌≡◌, Bool, List, [], ◌∷◌, some, ltb, arith}
use mathlib.Core.List.{Perm}
use utcs.KernelList.{insert_ordered, sort, sort_loop}
use utcs.KernelList.Order.{IsWeakOrder, IsSorted}
use utcs.KernelList.Insert.{Placed, insert_ordered_lem}
use utcs.KernelList.Sort.{SortOf, sort_lem, sort_loop_passes}
use utcs.KernelList.Sort.Runs.{runs}

abbrev less_key : (ℕ × ℕ) → (ℕ × ℕ) → Bool
less_key a b = ltb a.0 b.0

less_key-IsWeakOrder : IsWeakOrder less_key
less_key-IsWeakOrder = record {
  one_way = λ a b h. ground arith;
  passes_on = λ a b c h k. ground arith;
}

abbrev five : List (ℕ × ℕ)
five = (4, 0) ∷ (2, 1) ∷ (7, 2) ∷ (2, 3) ∷ (1, 4) ∷ []

abbrev three : List (ℕ × ℕ)
three = (1, 0) ∷ (2, 1) ∷ (3, 2) ∷ []

sort-five : sort less_key five ≡ some ((1, 4) ∷ (2, 1) ∷ (2, 3) ∷ (4, 0) ∷ (7, 2) ∷ [])
unfolding sort
sort-five = refl

runs_five : runs less_key five ≡ 4
unfolding runs
runs_five = refl

sort_lem_five : (ys : List (ℕ × ℕ)) × (sort less_key five ≡ some ys) × SortOf less_key five ys
sort_lem_five = sort_lem less_key-IsWeakOrder five

sort_loop_passes_five :
    (ys : List (ℕ × ℕ)) × (sort_loop less_key 3 five ≡ some ys) × SortOf less_key five ys
sort_loop_passes_five = sort_loop_passes less_key-IsWeakOrder 2 five (omega (arith, runs_five))

insert_ordered_lem_two :
    IsSorted less_key (insert_ordered less_key three (2, 9))
    × Perm (insert_ordered less_key three (2, 9)) ((2, 9) ∷ three)
    × Placed less_key three (2, 9) (insert_ordered less_key three (2, 9))
insert_ordered_lem_two =
    insert_ordered_lem less_key-IsWeakOrder three (2, 9)
      ((refl, (refl, tt)), ((refl, tt), (tt, tt)))

abbrev doubled : List (ℕ × ℕ)
doubled = (1, 1) ∷ (2, 2) ∷ (2, 3) ∷ []
