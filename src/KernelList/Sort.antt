-- ===== src/KernelList/Sort.antt =====
-- list_sort of lib/kernel/list.c: a natural merge sort in passes.
pub mod Runs
pub mod Pass
use mathlib.Core.List.{Perm}
use mathlib.Core.List.Perm
use native.Mathlib.Nat.{pow-succ'}
use native.Mathlib.Numerals.{add-one}
use utcs.Prelude.{
  ℕ, zero, suc, ◌+◌, ◌*◌, ◌^◌, ◌≤◌, ◌<◌, ◌≡◌, refl, sym, ◌∙◌, Bool, true, false, List, [], ◌∷◌,
  ◌++◌, Option, some, if◌then◌else◌, ltb, leb, length, Bool-cases, inl, inr, ◌>>=◌, ◌>>◌, check,
  arith,
}
use utcs.KernelList.{sort_pass, sort_loop, sort, is_sorted}
use utcs.KernelList.Order.{IsWeakOrder, IsSorted, tied}
use utcs.KernelList.Merge.{is_sorted-IsSorted, IsSorted-is_sorted}
use utcs.KernelList.Sort.Runs.{runs, runs_le_one, runs-le-length}
use utcs.KernelList.Sort.Pass.{PassDone, sort_pass_lem}

-- `out` has the elements of `xs`, in order, and those that tie in the order of `xs`.
pub record SortOf {ℓ} {A : Type ℓ} (less : A → A → Bool) (xs out : List A) : Type ℓ where
  pub sorted : IsSorted less out
  pub perm : Perm out xs
  pub stable : (k : A) → tied less k out ≡ tied less k xs

module _ {ℓ} {A : Type ℓ} {less : A → A → Bool} (w : IsWeakOrder less) where
  -- The last pass leaves one run, any other at most half of them and one more.
  loop_step :
      (fuel : ℕ) (xs out : List A) (n : ℕ)
      → PassDone less (length xs) xs out n
      → (ltb 1 n ≡ true → (ys : List A) × (sort_loop less fuel out ≡ some ys) × SortOf less out ys)
      → (ys : List A) × (sort_loop less (suc fuel) xs ≡ some ys) × SortOf less xs ys
  unfolding sort_loop
  loop_step fuel xs out n d rec = elim (Bool-cases (ltb 1 n)) [
    | inl more ↦
        let (ys, e, s) = rec more in
        (
          ys,
          rw (d.ran, more) e,
          record {
            sorted = s.sorted;
            perm = Perm.trans s.perm d.perm;
            stable = λ k. s.stable k ∙ d.stable k;
          },
        )
    | inr last ↦ (
      out,
      rw (d.ran, last),
      record {
        sorted = is_sorted-IsSorted w out (runs_le_one less out (ground (arith, d.fewer)));
        perm = d.perm;
        stable = d.stable;
      },
    )
  ]

  halves : (r r' n k : ℕ) → r ≤ 2 ^ suc k → 2 * n ≤ r + 1 → r' ≤ n → r' ≤ 2 ^ k
  halves r r' n k a b c = omega (arith, pow-succ' 2 k)

  one_left : (r n : ℕ) → r ≤ 2 ^ 0 → 2 * n ≤ r + 1 → ltb 1 n ≡ false
  one_left r n a b = ground arith

  -- By a weak order `less`, list_sort needs no more than k + 1 passes over a list of at most 2 ^ k
  -- runs, after which the list is sorted and those that tie stand in the order in which they were.
  pub sort_loop_passes :
      (k : ℕ) (xs : List A)
      → runs less xs ≤ 2 ^ k
      → (ys : List A) × (sort_loop less (suc k) xs ≡ some ys) × SortOf less xs ys
  sort_loop_passes zero xs h =
      let (out, n, d) = sort_pass_lem w (length xs) xs (omega arith) in
      loop_step zero xs out n d (λ more. absurd (cc (more, one_left (runs less xs) n h d.halved)))
  sort_loop_passes (suc k) xs h =
      let (out, n, d) = sort_pass_lem w (length xs) xs (omega arith) in
      loop_step (suc k) xs out n d (λ more.
        sort_loop_passes k out (halves (runs less xs) (runs less out) n k h d.halved d.fewer))

  length-le-pow : (n : ℕ) → (n ≤ 2 ^ n) × (1 ≤ 2 ^ n)
  length-le-pow zero = (omega arith, omega arith)
  length-le-pow (suc n) =
      let (le, pos) = length-le-pow n in
      (omega (arith, pow-succ' 2 n), omega (arith, pow-succ' 2 n))

  -- By a weak order `less`, list_sort ends with no assertion failed: the elements stand in order,
  -- and those that tie stand in the order in which they were.
  pub sort_lem : (xs : List A) → (ys : List A) × (sort less xs ≡ some ys) × SortOf less xs ys
  unfolding sort
  sort_lem xs =
      let (le, pos) = length-le-pow (length xs) in
      let (ys, e, s) = sort_loop_passes (length xs) xs (omega (arith, runs-le-length less xs)) in
      (ys, rw (add-one, e, IsSorted-is_sorted less ys s.sorted), s)
