-- ===== src/Threads/Donation/Give.antt =====
-- One step of donate in threads/synch.c of CS439/Project1, and how many threads can still be raised.
use mathlib.Core.List.{Mem, mem-cons, not-mem-nil}
use mathlib.Core.Logic.Or
use native.Mathlib.Bridge.{le_prop}
use utcs.Prelude.{
  ℕ, ◌+◌, ◌≤◌, ◌<◌, ◌≡◌, false, List, [], ◌∷◌, if◌then◌else◌, ltb, ◌==◌, ==_iff, ==_refl, length,
  arith, Bool-cases, inl, inr,
}
use utcs.Threads.{Kernel, set_priority, priority_of}
use utcs.Threads.Donation.{above_donation, give}

give-threads :
    (k : Kernel) (cur lock h : ℕ)
    → (give k cur lock h).threads ≡ (set_priority k h (priority_of k cur)).threads
unfolding give
give-threads k cur lock h =
    elim (Bool-cases (above_donation (priority_of k cur) (k.locks lock).highest_donation)) [
      | inl e ↦ rw e
      | inr e ↦ rw e
    ]

pub priority-give :
    (k : Kernel) (cur lock h t : ℕ)
    → priority_of (give k cur lock h) t ≡ (if t == h then priority_of k cur else priority_of k t)
priority-give k cur lock h t = rw give-threads (ground arith)

pub waiting-give :
    (k : Kernel) (cur lock h t : ℕ)
    → ((give k cur lock h).threads t).waiting_lock ≡ (k.threads t).waiting_lock
waiting-give k cur lock h t = rw give-threads (ground (arith, ==_iff t h))

pub holder-give :
    (k : Kernel) (cur lock h l : ℕ) → ((give k cur lock h).locks l).holder ≡ (k.locks l).holder
unfolding give
holder-give k cur lock h l =
    elim (Bool-cases (above_donation (priority_of k cur) (k.locks lock).highest_donation)) [
      | inl e ↦ rw e (ground (arith, ==_iff l lock))
      | inr e ↦ rw e
    ]

pub all_list-give : (k : Kernel) (cur lock h : ℕ) → (give k cur lock h).all_list ≡ k.all_list
unfolding give
all_list-give k cur lock h =
    elim (Bool-cases (above_donation (priority_of k cur) (k.locks lock).highest_donation)) [
      | inl e ↦ rw e
      | inr e ↦ rw e
    ]

-- How many of the threads have a priority below `p`.
pub below : (priority : ℕ → ℕ) → (p : ℕ) → List ℕ → ℕ
below priority p [] = 0
below priority p (t ∷ rest) =
    if ltb (priority t) p then 1 + below priority p rest else below priority p rest

pub below-le-length : (priority : ℕ → ℕ) (p : ℕ) (xs : List ℕ) → below priority p xs ≤ length xs
unfolding below
below-le-length priority p [] = omega arith
below-le-length priority p (x ∷ xs) = ground (arith, below-le-length priority p xs)

module _ (priority raised : ℕ → ℕ) (p h : ℕ) (at_h : raised h ≡ p)
    (elsewhere : (t : ℕ) → (t == h) ≡ false → raised t ≡ priority t) where
  below_le : (xs : List ℕ) → below raised p xs ≤ below priority p xs
  unfolding below
  below_le [] = omega arith
  below_le (x ∷ xs) = elim (Bool-cases (x == h)) [
    | inl e ↦ let same : x ≡ h = (==_iff x h).0 e in rw same (ground (arith, at_h, below_le xs))
    | inr e ↦ ground (arith, elsewhere x e, below_le xs)
  ]

  -- With the thread raised there is one less.
  pub below_lt : (xs : List ℕ) → Mem h xs → priority h < p → below raised p xs < below priority p xs
  unfolding below
  below_lt [] m lt = absurd (not-mem-nil m)
  below_lt (x ∷ xs) m lt = elim (Bool-cases (x == h)) [
    | inl e ↦ let same : x ≡ h = (==_iff x h).0 e in rw same (ground (arith, at_h, lt, below_le xs))
    | inr e ↦
        let rest : below raised p xs < below priority p xs =
          Or.elim le_prop (mem-cons.0 m) (λ q. absurd (ground (arith, e, q, ==_refl h)))
            (λ n. below_lt xs n lt) in
        ground (arith, elsewhere x e, rest)
  ]
