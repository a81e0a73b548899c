-- ===== src/Granule/Sorting.antt =====
-- lib/realm/src/granule.c, `sort_granules`: the insertion sort that puts the granules in the order in
-- which they are locked.
use mathlib.Core.Path.{subst}
use acai_rmm.Common.{
  ℕ, zero, suc, ◌+◌, ◌≤◌, ◌<◌, ◌≡◌, refl, sym, ◌∙◌, ap, Bool, true, false, arith, ltb, ◌==◌, ◌!=◌,
  if◌then◌else◌, update, update_ne, update_same, Bool-cases, inl, inr,
}
use acai_rmm.Granule.Set.{GranuleSet, SetArray, shift_up, insert_at, sort_from, sort_granules}

-- The first `n` entries are in the order of their addresses.
abbrev pub IsSortedTo : ℕ → SetArray → Type 0
IsSortedTo n a = (k l : ℕ) → k < l → l < n → (a k).addr ≤ (a l).addr

-- How many of the first `n` entries meet a test.
abbrev pub count : (GranuleSet → Bool) → ℕ → SetArray → ℕ
count p zero a = 0
count p (suc n) a = count p n a + (if p (a n) then 1 else 0)

-- `shift_up`, with the entry put where it stopped.
place : ℕ → SetArray → GranuleSet → SetArray
place i a temp = update (shift_up i a temp).1 (shift_up i a temp).0 temp

place-zero : (a : SetArray) (temp : GranuleSet) → place zero a temp ≡ update a 0 temp
unfolding place shift_up
place-zero a temp = refl

place-up :
    (j : ℕ) (a : SetArray) (temp : GranuleSet)
    → ltb temp.addr (a j).addr ≡ true
    → place (suc j) a temp ≡ place j (update a (suc j) (a j)) temp
unfolding place shift_up
place-up j a temp e = rw e refl

place-stop :
    (j : ℕ) (a : SetArray) (temp : GranuleSet)
    → ltb temp.addr (a j).addr ≡ false
    → place (suc j) a temp ≡ update a (suc j) temp
unfolding place shift_up
place-stop j a temp e = rw e refl

-- Above the entry that is placed nothing changes.
place-above : (i : ℕ) (a : SetArray) (temp : GranuleSet) (k : ℕ) → i < k → place i a temp k ≡ a k
place-above zero a temp k lt = rw (place-zero a temp) (update_ne a 0 temp k (omega arith))
place-above (suc j) a temp k lt = elim (Bool-cases (ltb temp.addr (a j).addr)) [
  | inl e ↦ rw (place-up j a temp e) (
      place-above j (update a (suc j) (a j)) temp k (omega arith)
      ∙ update_ne a (suc j) (a j) k (omega arith))
  | inr e ↦ rw (place-stop j a temp e) (update_ne a (suc j) temp k (omega arith))
]

place-bounded :
    (i m : ℕ) (a : SetArray) (temp : GranuleSet)
    → ((k : ℕ) → k < i → (a k).addr ≤ m)
    → temp.addr ≤ m
    → (k : ℕ) → k ≤ i
    → (place i a temp k).addr ≤ m
place-bounded zero m a temp below h k le = rw (place-zero a temp) (ground (arith, h))
place-bounded (suc j) m a temp below h k le = elim (Bool-cases (ltb temp.addr (a j).addr)) [
  | inl e ↦ rw (place-up j a temp e) (elim (Bool-cases (k == suc j)) [
    | inl q ↦ ground (
      arith,
      place-above j (update a (suc j) (a j)) temp (suc j) (omega arith),
      below j (omega arith),
      q,
    )
    | inr q ↦
        place-bounded j m (update a (suc j) (a j)) temp
          (λ l lt. ground (arith, below l (omega arith))) h k (ground (arith, q, le))
  ])
  | inr e ↦ rw (place-stop j a temp e) (ground (arith, h, below k))
]

place-IsSortedTo :
    (i : ℕ) (a : SetArray) (temp : GranuleSet)
    → IsSortedTo i a
    → IsSortedTo (suc i) (place i a temp)
place-IsSortedTo zero a temp s k l lt hi = absurd (omega arith)
place-IsSortedTo (suc j) a temp s k l lt hi = elim (Bool-cases (ltb temp.addr (a j).addr)) [
  | inl e ↦ rw (place-up j a temp e) (elim (Bool-cases (l == suc j)) [
    | inl q ↦ ground (
      arith,
      q,
      place-above j (update a (suc j) (a j)) temp (suc j) (omega arith),
      place-bounded j (a j).addr (update a (suc j) (a j)) temp (λ m h. ground (arith, s m j))
          (ground (arith, e)) k (ground (arith, q, lt)),
    )
    | inr q ↦
        place-IsSortedTo j (update a (suc j) (a j)) temp
          (λ m n h b. ground (arith, s m n h (omega arith))) k l lt (ground (arith, q, hi))
  ])
  | inr e ↦ rw (place-stop j a temp e) (ground (arith, e, s k l lt, s k j))
]

abbrev hit : (GranuleSet → Bool) → GranuleSet → ℕ
hit p x = if p x then 1 else 0

count-above :
    (p : GranuleSet → Bool) (n i : ℕ) (a : SetArray) (x : GranuleSet)
    → n ≤ i
    → count p n (update a i x) ≡ count p n a
count-above p zero i a x le = refl
count-above p (suc n) i a x le = ground (arith, count-above p n i a x (omega arith))

-- A write changes the count by what goes and what comes.
count-update :
    (p : GranuleSet → Bool) (n i : ℕ) (a : SetArray) (x : GranuleSet)
    → i < n
    → count p n (update a i x) + hit p (a i) ≡ count p n a + hit p x
count-update p zero i a x lt = absurd (omega arith)
count-update p (suc n) i a x lt = elim (Bool-cases (i == n)) [
  | inl e ↦ ground (arith, e, count-above p n n a x (omega arith))
  | inr e ↦ ground (arith, e, count-update p n i a x (ground (arith, e, lt)))
]

count-place :
    (p : GranuleSet → Bool) (n i : ℕ) (a : SetArray) (temp : GranuleSet)
    → i < n
    → count p n (place i a temp) ≡ count p n (update a i temp)
count-place p n zero a temp lt = ap (count p n) (place-zero a temp)
count-place p n (suc j) a temp lt = elim (Bool-cases (ltb temp.addr (a j).addr)) [
  | inl e ↦
      let b : SetArray = update a (suc j) (a j) in
      rw (place-up j a temp e) (
        omega (
          arith,
          count-place p n j b temp (omega arith),
          count-update p n j b temp (omega arith),
          count-update p n (suc j) a (a j) lt,
          count-update p n (suc j) a temp lt,
          ap (hit p) (update_ne a (suc j) (a j) j (omega arith)),
        ))
  | inr e ↦ ap (count p n) (place-stop j a temp e)
]

shift_up-le : (i : ℕ) (a : SetArray) (temp : GranuleSet) → (shift_up i a temp).0 ≤ i
unfolding shift_up
shift_up-le zero a temp = omega arith
shift_up-le (suc j) a temp = elim (Bool-cases (ltb temp.addr (a j).addr)) [
  | inl e ↦ rw e (omega (arith, shift_up-le j (update a (suc j) (a j)) temp))
  | inr e ↦ rw e (omega arith)
]

shift_up-still :
    (i : ℕ) (a : SetArray) (temp : GranuleSet)
    → (shift_up i a temp).0 ≡ i
    → (shift_up i a temp).1 ≡ a
unfolding shift_up
shift_up-still zero a temp h = refl
shift_up-still (suc j) a temp h = elim (Bool-cases (ltb temp.addr (a j).addr)) [
  | inl e ↦
      let le = shift_up-le j (update a (suc j) (a j)) temp in absurd (ground (arith, le, e, h))
  | inr e ↦ rw e refl
]

insert_at-place : (i : ℕ) (a : SetArray) → insert_at i a ≡ place i a (a i)
unfolding insert_at place
insert_at-place i a = elim (Bool-cases (i != (shift_up i a (a i)).0)) [
  | inl e ↦ rw e refl
  | inr e ↦
      let at_i : (shift_up i a (a i)).0 ≡ i = ground (arith, e) in
      rw (e, at_i, shift_up-still i a (a i) at_i) (sym (update_same a i (a i) refl))
]

sort_from-IsSortedTo :
    (k i : ℕ) (a : SetArray) → IsSortedTo i a → IsSortedTo (i + k) (sort_from k i a)
unfolding sort_from
sort_from-IsSortedTo zero i a s = λ m n lt hi. s m n lt (omega arith)
sort_from-IsSortedTo (suc k) i a s =
    let placed : IsSortedTo (suc i) (insert_at i a) =
      subst (IsSortedTo (suc i)) (sym (insert_at-place i a)) (place-IsSortedTo i a (a i) s) in
    λ m n lt hi. sort_from-IsSortedTo k (suc i) (insert_at i a) placed m n lt (omega arith)

sort_from-count :
    (p : GranuleSet → Bool) (n k i : ℕ) (a : SetArray)
    → i + k ≤ n
    → count p n (sort_from k i a) ≡ count p n a
unfolding sort_from
sort_from-count p n zero i a le = refl
sort_from-count p n (suc k) i a le =
    sort_from-count p n k (suc i) (insert_at i a) (omega arith)
    ∙ ap (count p n) (insert_at-place i a)
    ∙ count-place p n i a (a i) (omega arith)
    ∙ ap (count p n) (update_same a i (a i) refl)

-- `sort_granules` puts any number of entries in the order of their addresses, and keeps them: every
-- test is met by as many of them as before.
pub sort_granules_lem :
    (a : SetArray) (n : ℕ)
    → IsSortedTo n (sort_granules a n)
      × ((p : GranuleSet → Bool) → count p n (sort_granules a n) ≡ count p n a)
unfolding sort_granules
sort_granules_lem a zero = ((λ k l lt hi. absurd (omega arith)), λ p. refl)
sort_granules_lem a (suc n) = (
  (λ k l lt hi.
      sort_from-IsSortedTo n 1 a (λ i j ij j1. absurd (omega arith)) k l lt (omega arith)),
  λ p. sort_from-count p (suc n) n 1 a (omega arith),
)

-- The inner loop of `sort_granules`, which moves entries up, stops at or below the place where it
-- started, and where it stops before the first entry the one below is not above the entry placed.
pub shift_up_stops :
    (i : ℕ) (a : SetArray) (temp : GranuleSet)
    → ((shift_up i a temp).0 ≤ i)
      × ((j : ℕ) → (shift_up i a temp).0 ≡ suc j → (a j).addr ≤ temp.addr)
unfolding shift_up
shift_up_stops zero a temp = (omega arith, λ j h. absurd (omega (arith, h)))
shift_up_stops (suc i) a temp = elim (Bool-cases (ltb temp.addr (a i).addr)) [
  | inl e ↦
      let rest = shift_up_stops i (update a (suc i) (a i)) temp in
      rw e (omega (arith, rest.0), λ j h. ground (arith, rest.0, rest.1 j h))
  | inr e ↦ rw e (omega arith, λ j h. ground (arith, e, h))
]
