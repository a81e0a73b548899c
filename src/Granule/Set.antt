-- ===== src/Granule/Set.antt =====
-- lib/realm/src/granule.c: several granules locked in the order of their addresses.
use acai_rmm.Common.{
  ℕ, zero, suc, Bool, false, Option, none, some, ltb, ◌==◌, ◌!=◌, if◌then◌else◌, update,
}
use acai_rmm.State.{Platform, GranuleState, Command, pure, ◌>>=◌, ◌>>◌}
use acai_rmm.Granule.Ops.{granule_unlock}
use acai_rmm.Granule.Find.{find_lock_granule}

-- `struct granule_set`; `g_ret` numbers the variable that the caller points to.
pub record GranuleSet : Type 0 where
  pub idx : ℕ
  pub addr : ℕ
  pub state : GranuleState
  pub g : ℕ
  pub g_ret : ℕ

abbrev pub SetArray : Type 0
SetArray = ℕ → GranuleSet

-- The `while` of `sort_granules`: from `j` down, entries above `temp` move up by one.
unfoldable pub shift_up : ℕ → SetArray → GranuleSet → ℕ × SetArray
shift_up zero a temp = (zero, a)
shift_up (suc j) a temp =
    let rest = shift_up j (update a (suc j) (a j)) temp in
    if ltb temp.addr (a j).addr then rest else (suc j, a)

-- The body of its `for`.
unfoldable pub insert_at : ℕ → SetArray → SetArray
insert_at i a =
    let temp = a i in let (j, a') = shift_up i a temp in if i != j then update a' j temp else a'

-- The `for` from 1, with `k` rounds left.
unfoldable pub sort_from : ℕ → ℕ → SetArray → SetArray
sort_from zero i a = a
sort_from (suc k) i a = sort_from k (suc i) (insert_at i a)

unfoldable pub sort_granules : SetArray → ℕ → SetArray
sort_granules a zero = a
sort_granules a (suc n) = sort_from n 1 a

-- `granules[i].idx = i`
unfoldable pub number_entries : ℕ → SetArray → SetArray
number_entries zero a = a
number_entries (suc n) a = let a' = number_entries n a in update a' n (record (a' n) { idx = n })

-- The loop at `out_err`: from `i - 1` down to 0.
unfoldable pub unlock_down : ℕ → SetArray → Command (Unit {0})
unlock_down zero a = pure tt
unlock_down (suc i) a = do granule_unlock (a i).g; unlock_down i a

-- `*granules[i].g_ret = granules[i].g`, over the variables of the caller.
unfoldable pub store_results : ℕ → SetArray → (ℕ → ℕ) → ℕ → ℕ
store_results zero a out = out
store_results (suc n) a out = update (store_results n a out) (a n).g_ret (a n).g

module _ (plat : Platform) where
  unfoldable pub is_duplicate : ℕ → SetArray → Bool
  is_duplicate zero a = false
  is_duplicate (suc i) a = (a (suc i)).addr == (a i).addr

  -- The locking loop from entry `i` on, with `k` rounds left; `none` when it went to `out_err`.
  unfoldable pub lock_from : ℕ → ℕ → SetArray → Command (Option SetArray)
  unfolding is_duplicate
  lock_from zero i a = pure (some a)
  lock_from (suc k) i a =
      let next = λ (g : ℕ). lock_from k (suc i) (update a i (record (a i) { g = g })) in
      if is_duplicate i a then unlock_down i a >> pure none else (do
        g ← find_lock_granule plat (a i).addr (a i).state
        elim g [ none ↦ unlock_down i a >> pure none | some g' ↦ next g' ])

  unfoldable pub find_lock_granules : SetArray → ℕ → Command (Option (ℕ → ℕ))
  unfolding number_entries
  find_lock_granules granules n = do
    let sorted = sort_granules (number_entries n granules) n
    locked ← lock_from n 0 sorted
    elim locked [ none ↦ pure none | some a ↦ pure (some (store_results n a (λ _. 0))) ]

  -- The array that `find_lock_two_granules` fills.
  unfoldable pub two_granules : ℕ → GranuleState → ℕ → GranuleState → SetArray
  two_granules addr1 expected_state1 addr2 expected_state2 i =
      if i == 0
      then record { idx = 0; addr = addr1; state = expected_state1; g = 0; g_ret = 0 }
      else record { idx = 1; addr = addr2; state = expected_state2; g = 0; g_ret = 1 }

  unfoldable pub find_lock_two_granules :
      ℕ → GranuleState → ℕ → GranuleState → Command (Option (ℕ × ℕ))
  unfolding two_granules
  find_lock_two_granules addr1 expected_state1 addr2 expected_state2 = do
    found ← find_lock_granules (two_granules addr1 expected_state1 addr2 expected_state2) 2
    elim found [ none ↦ pure none | some out ↦ pure (some (out 0, out 1)) ]
