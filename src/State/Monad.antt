-- ===== src/State/Monad.antt =====
-- Commands over the state: a failed assertion, a spin on a lock that is held, a write past the end
-- of an array and a call of `panic` are faults.
use acai_rmm.Common.{ℕ, Bool, true, false, update, ◌∷◌}
use acai_rmm.State.Types.{Granule, Rd, Rec, Event, Rmm, zero_rd, zero_rec}

pub data Fault : Type 0 where
  assertion deadlock overrun panic : Fault

pub data Outcome {ℓ} (A : Type ℓ) : Type ℓ where
  done : A → Rmm → Outcome A
  fault : Fault → Outcome A

abbrev pub Command {ℓ} : Type ℓ → Type ℓ
Command A = Rmm → Outcome A

abbrev pub pure {ℓ} : {A : Type ℓ} → A → Command A
pure = done

module _ {ℓ κ} {A : Type ℓ} {B : Type κ} where
  abbrev pub and_then : Outcome A → (A → Command B) → Outcome B
  and_then (done a s) k = k a s
  and_then (fault f) k = fault f

  infixl 5 ◌>>=◌ ◌>>◌
  abbrev pub ◌>>=◌ : Command A → (A → Command B) → Command B
  m >>= k = λ s. and_then (m s) k

  abbrev pub ◌>>◌ : Command A → Command B → Command B
  m >> n = m >>= λ _. n

abbrev pub assert : Bool → Command (Unit {0})
assert true s = done tt s
assert false s = fault assertion

-- The members of `struct granule`.
abbrev pub read_granule : ℕ → Command Granule
read_granule g s = done (s.granules g) s

abbrev pub write_granule : ℕ → Granule → Command (Unit {0})
write_granule g x s = done tt (record s { granules = update s.granules g x })

-- The mapped page, by its view.
abbrev pub read_word : ℕ → ℕ → Command ℕ
read_word g i s = done (s.page g i) s

abbrev pub write_word : ℕ → ℕ → ℕ → Command (Unit {0})
write_word g i v s = done tt (record s { page = update s.page g (update (s.page g) i v) })

abbrev pub read_page : ℕ → Command (ℕ → ℕ)
read_page g s = done (s.page g) s

abbrev pub write_page : ℕ → (ℕ → ℕ) → Command (Unit {0})
write_page g content s = done tt (record s { page = update s.page g content })

abbrev pub read_rd : ℕ → Command Rd
read_rd g s = done (s.rds g) s

abbrev pub write_rd : ℕ → Rd → Command (Unit {0})
write_rd g x s = done tt (record s { rds = update s.rds g x })

abbrev pub read_rec : ℕ → Command Rec
read_rec g s = done (s.recs g) s

abbrev pub write_rec : ℕ → Rec → Command (Unit {0})
write_rec g x s = done tt (record s { recs = update s.recs g x })

-- `memset` of a whole page to 0, which all its views show.
abbrev pub zero_page : ℕ → Command (Unit {0})
zero_page g s = done tt (record s {
  page = update s.page g (λ _. 0);
  rds = update s.rds g zero_rd;
  recs = update s.recs g zero_rec;
})

abbrev pub emit : Event → Command (Unit {0})
emit e s = done tt (record s { events = e ∷ s.events })
