-- ===== src/Core/Area/Keeps.antt =====
-- Commands that leave the area of the host as it is, one rule for each way to build a command.
use acai_rmm.Common.{ℕ, ◌≡◌, Bool, true, false, if◌then◌else◌, ◌!=◌, Option, none, some}
use acai_rmm.State.{
  Granule, Rd, Rec, SysregState, Event, Fault, Rmm, Outcome, done, fault, Command, pure, ◌>>=◌,
  assert, panic, read_granule, write_granule, read_word, write_word, read_page, write_page, read_rd,
  write_rd, read_rec, write_rec, emit, and_then, Cpu, NsState,
}
use acai_rmm.Core.Registers.{read_cpu, write_cpu, write_elr_el2, write_cptr_el2}

-- What the area holds: the registers, and ICC_SRE_EL2.
pub record Area : Type 0 where
  pub sysregs : SysregState
  pub icc_sre : ℕ

pub record Holds (a : Area) (n : NsState) : Type 0 where
  pub sysregs : n.sysregs ≡ a.sysregs
  pub icc_sre : n.icc_sre_el2 ≡ a.icc_sre

abbrev pub Ends {ℓ} : {A : Type ℓ} → Area → Outcome A → Type 0
Ends a (done x t) = Holds a t.cpu.ns_data
Ends a (fault f) = Unit {0}

-- Where the command returns, the area is what it was.
pub record Keeps {ℓ} {A : Type ℓ} (a : Area) (m : Command A) : Type ℓ where
  pub at : (s : Rmm) → Holds a s.cpu.ns_data → Ends a (m s)

module _ {ℓ} {A : Type ℓ} {a : Area} where
  pub Keeps-pure : (x : A) → Keeps a (pure x)
  Keeps-pure x = record { at = λ s h. h }

  pub Keeps-fault : (f : Fault) → Keeps {A = A} a (λ s. fault f)
  Keeps-fault f = record { at = λ s h. tt }

  pub Keeps-if : (b : Bool) (m n : Command A) → Keeps a m → Keeps a n → Keeps a (if b then m else n)
  Keeps-if true m n km kn = km
  Keeps-if false m n km kn = kn

  pub Keeps-cases :
      (b : Bool) (m n : Command A)
      → Keeps a m
      → Keeps a n
      → Keeps a (elim b [ true ↦ m | false ↦ n ])
  Keeps-cases true m n km kn = km
  Keeps-cases false m n km kn = kn

module _ {ℓ κ} {A : Type ℓ} {B : Type κ} {a : Area} where
  ends :
      (o : Outcome A) (k : A → Command B)
      → ((x : A) → Keeps a (k x))
      → Ends a o
      → Ends a (and_then o k)
  ends (done x t) k kk h = (kk x).at t h
  ends (fault f) k kk h = tt

  pub Keeps-option :
      (o : Option A) (m : Command B) (k : A → Command B)
      → Keeps a m
      → ((x : A) → Keeps a (k x))
      → Keeps a (elim o [ none ↦ m | some x ↦ k x ])
  Keeps-option none m k km kk = km
  Keeps-option (some x) m k km kk = kk x

  pub Keeps-bind :
      (m : Command A) (k : A → Command B)
      → Keeps a m
      → ((x : A) → Keeps a (k x))
      → Keeps a (m >>= k)
  Keeps-bind m k km kk = record { at = λ s h. ends (m s) k kk (km.at s h) }

pub Keeps-assert : {a : Area} (b : Bool) → Keeps a (assert b)
Keeps-assert true = record { at = λ s h. h }
Keeps-assert false = record { at = λ s h. tt }

pub Keeps-read_granule : {a : Area} (g : ℕ) → Keeps a (read_granule g)
Keeps-read_granule g = record { at = λ s h. h }

pub Keeps-write_granule : {a : Area} (g : ℕ) (x : Granule) → Keeps a (write_granule g x)
Keeps-write_granule g x = record { at = λ s h. record { sysregs = h.sysregs; icc_sre = h.icc_sre } }

pub Keeps-read_word : {a : Area} (g i : ℕ) → Keeps a (read_word g i)
Keeps-read_word g i = record { at = λ s h. h }

pub Keeps-write_word : {a : Area} (g i v : ℕ) → Keeps a (write_word g i v)
Keeps-write_word g i v = record { at = λ s h. record { sysregs = h.sysregs; icc_sre = h.icc_sre } }

pub Keeps-read_page : {a : Area} (g : ℕ) → Keeps a (read_page g)
Keeps-read_page g = record { at = λ s h. h }

pub Keeps-write_page : {a : Area} (g : ℕ) (x : ℕ → ℕ) → Keeps a (write_page g x)
Keeps-write_page g x = record { at = λ s h. record { sysregs = h.sysregs; icc_sre = h.icc_sre } }

pub Keeps-read_rd : {a : Area} (g : ℕ) → Keeps a (read_rd g)
Keeps-read_rd g = record { at = λ s h. h }

pub Keeps-write_rd : {a : Area} (g : ℕ) (x : Rd) → Keeps a (write_rd g x)
Keeps-write_rd g x = record { at = λ s h. record { sysregs = h.sysregs; icc_sre = h.icc_sre } }

pub Keeps-read_rec : {a : Area} (g : ℕ) → Keeps a (read_rec g)
Keeps-read_rec g = record { at = λ s h. h }

pub Keeps-write_rec : {a : Area} (g : ℕ) (x : Rec) → Keeps a (write_rec g x)
Keeps-write_rec g x = record { at = λ s h. record { sysregs = h.sysregs; icc_sre = h.icc_sre } }

pub Keeps-emit : {a : Area} (e : Event) → Keeps a (emit e)
Keeps-emit e = record { at = λ s h. record { sysregs = h.sysregs; icc_sre = h.icc_sre } }

-- What is read of the processor has the area in it, and what is written must have it.
pub Keeps-read_cpu {κ} :
    {B : Type κ} {a : Area} (k : Cpu → Command B)
    → ((c : Cpu) → Holds a c.ns_data → Keeps a (k c))
    → Keeps a (read_cpu >>= k)
Keeps-read_cpu k kk = record { at = λ s h. (kk s.cpu h).at s h }

pub Keeps-write_cpu : {a : Area} (c : Cpu) → Holds a c.ns_data → Keeps a (write_cpu c)
Keeps-write_cpu c n = record { at = λ s h. n }

pub Keeps-write_elr : {a : Area} (v : ℕ) → Keeps a (write_elr_el2 v)
Keeps-write_elr v = record { at = λ s h. record { sysregs = h.sysregs; icc_sre = h.icc_sre } }

pub Keeps-write_cptr : {a : Area} (v : ℕ) → Keeps a (write_cptr_el2 v)
Keeps-write_cptr v = record { at = λ s h. record { sysregs = h.sysregs; icc_sre = h.icc_sre } }

-- A test on the state.
pub Keeps-test {ℓ} :
    {A : Type ℓ} {a : Area} (f : Rmm → Bool) (m n : Command A)
    → Keeps a m
    → Keeps a n
    → Keeps a (λ s. elim (f s) [ true ↦ m s | false ↦ n s ])
Keeps-test f m n km kn = record { at = λ s h. by_test m n km kn (f s) s h }
  where
    by_test :
        {A : Type ℓ} {a : Area} (m n : Command A)
        → Keeps a m
        → Keeps a n
        → (b : Bool) (s : Rmm) → Holds a s.cpu.ns_data
        → Ends a (elim b [ true ↦ m s | false ↦ n s ])
    by_test m n km kn true s h = km.at s h
    by_test m n km kn false s h = kn.at s h

-- A library that fails is the end of the monitor.
pub Keeps-panic :
    {a : Area} (f : Rmm → ℕ)
    → Keeps {A = Unit {0}} a (λ s. if f s != 0 then fault panic else done tt s)
Keeps-panic f = record { at = λ s h. by_error (f s != 0) s h }
  where
    by_error :
        {a : Area} (b : Bool) (s : Rmm)
        → Holds a s.cpu.ns_data
        → Ends {A = Unit {0}} a (if b then fault panic else done tt s)
    by_error true s h = tt
    by_error false s h = h

pub ruleset keeps_rules = (
  Keeps-pure, Keeps-fault, Keeps-if, Keeps-cases, Keeps-option, Keeps-bind, Keeps-assert,
  Keeps-read_granule, Keeps-write_granule, Keeps-read_word, Keeps-write_word, Keeps-read_page,
  Keeps-write_page, Keeps-read_rd, Keeps-write_rd, Keeps-read_rec, Keeps-write_rec, Keeps-emit,
  Keeps-read_cpu, Keeps-write_cpu, Keeps-write_elr, Keeps-write_cptr,
)
