-- ===== src/Lib.antt =====
-- The Realm Management Monitor: granules, stage 2 tables, the commands of the host, and running realms.
--
-- The monitor manages the physical memory of realms. Memory is an array of granules of 4 KB, each with
-- a lock, a state and a reference count; the host delegates granules, makes realms of them and builds
-- the stage 2 translation tables of a realm, by commands that the monitor checks. It then enters an
-- execution context of the realm and runs it until an exception that the host has to handle; the realm
-- asks for services in between. The parts are:
--
--   State     the data of lib/realm/include (granule_types.h, realm.h, rec.h), the registers of the
--             processor, commands over both, and the platform; State/Fvp is plat/fvp/src/fvp_granule.c
--   Status    lib/realm/include/status.h
--   Asc       lib/asc/src/asc_drv.c, the calls of the EL3 monitor
--   Granule   lib/realm/include/granule.h (Ops) and lib/realm/src/granule.c (Find, Set); Quiet,
--             Locking and Pair prove what the locks do
--   S2tt      lib/realm/src/s2tt.c: levels and indices (Level), entries (Entry), whole tables (Table),
--             TLB maintenance and the walk (Walk); Classes, Codec, Unfold and Descent prove
--   Vmid      runtime/core/vmid.c
--   Gic       lib/gic/src/gic.c
--   Rmi       the commands of the host: Rmi/Granule is runtime/rmi/granule.c, Rmi/Realm is
--             runtime/rmi/realm.c with feature.c, Rmi/Rtt is runtime/rmi/rtt.c (tables, data granules
--             in Data and DataDestroy, the device checks in Device, RIPAS in Ripas), Rmi/Rec is
--             runtime/rmi/rec.c, Rmi/Run is runtime/rmi/run.c; Rmi/Steps composes commands into runs
--   Rsi       the services for a realm: runtime/rsi/psci.c (Psci), memory.c (Memory), config.c (Config),
--             host_call.c (HostCall), dev_mem.c (DevMem), realm_ipa_helper.c (Ipa), realm_attest.c
--             with lib/measurement/src (Measurements, Attest)
--   Core      runtime/core and lib/timers: run.c (Run), exit.c (Exit), inject_exp.c (Inject), sysregs.c
--             (Sysregs), handler.c (Handler), timers.c (Timers), the fields of lib/arch/include/esr.h and
--             arch.h (Esr) and the identifiers of lib/smc/include/smc.h (Smc); Area is about the
--             area that the registers of the host are saved to
--   Examples  concrete runs
--
-- A command is a function from the state to an outcome: a result with a new state, or a fault. A failed
-- assertion is a fault, and so is taking a lock that is held, since nobody else runs who could release
-- it: commands run one after the other, without interleaving. Functions keep the names of the source;
-- a long function is split where it branches, and the parts are named after what they do. What follows
-- a test of a pointer is a function by clauses on an option.
--
-- How the state corresponds to the code:
--   - a pointer into the granule array is the index of the granule; a NULL pointer is `none`, and an
--     error cast to a pointer is `status e` of the type Found;
--   - the page of a granule has three views, as 512 words, as a realm descriptor and as an execution
--     context; clearing the page clears all of them. Mapping a page into a slot and unmapping it is
--     left out;
--   - a number of 64 bits is a natural number, with the remainder modulo 2 ^ 64 written where the source
--     can wrap. A level, `long` in the source, is its 64-bit pattern: a negative one is large, and the
--     checks of levels reject it. A shift by a variable amount is modulo 64, as the processor does it;
--   - barriers are left out; a TLB instruction and a call of the EL3 monitor are events of the state;
--   - a write past the end of an array of the source is the fault `overrun`;
--   - a variable that the source does not initialise is a parameter of the function that declares it;
--     an output register that a function does not set is `none`;
--   - `enum ripas` is 32 bits wide, and a conversion to it is a remainder;
--   - a digest, the feature bits of the processor, and the answer of the EL3 monitor belong to the
--     platform, a parameter; IsPlatform says what is relied on, and FVP satisfies it. What the monitor
--     reads from non-secure memory, when it creates a realm, an execution context or a data granule, is
--     a parameter too. So is asc_add_translation_table, which no file of the repository defines.
--
-- How running a realm corresponds to the code:
--   - the processor is the record Cpu: the registers that `struct sysreg_state` names, the others that
--     the monitor reads or writes, the vector registers as one number, and the element of g_ns_data for
--     this processor. A register is read and written by a field; there is one processor;
--   - Machine says what the source does not fix: the identification registers, what the pending
--     interrupts are at each reading, what a realm leaves when the assembly of run_realm returns, what
--     the token library answers, the bytes of the monitor's memory, and what variables hold that are
--     not initialised. A realm changes its general registers, the registers of the processor that it
--     reaches, and the pages of data granules;
--   - MPAM is not built in; the log is left out; the heap of the attestation is a flag, and the two
--     pointers to vector state of the processor are whether they are set.
--
-- Loops run on the number of rounds that are left, which is the bound of the loop in the source: 512
-- entries of a table, the levels from the starting one to the wanted one, the granules of a set, the
-- root tables, the auxiliary granules, the 1000 entries of the arrays of the device checks,
-- the list registers, the pages of a request for device memory. Three loops of the source have no
-- bound of their own and get fuel: the loop that runs a realm, the one that waits until the interrupt of a
-- masked timer is retired, and the one that signs a token; without fuel they are the fault `deadlock`,
-- which is what spinning for ever is. The fuel of the last two is the member `patience` of Machine.
--
-- A run (Rmi/Steps) is a sequence of steps of the host and of realms: the commands on granules, the
-- activation of a realm, the count and the destruction of execution contexts, and writes to pages that
-- their owner may write. The commands on tables, data granules and the creation of realms and contexts
-- are modelled and are not steps of a run.
--
-- Not modelled: the assembly of runtime/core, start-up and the log, the token library of
-- lib/attestation, which calls third-party crypto libraries; the stage 1 tables of the monitor itself
-- and the slots that map a granule, the C library, the allocator, the boot interface and drivers.
mod Common
pub mod State
pub mod Status
pub mod Asc
pub mod Gic
pub mod Granule
pub mod S2tt
pub mod Vmid
pub mod Rmi
pub mod Rsi
pub mod Core
mod Examples
