-- ===== src/Core/Handler.antt =====
-- runtime/core/handler.c: the commands of the host, by their function identifiers, and the aborts of the
-- monitor itself.
pub mod Dispatch
use acai_rmm.Common.{
  ℕ, ◌+◌, ◌-◌, ◌*◌, ◌^◌, Bool, ◌&&◌, Option, none, some, ltb, ◌==◌, ◌!=◌, if◌then◌else◌, bit_and,
  update, List, [], ◌∷◌,
}
use acai_rmm.State.{Platform, Command, Cpu, pure, ◌>>=◌}
use acai_rmm.Status.{rmi_success}
use acai_rmm.Rmi.Granule.{smc_granule_delegate, smc_granule_undelegate}
use acai_rmm.Rmi.Realm.Params.{RealmParams, smc_read_feature_register}
use acai_rmm.Rmi.Realm.Create.{smc_realm_create, smc_realm_activate}
use acai_rmm.Rmi.Realm.Destroy.{smc_realm_destroy}
use acai_rmm.Rmi.Rec.Params.{RecParams}
use acai_rmm.Rmi.Rec.Create.{smc_rec_create}
use acai_rmm.Rmi.Rec.Destroy.{smc_rec_destroy, smc_rec_aux_count, smc_psci_complete}
use acai_rmm.Rmi.Run.Completion.{RecEntry}
use acai_rmm.Rmi.Run.Enter.{smc_rec_enter}
use acai_rmm.Rmi.Rtt.Create.{smc_rtt_create}
use acai_rmm.Rmi.Rtt.Destroy.{smc_rtt_destroy}
use acai_rmm.Rmi.Rtt.Fold.{smc_rtt_fold}
use acai_rmm.Rmi.Rtt.Data.{Source, smc_data_create, smc_data_create_unknown}
use acai_rmm.Rmi.Rtt.DataDestroy.{smc_data_destroy}
use acai_rmm.Rmi.Rtt.Unprotected.{smc_rtt_map_unprotected, smc_rtt_unmap_unprotected}
use acai_rmm.Rmi.Rtt.ReadEntry.{smc_rtt_read_entry}
use acai_rmm.Rmi.Rtt.Ripas.{smc_rtt_init_ripas, smc_rtt_set_ripas}
use acai_rmm.Core.Esr.{
  esr_el2_ec_mask, esr_el2_ec_data_abort_sel, esr_el2_abort_fsc_mask, esr_el2_abort_fsc_gpf,
}
use acai_rmm.Core.Machine.{Machine}
use acai_rmm.Core.Smc.{smc_unknown, smc_fnum, is_smc64_rmi_fid}

-- What the pages of the host hold, where a handler reads them, and which can be written.
pub record Host : Type 0 where
  pub realm_params : ℕ → Option RealmParams
  pub rec_params : ℕ → Option RecParams
  pub sources : ℕ → Source
  pub entries : ℕ → Option RecEntry
  pub writable : ℕ → Bool

abbrev pub rmi_abi_version : ℕ
rmi_abi_version = 56 * 2 ^ 16 + 0

unfoldable pub smc_version : ℕ
smc_version = rmi_abi_version

-- The handlers of the table, by their names in it.
pub data SmcHandler : Type 0 where
  version features granule_delegate granule_undelegate realm_create realm_destroy realm_activate
        rec_create rec_destroy rec_enter data_create data_create_unknown data_destroy rtt_create
        rtt_destroy rtt_fold rtt_map_unprotected rtt_unmap_unprotected rtt_read_entry psci_complete
        rec_aux_count rtt_init_ripas rtt_set_ripas :
      SmcHandler

-- The table has 26 entries, of which those that are not listed are empty.
abbrev pub array_len : ℕ
array_len = 26

abbrev pub smc_handlers : List (ℕ × SmcHandler)
smc_handlers =
    (0x0, version)
    ∷ (0x15, features)
    ∷ (0x1, granule_delegate)
    ∷ (0x2, granule_undelegate)
    ∷ (0x8, realm_create)
    ∷ (0x9, realm_destroy)
    ∷ (0x7, realm_activate)
    ∷ (0xa, rec_create)
    ∷ (0xb, rec_destroy)
    ∷ (0xc, rec_enter)
    ∷ (0x3, data_create)
    ∷ (0x4, data_create_unknown)
    ∷ (0x5, data_destroy)
    ∷ (0xd, rtt_create)
    ∷ (0xe, rtt_destroy)
    ∷ (0x16, rtt_fold)
    ∷ (0xf, rtt_map_unprotected)
    ∷ (0x12, rtt_unmap_unprotected)
    ∷ (0x11, rtt_read_entry)
    ∷ (0x14, psci_complete)
    ∷ (0x17, rec_aux_count)
    ∷ (0x18, rtt_init_ripas)
    ∷ (0x19, rtt_set_ripas)
    ∷ []

unfoldable pub entry_at : ℕ → List (ℕ × SmcHandler) → Option SmcHandler
entry_at id [] = none
entry_at id ((i, h) ∷ rest) = if id == i then some h else entry_at id rest

-- `handler`, from the identifier: NULL, or an empty entry, is `none`.
unfoldable pub handler_of : ℕ → Option SmcHandler
unfolding smc_fnum entry_at
handler_of function_id =
    if is_smc64_rmi_fid function_id && ltb (smc_fnum function_id - 0x150) array_len
    then entry_at (smc_fnum function_id - 0x150) smc_handlers
    else none

-- The registers of the result that a handler sets; the others are those of the caller.
abbrev only : (ℕ → ℕ) → ℕ → ℕ → ℕ
only x x0 = update x 0 x0

abbrev with_x1 : (ℕ → ℕ) → ℕ → Option ℕ → ℕ → ℕ
with_x1 x x0 none = update x 0 x0
with_x1 x x0 (some x1) = update (update x 0 x0) 1 x1

abbrev pub returning : (ℕ → ℕ) → Command ℕ → Command (ℕ → ℕ)
returning x c = do r ← c; pure (only x r)

module _ (plat : Platform) (m : Machine) (host : Host) (rounds : ℕ) where
  -- The call of the handler, where an error sets one register alone, with the arguments 0 to 4 of `arg`.
  unfoldable pub call_handler : SmcHandler → (ℕ → ℕ) → (ℕ → ℕ) → Command (ℕ → ℕ)
  unfolding smc_version
  call_handler version arg x = pure (only x smc_version)
  call_handler features arg x =
      let r = smc_read_feature_register plat (arg 0) in pure (with_x1 x r.x0 r.x1)
  call_handler granule_delegate arg x = returning x (smc_granule_delegate plat (arg 0))
  call_handler granule_undelegate arg x = returning x (smc_granule_undelegate plat (arg 0))
  call_handler realm_create arg x =
      returning x (smc_realm_create plat host.realm_params (arg 0) (arg 1))
  call_handler realm_destroy arg x = returning x (smc_realm_destroy plat (arg 0))
  call_handler realm_activate arg x = returning x (smc_realm_activate plat (arg 0))
  call_handler rec_create arg x =
      returning x (smc_rec_create plat host.rec_params (arg 0) (arg 1) (arg 2))
  call_handler rec_destroy arg x = returning x (smc_rec_destroy plat (arg 0))
  call_handler rec_enter arg x = do
    entered ← smc_rec_enter plat m rounds host.entries host.writable (arg 0) (arg 1)
    pure (only x entered.ret)
  call_handler data_create arg x =
      returning x (smc_data_create plat host.sources (arg 0) (arg 1) (arg 2) (arg 3) (arg 4))
  call_handler data_create_unknown arg x =
      returning x (smc_data_create_unknown plat (arg 0) (arg 1) (arg 2))
  call_handler data_destroy arg x = returning x (smc_data_destroy plat (arg 0) (arg 1))
  call_handler rtt_create arg x = returning x (smc_rtt_create plat (arg 0) (arg 1) (arg 2) (arg 3))
  call_handler rtt_destroy arg x =
      returning x (smc_rtt_destroy plat (arg 0) (arg 1) (arg 2) (arg 3))
  call_handler rtt_fold arg x = returning x (smc_rtt_fold plat (arg 0) (arg 1) (arg 2) (arg 3))
  call_handler rtt_map_unprotected arg x =
      returning x (smc_rtt_map_unprotected plat (arg 0) (arg 1) (arg 2) (arg 3))
  call_handler rtt_unmap_unprotected arg x =
      returning x (smc_rtt_unmap_unprotected plat (arg 0) (arg 1) (arg 2))
  call_handler rtt_read_entry arg x = do
    r ← smc_rtt_read_entry plat (arg 0) (arg 1) (arg 2)
    pure (
        if r.x0 == rmi_success
        then update (update (update (update (update x 0 r.x0) 1 r.x1) 2 r.x2) 3 r.x3) 4 r.x4
        else only x r.x0)
  call_handler psci_complete arg x = returning x (smc_psci_complete plat (arg 0) (arg 1))
  call_handler rec_aux_count arg x = do
    r ← smc_rec_aux_count plat (arg 0)
    pure (with_x1 x r.x0 r.x1)
  call_handler rtt_init_ripas arg x = returning x (smc_rtt_init_ripas plat (arg 0) (arg 1) (arg 2))
  call_handler rtt_set_ripas arg x =
      returning x (smc_rtt_set_ripas plat (arg 0) (arg 1) (arg 2) (arg 3) (arg 4))

  -- `x` holds the registers of `ret` before and after.
  unfoldable pub handle_ns_smc : ℕ → (ℕ → ℕ) → (ℕ → ℕ) → Command (ℕ → ℕ)
  unfolding handler_of call_handler
  handle_ns_smc function_id arg x = elim (handler_of function_id) [
    | none ↦ pure (only x smc_unknown)
    | some h ↦ call_handler h arg x
  ]

unfoldable pub is_el2_data_abort_gpf : ℕ → Bool
is_el2_data_abort_gpf esr =
    bit_and esr esr_el2_ec_mask == esr_el2_ec_data_abort_sel
    && bit_and esr esr_el2_abort_fsc_mask == esr_el2_abort_fsc_gpf

-- `rmm_trap_list`, the addresses of which the linker gives.
pub record RmmTrapElement : Type 0 where
  pub aborted_pc : ℕ
  pub new_pc : ℕ

unfoldable pub trap_target : ℕ → List RmmTrapElement → Option ℕ
trap_target elr [] = none
trap_target elr (x ∷ xs) = if x.aborted_pc == elr then some x.new_pc else trap_target elr xs

-- Where the monitor goes on; `none` is `fatal_abort`, which does not return.
unfoldable pub handle_rmm_trap : List RmmTrapElement → Cpu → Option ℕ
unfolding is_el2_data_abort_gpf trap_target
handle_rmm_trap rmm_trap_list c =
    if is_el2_data_abort_gpf c.esr_el2 then trap_target c.elr_el2 rmm_trap_list else none
