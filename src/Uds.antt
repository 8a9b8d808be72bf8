-- ===== src/Uds.antt =====
-- src/apps/uds/uds_client.c: the UDS client, over one ISO-TP connection. Its state, `uds_state`, is
-- part of what is outside the ISO-TP layer. The functions that the application registers are
-- parameters, `App`; `none` is a fault, the call of NULL included.
pub mod Requests
pub mod Responses
pub mod Session
pub mod Calm
pub mod Heap
pub mod Machine
pub mod Moves
pub mod Receiving
pub mod Refinement
pub mod Delivery
pub mod Attempts
pub mod Stuck
pub mod Closing
mod Tests
use lwcan.Common.{ℕ, Bool, Option, none, some, List, [], ◌∷◌, ◌==◌}
use lwcan.Can.{LwcanErr}
use lwcan.Isotp.Types.{Ctx}

-- `uds_state_t`
pub data UdsPhase : Type 0 where
  uds_idle connecting sending_request wait_response wait_segmented response_pending : UdsPhase

abbrev pub phase_code : UdsPhase → ℕ
phase_code uds_idle = 0
phase_code connecting = 1
phase_code sending_request = 2
phase_code wait_response = 3
phase_code wait_segmented = 4
phase_code response_pending = 5

-- `struct uds_context`, without the callback of a server
pub record UdsContext : Type 0 where
  pub positive_response : Option ℕ
  pub negative_response : Option ℕ
  pub error : Option ℕ

-- `struct uds_state`; `isotp_pcb` is the address of the connection, or NULL.
pub record UdsState : Type 0 where
  pub state : UdsPhase
  pub is_connected : Bool
  pub connect_try_num : ℕ
  pub connect_try_time : ℕ
  pub with_response : ℕ
  pub p2 : ℕ
  pub p2_star : ℕ
  pub connect_cb : Option ℕ
  pub connect_cb_arg : ℕ
  pub context : Option UdsContext
  pub handle : ℕ
  pub isotp_pcb : Option ℕ

-- include/lwcan/apps/uds_options.h
pub record UdsOptions : Type 0 where
  pub s3_client : ℕ
  pub p2_default : ℕ
  pub p2_star_default : ℕ
  pub connect_retry_num : ℕ
  pub connect_retry_timeout : ℕ
  pub keep_session : Bool
  pub keep_session_suppress : ℕ

-- The client's state, and what is outside the library
pub record World (E : Type 0) : Type 0 where
  pub uds : UdsState
  pub app : E

-- The functions of the application, by their addresses
pub record App (E : Type 0) : Type 0 where
  pub connect_fn : ℕ → ℕ → LwcanErr → Ctx (World E) → Option (Ctx (World E))
  pub positive_fn : ℕ → ℕ → List ℕ → ℕ → Ctx (World E) → Option (Ctx (World E))
  pub negative_fn : ℕ → ℕ → ℕ → ℕ → Ctx (World E) → Option (Ctx (World E))
  pub error_fn : ℕ → ℕ → LwcanErr → Ctx (World E) → Option (Ctx (World E))

abbrev pub in_phase : UdsPhase → UdsPhase → Bool
in_phase s t = phase_code s == phase_code t

module _ {E : Type 0} where
  abbrev pub set_uds : UdsState → Ctx (World E) → Ctx (World E)
  set_uds u c = record c { ext = record (c.ext) { uds = u } }

  abbrev pub set_phase : UdsPhase → Ctx (World E) → Ctx (World E)
  set_phase s c = set_uds (record (c.ext.uds) { state = s }) c
