-- ===== src/Boy/Vpp.antt =====
-- libvapi as boy/ uses it. It is not part of the repository: which calls succeed, which callbacks a
-- request makes and what it returns in the end are functions of the calls made before.
pub mod Monad
pub mod Session
pub mod Ends
use beastie_boy.Common.Allocator.{Heap}
use beastie_boy.Boy.Cli.{MemifCreate}
use beastie_boy.Prelude.{ℕ, Bool, Option, List, CString}

-- `vapi_error_e`; a value that the code does not name is `other`.
pub data VapiError : Type 0 where
  vapi_ok einval eagain enotsup enomem enoresp emap_fail econ_fail eincompatible mutex_failure :
      VapiError
  euser enotsock eacces econnreset esock_failure other : VapiError

-- `vapi_enum_if_type`
pub data IfType : Type 0 where
  hardware sub p2p pipe other_type : IfType

-- `vapi_enum_span_state`
pub data SpanState : Type 0 where
  disabled span_rx span_tx span_rx_tx : SpanState

-- The requests that boy sends. Interfaces are named by their `sw_if_index`.
pub data Request : Type 0 where
  dump_interfaces dump_memifs ask_version show_hardware : Request
  dump_spans : Bool → Request
  set_admin_up : ℕ → Request
  set_span_state : ℕ → ℕ → SpanState → Bool → Request
  make_memif : MemifCreate → Request

-- A call of libvapi.
pub data Call : Type 0 where
  ctx_alloc : VapiError → Call
  connect : VapiError → Call
  disconnect ctx_free : Call
  alloc_message : Request → Bool → Call
  send : Request → Call

-- `flags` as the two bits that boy looks at, IF_STATUS_API_FLAG_ADMIN_UP and ..._LINK_UP.
pub record IfFlags : Type 0 where
  pub admin_up : Bool
  pub link_up : Bool

-- `vapi_payload_sw_interface_details`; a text field is its bytes, which need not hold a zero byte.
pub record InterfaceDetails : Type 0 where
  pub sw_if_index : ℕ
  pub if_type : IfType
  pub flags : IfFlags
  pub link_speed : ℕ
  pub interface_name : List ℕ
  pub interface_dev_type : List ℕ
  pub l2_address : List ℕ

-- `vapi_payload_sw_interface_span_details`
pub record SpanDetails : Type 0 where
  pub sw_if_index_from : ℕ
  pub sw_if_index_to : ℕ
  pub state : SpanState
  pub is_l2 : Bool

-- `vapi_payload_memif_details`
pub record MemifDetails : Type 0 where
  pub if_name : List ℕ
  pub socket_id : ℕ
  pub flags : IfFlags

-- The replies that carry a `retval`, and for memif_create the index of the new interface.
pub record Reply : Type 0 where
  pub retval : ℕ
  pub sw_if_index : ℕ

-- `vapi_payload_show_version_reply`
pub record VersionDetails : Type 0 where
  pub retval : ℕ
  pub program : List ℕ
  pub version : List ℕ
  pub build_date : List ℕ
  pub build_directory : List ℕ

-- `vapi_payload_cli_inband_reply`
pub record InbandReply : Type 0 where
  pub retval : ℕ
  pub reply : List ℕ

-- What a request does until it returns: it calls back with `rv`, `is_last` and a reply that may be
-- NULL, goes on by what the callback returns, and ends with an error code.
pub data Exchange (A : Type 0) : Type 0 where
  ends : VapiError → Exchange A
  calls_back : VapiError → Bool → Option A → (VapiError → Exchange A) → Exchange A

pub record Vapi : Type 0 where
  pub allocs_ctx : List Call → VapiError
  pub connects : List Call → VapiError
  pub allocs_message : List Call → Request → Bool
  pub sends_interfaces : List Call → Exchange InterfaceDetails
  pub sends_spans : List Call → Bool → Exchange SpanDetails
  pub sends_memifs : List Call → Exchange MemifDetails
  pub replies : List Call → Request → Exchange Reply
  pub versions : List Call → Exchange VersionDetails
  pub inbands : List Call → Exchange InbandReply

-- What a command of boy changes: the calls made so far, last one first, and the heap.
pub record World : Type 0 where
  pub calls : List Call
  pub heap : Heap
