-- ===== src/Server.antt =====
-- The gRPC server of the operator: pkg/operator/server/server.go, over the observer of Observer.
--
-- A call takes the state of the process and returns the reply with the state. `internal` is a status
-- error of the code `Internal`.
pub mod Replies
use plenuslb.Base.{Bool, true, Option, none, some, List, [], ◌∷◌, String, ◌==◌, if◌then◌else◌}
use plenuslb.Base.Text.{sprint}
use plenuslb.Errors.{Err, error_text}
use plenuslb.Observer.{Netlink, Agent, add_address, remove_address, cleanup}
use plenuslb.World.{AddressInfo}

-- The calls of the protocol, with what they carry.
pub data Call : Type 0 where
  add_address_call remove_address_call : AddressInfo → Call
  cleanup_call : List AddressInfo → Call
  health_probe_call : String → Call

-- `Result`, `Pong`, or the error.
pub data Reply : Type 0 where
  result : Bool → String → Reply
  pong : String → Reply
  internal : String → Reply

-- `init`: the name of the node, from `MY_NODE_NAME`; `none` is the end of the process.
unfoldable pub node_name_of : String → Option String
node_name_of name = if name == "" then none else some name

module _ {N : Type 0} (netlink : Netlink N) (my_node_name : String) where
  abbrev pub reply : String → Option Err → Reply
  reply message none = result true message
  reply message (some x) = internal (error_text x)

  -- `AddAddress`
  unfoldable pub add_address_reply : AddressInfo → Agent N → Reply × Agent N
  add_address_reply info s =
      let (e, s') = add_address netlink info s in
      (
        reply
            (sprint (
              "Added address " ∷ info.address ∷ " on interface " ∷ info.interface_name ∷ " of node "
              ∷ my_node_name ∷ []))
            e,
        s',
      )

  -- `RemoveAddress`
  unfoldable pub remove_address_reply : AddressInfo → Agent N → Reply × Agent N
  remove_address_reply info s =
      let (e, s') = remove_address netlink info s in
      (
        reply
            (sprint (
              "Deleted address " ∷ info.address ∷ " from interface " ∷ info.interface_name
              ∷ " of node " ∷ my_node_name ∷ []))
            e,
        s',
      )

  -- `Cleanup`
  unfoldable pub cleanup_reply : List AddressInfo → Agent N → Reply × Agent N
  cleanup_reply keep_these s =
      let (e, s') = cleanup netlink keep_these s in (reply "Cleanup completed" e, s')

  -- `HealthProbe`
  unfoldable pub health_probe : String → Agent N → Reply × Agent N
  health_probe message s = (pong "PONG", s)

  unfoldable pub answer : Call → Agent N → Reply × Agent N
  answer (add_address_call info) s = add_address_reply info s
  answer (remove_address_call info) s = remove_address_reply info s
  answer (cleanup_call keep_these) s = cleanup_reply keep_these s
  answer (health_probe_call message) s = health_probe message s
