-- ===== src/Http/Socket.antt =====
-- backend-service/internal/http/router.go: the two handlers that NewRouterWithConfig defines in
-- place, for the routes /ws and /ws/ping. `upgraded` says whether the upgrade of the connection
-- succeeds.
use electric_power_digital_d.Common.{ℕ, String, Bool, Option, none, some, str_eq, if◌then◌else◌}
use electric_power_digital_d.Ws.Hub.{Hub, subscribe_with_user, get_total_clients}
use electric_power_digital_d.Http.Query.{Params, default_query}

-- 400 with a message, or 200 with the status and the number of clients.
pub data SocketReply : Type 0 where
  bad_request : String → SocketReply
  alive : String → ℕ → SocketReply

-- A connection that was taken over, and one whose upgrade failed, get no reply here.
unfoldable pub web_socket : Params → Bool → ℕ → Hub → Option SocketReply × Hub
web_socket q upgraded now h =
    let job_id = default_query "job_id" "" q in
    if str_eq job_id ""
    then (some (bad_request "job_id query parameter is required"), h)
    else if upgraded
    then (none, subscribe_with_user job_id (default_query "user_id" "" q) now h)
    else (none, h)

unfoldable pub web_socket_ping : Hub → SocketReply
unfolding get_total_clients
web_socket_ping h = alive "ok" (get_total_clients h)
