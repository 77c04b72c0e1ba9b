-- ===== src/Tests/Hub.antt =====
-- A hub with one client, and the theorems of the hub at it.
use electric_power_digital_d.Common.{some, [], ◌≡◌, refl, ◌∷◌, true, arith, List}
use electric_power_digital_d.Ws.Hub.{
  Hub, new_hub, subscribe_with_user, register_client, broadcast, cleanup_stale, all_clients,
}
use electric_power_digital_d.Storage.Mysql.Reads.{find_row}
use electric_power_digital_d.Storage.Redis.{get, progress}
use electric_power_digital_d.Services.{JobService, update_progress}
use electric_power_digital_d.Services.Push.{update_progress-pushes}
use electric_power_digital_d.Tests.Samples.{service, store, message, job_row}
use electric_power_digital_d.Ws.Steps.{Reaches, here, then, subscribed, registered}
use electric_power_digital_d.Ws.Closing.{Swept}
use electric_power_digital_d.Ws.Silent.{
  Round, Drained, pump, pump-ends, silent-leaves, tick_round, channel_round,
}
use electric_power_digital_d.Ws.Safety.{IsSafe, Delivered, reached-no_panic, broadcast-delivers}

abbrev waiting_hub : Hub
waiting_hub = subscribe_with_user "a" "u" 5 new_hub

abbrev served_hub : Hub
served_hub = register_client 0 (record waiting_hub { registering = [] })

served_hub-reached : Reaches new_hub served_hub
unfolding subscribe_with_user new_hub register_client
served_hub-reached =
    then new_hub waiting_hub served_hub
      (then new_hub new_hub waiting_hub (here new_hub) (subscribed "a" "u" 5 new_hub))
      (registered 0 [] waiting_hub refl)

reached-no_panic_example : IsSafe served_hub
reached-no_panic_example = reached-no_panic served_hub served_hub-reached

broadcast-delivers_example :
    (h' : Hub) × ((broadcast "a" "{}" served_hub ≡ some h') × Delivered "a" "{}" served_hub h')
broadcast-delivers_example = broadcast-delivers served_hub "a" "{}" served_hub-reached

silent-leaves_example :
    (h' : Hub) × (cleanup_stale 200 served_hub ≡ some h')
    × Swept 200 (all_clients served_hub.clients) served_hub.heap (all_clients h'.clients, h'.heap)
silent-leaves_example = silent-leaves served_hub 200 served_hub-reached

-- The client of that hub after its channel was closed, with two messages in it.
abbrev closing_hub : Hub
closing_hub = record waiting_hub {
  heap = λ x. record {
    job_id = "a";
    user_id = "u";
    last_ping = 5;
    send = "1" ∷ "2" ∷ [];
    closed = true;
  };
}

-- A round for a tick, then one for each message and one for the end of the channel.
abbrev rounds : List Round
rounds = tick_round true ∷ channel_round true ∷ channel_round true ∷ channel_round true ∷ []

pump-ends_example : Drained rounds ("1" ∷ "2" ∷ []) (pump rounds 0 closing_hub)
pump-ends_example = pump-ends rounds 0 closing_hub refl (omega arith)

-- A service with that hub, whose database is away for a moment.
abbrev pushing : JobService
pushing = record service { store = record store { faults = some "gone" ∷ [] }; hub = served_hub }

update_progress-pushes_example :
    (s' : JobService) × (update_progress (λ m. m.message) (message "a" 40) 200 pushing ≡ some s')
    × Delivered "a" "working" served_hub s'.hub
    × (find_row "a" s'.store.rows ≡ some (job_row "a" "RUNNING"))
    × (get "job:progress:a" 799 s'.cache.entries ≡ some (progress (message "a" 40)))
unfolding find_row get
update_progress-pushes_example =
    update_progress-pushes (λ m. m.message) (message "a" 40) 200 799 pushing "a" "job:progress:a"
      served_hub-reached
