-- ===== src/Services/Tests.antt =====
-- A registry with one service of a thread.
use gemini_nos.Base.{◌⊎◌, arith, false}
use gemini_nos.Services.{Registry, register_provider_bind, to_thread}
use gemini_nos.Services.Lookup.{IsKeyed}
use gemini_nos.Services.Register.{Refused, Rerouted, bind_routes}

-- A registry with one service of a thread.
abbrev one_service : Registry
one_service = record {
  entry = λ i. record {
    service_id = 110;
    local_provider = 1;
    local_thread = 0;
    remote_node_name = 0;
    remote_uds_path = 0;
    is_remote = false;
  };
  count = 1;
}

one_service-IsKeyed : IsKeyed one_service
one_service-IsKeyed = record { once = λ i j p q e. omega arith; few = omega arith }

bind_routes_example :
    let out = register_provider_bind one_service 120 2 1 in
    IsKeyed out.1
    × (Refused one_service 120 out ⊎ Rerouted one_service 120 (λ flags. to_thread 1) out)
bind_routes_example = bind_routes one_service 120 2 1 one_service-IsKeyed
