-- ===== src/Node/Tests.antt =====
-- A node with two components, the first of which provides service 110.
use gemini_nos.Base.{
  ℕ, ◌+◌, ◌≡◌, ◌⊎◌, refl, arith, none, List, [], ◌∷◌, ◌++◌, nos_ok, nos_err, false, true,
  if◌then◌else◌,
}
use gemini_nos.Base.Scan.{scan}
use gemini_nos.Log.{Log, empty}
use gemini_nos.Services.Lookup.{IsKeyed, looked_up}
use gemini_nos.Node.{
  Node, LoadedInfo, inited, Library, loaded_at, unload_component, reload_component,
}
use gemini_nos.Node.Drop.{provides}
use gemini_nos.Node.Unload.{loaded, unload_lem, reload_fails}

abbrev quiet_log : Log
quiet_log = record {
  ring = λ i. record { level = 0; comp_id = 0; message = 0; state = empty };
  write_idx = 0;
  read_idx = 0;
  global_filter_level = 0;
  comp_info = λ _. record { name = 0; filter_level = 0; is_registered = false };
  dropped_count = 0;
  out = [];
}

abbrev pub pair : Node
pair = record {
  comp = λ c. record { id = c + 1; name = c + 50; status = inited };
  next_comp = 2;
  loaded_info = λ i. record { comp = i; lib_name = i + 70; owner_thread = 0 };
  loaded_count = 2;
  workers = λ _. record { components = λ i. i; component_count = 2 };
  worker_count = 1;
  registry = record {
    entry = λ i. record {
      service_id = i + 110;
      local_provider = i;
      local_thread = 0;
      remote_node_name = 0;
      remote_uds_path = 0;
      is_remote = false;
    };
    count = 2;
  };
  log = quiet_log;
  name = 9;
  services =
      record { service_id = 110; node_name = 9; provider_comp_id = 1; remote_uds_path = 0 } ∷ [];
}

pair-IsKeyed : IsKeyed pair.registry
pair-IsKeyed = record { once = λ i j p q e. omega arith; few = omega arith }

unload_example :
    let out = unload_component 50 pair in
    ((loaded_at pair 50 ≡ none) × (out ≡ (nos_err, pair)))
    ⊎ ((before after : List LoadedInfo) × (info : LoadedInfo) × (out.0 ≡ nos_ok)
        × ((pair.comp info.comp).name ≡ 50)
        × (loaded pair ≡ before ++ info ∷ after)
        × (loaded out.1 ≡ before ++ after)
        × IsKeyed out.1.registry
        × ((k : ℕ)
            → looked_up out.1.registry k ≡ (
                if provides (pair.comp info.comp).id pair.services k
                then none
                else looked_up pair.registry k)))
unload_example = unload_lem 50 pair pair-IsKeyed

abbrev pub shut_files : Library
shut_files = record {
  opens = λ _. false;
  has_symbol = λ _. true;
  exports = λ _ _. true;
  has_init = λ _. true;
  inits = λ _ _. true;
}

reload_example :
    let out = reload_component shut_files 51 pair in
    (out.0 ≡ nos_err)
    × (before after : List LoadedInfo) × (loaded pair ≡ before ++ pair.loaded_info 1 ∷ after)
    × (loaded out.1 ≡ before ++ after)
    × IsKeyed out.1.registry
    × ((k : ℕ)
        → looked_up out.1.registry k ≡ (
            if provides (pair.comp (pair.loaded_info 1).comp).id pair.services k
            then none
            else looked_up pair.registry k))
unfolding loaded_at scan
reload_example = reload_fails shut_files 51 pair 1 pair-IsKeyed refl refl
