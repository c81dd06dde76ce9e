-- ===== src/Buffer/Tests.antt =====
-- Concrete buffers.
use gemini_nos.Base.{◌≡◌, refl, none, arith}
use gemini_nos.Buffer.{Buffer, push}
use gemini_nos.Buffer.Room.{IsLaidOut}

abbrev packet : Buffer
packet = record {
  raw_data = 4096;
  data_ptr = 4128;
  capacity = 128;
  len = 40;
  headroom = 32;
  tailroom = 56;
  ref_cnt = 1;
  bin_idx = 0;
  pool_idx = 3;
  flags = 0;
}

abbrev pushed : Buffer
pushed = record packet { data_ptr = 4112; len = 56; headroom = 16 }

packet-IsLaidOut : IsLaidOut packet
packet-IsLaidOut = record { parts = refl; pointer = refl; small = omega arith }

pushed-IsLaidOut : IsLaidOut pushed
pushed-IsLaidOut = record { parts = refl; pointer = refl; small = omega arith }

push_past_headroom : push packet 33 ≡ none
unfolding push
push_past_headroom = refl
