-- ===== src/Apple/Tests.antt =====
-- The theorems on crates/apple at concrete inputs.
use peerless_server.Prelude.{
  ◌≡◌, refl, true, false, Option, some, none, Result, ok, err, Text, text, arith,
}
use peerless_server.Apple.Mirror.{
  Manifest, Status, MirrorHttpError, network, new, with_config, override_endpoint, get_endpoint,
}
use peerless_server.Apple.Mirror.Memory.{Fresh, get_endpoint_again}

abbrev offline : Text → Option Text → Result Text MirrorHttpError
offline url key = err (network (text "no route"))

abbrev answering : Text → Option Text → Result Text MirrorHttpError
answering url key = ok (text "body")

abbrev manifest : Text → Option Manifest
manifest body = some (record {
  source = some (some (text "https://m/"));
  mirrors = none;
  key = some (text "k");
  api_key = none;
})

abbrev status : Text → Status
status body = record { wrapper_lossless_available = some true; wrapper_instances = none }

still :
    Fresh
      (new none)
      100
      20000
      (get_endpoint answering manifest status (new none) (text "u") true 90 100 3 4 with_config).1
unfolding get_endpoint new with_config
still = omega arith

get_endpoint_again_example :
    get_endpoint offline manifest status
      (new none)
      (text "u")
      false
      20000
      20010
      5
      6
      (get_endpoint answering manifest status (new none) (text "u") true 90 100 3 4 with_config).0
    ≡ get_endpoint answering manifest status (new none) (text "u") true 90 100 3 4 with_config
get_endpoint_again_example =
    get_endpoint_again answering manifest status offline (new none) (text "u") 90 100 20000 3 4
      20010 5 6 with_config (unfold new override_endpoint in refl) still
