-- ===== src/Programs/Options/Tests.antt =====
-- Options given twice, and the theorems applied.
use nonblocking_io.Common.{
  ℕ, ◌^◌, ◌≡◌, refl, List, [], ◌∷◌, ◌||◌, not, ltb, if◌then◌else◌, pos, negsuc, atoi, decimal,
  bytes, length,
}
use nonblocking_io.Programs.Options.{
  Opt, server_options, default_options, main_pool, usage, null_address, connect_with, client_test,
}
use nonblocking_io.Programs.Options.Last.{
  last_of, number_or, numbers_reach_server, all_known, client_test-last,
}

atoi_tests :
    (atoi (bytes "  42x7") ≡ pos 42) × (atoi (bytes "-3") ≡ negsuc 2) × (atoi (bytes "x") ≡ pos 0)
unfolding atoi bytes
atoi_tests = (refl, refl, refl)

abbrev server_opts : List Opt
server_opts =
    record { char = b'n'; optarg = decimal 4 }
    ∷ record { char = b'p'; optarg = decimal 70000 }
    ∷ record { char = b'?'; optarg = [] }
    ∷ record { char = b'n'; optarg = decimal 65600 }
    ∷ []

numbers_reach_server_example :
    ((server_options server_opts (default_options 8)).svr_port ≡ 4464)
    × ((main_pool {Poller = ℕ} 8 0 server_opts).worker_num ≡ 64)
unfolding last_of
numbers_reach_server_example =
    numbers_reach_server {Poller = ℕ} 8 65600 70000 0 server_opts refl refl

abbrev port_only : List Opt
port_only = record { char = b'p'; optarg = decimal 80 } ∷ []

no_address : client_test length (pos 0) 3 port_only ≡ null_address
unfolding client_test
no_address = refl

client_test-last_example : client_test length (pos 0) 3 port_only ≡ (
    if ltb 3 3 || not (all_known port_only)
    then usage
    else connect_with length
        (pos 0)
        (last_of b's' port_only)
        (number_or (2 ^ 16) 0 (last_of b'p' port_only)))
client_test-last_example = client_test-last length (pos 0) 3 port_only
